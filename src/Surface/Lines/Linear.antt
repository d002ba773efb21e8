-- ===== src/Surface/Lines/Linear.antt =====
-- A frame without CGA addressing and without repeated lines: which lines are updated, and that the
-- loop meets no failed `assert`.
use citrix_vgpu.Prelude.{
  ℕ, zero, suc, ◌+◌, ◌-◌, ◌/◌, ◌≡◌, ◌≤◌, ◌<◌, ◌||◌, Bool, true, false, bit_and,
}
use citrix_vgpu.Vga.{bits}
use citrix_vgpu.Vga.Memory.{Vram}
use citrix_vgpu.Surface.Lines.{Frame}

-- Whether one of `n` pages is dirty
abbrev pub any_dirty : Vram → ℕ → ℕ → Bool
any_dirty m zero page = false
any_dirty m (suc n) page = m.page_dirty page || any_dirty m n (page + 1)

-- Whether a line of `bwidth` bytes at an address is updated: in a full update, or if one of the pages
-- that it touches is dirty.
abbrev pub redraws : Vram → Frame → ℕ → Bool
redraws m f addr =
    f.full_update || any_dirty m ((addr + f.bwidth - 1) / 4096 + 1 - addr / 4096) (addr / 4096)

-- Register 0x17 has its low two bits, each line is shown once, and `line_compare` is past the lines.
pub record IsLinear (f : Frame) (last : ℕ) : Type 0 where
  pub even : bits f.cr17 1 ≡ true
  pub odd : bits f.cr17 2 ≡ true
  pub both : bit_and f.cr17 3 ≡ 3
  pub once : f.multi_scan ≡ 0
  pub whole : last ≤ f.line_compare
  pub wide : 0 < f.bwidth
