-- ===== src/Relocate.antt =====
-- The move of the video memory in the guest: `demu_relocate_guest_range` and `demu_set_vram_addr` of
-- demu.c.
--
-- Xen is outside the repository: `move_page from to` is `xc_domain_add_to_physmap` on the map from
-- guest pages to machine pages, `none` an error. The call of `xc_hvm_track_dirty_vram`, whose result is
-- not read, is left out; `device_update_lfb_addr` is counted.
pub mod Pages
mod Tests
use citrix_vgpu.Prelude.{
  ◌-◌, ℕ, zero, suc, ◌+◌, ◌*◌, ◌/◌, ◌^◌, Bool, true, false, Option, none, some, ◌==◌, if◌then◌else◌,
}
use citrix_vgpu.Vga.Memory.{vram_reserved_size}

-- The map from guest pages to machine pages
abbrev pub Physmap : Type 0
Physmap = ℕ → Option ℕ

-- The fields of `demu_state` that take part, `demu_resuming` and `demu_state_dirty`
pub record Placed : Type 0 where
  pub vram_addr : ℕ
  pub resuming : Bool
  pub state_dirty : Bool
  pub lfb_updates : ℕ
  pub physmap : Physmap

module _ (move_page : ℕ → ℕ → Physmap → Option Physmap) where
  -- The loop from page `i` on, with the pages left
  unfoldable pub move_pages : ℕ → ℕ → ℕ → ℕ → Physmap → Physmap × Bool
  move_pages old new zero i m = (m, true)
  move_pages old new (suc n) i m = elim (move_page (old / 2 ^ 12 + i) (new / 2 ^ 12 + i) m) [
    | none ↦ (m, false)
    | some m' ↦ move_pages old new n (suc i) m'
  ]

  -- `true` is a return of 0.
  unfoldable pub demu_relocate_guest_range : ℕ → ℕ → ℕ → Physmap → Physmap × Bool
  demu_relocate_guest_range old new size m = move_pages old new ((size + (2 ^ 12 - 1)) / 2 ^ 12) 0 m

  unfoldable pub demu_set_vram_addr : ℕ → Placed → Placed
  demu_set_vram_addr addr p =
      let now = if p.resuming then record p { vram_addr = addr } else p in
      if now.vram_addr == addr
      then now
      else let (m, done) =
          demu_relocate_guest_range now.vram_addr addr vram_reserved_size now.physmap in
        if done
        then record now {
          vram_addr = addr;
          physmap = m;
          lfb_updates = now.lfb_updates + 1;
          state_dirty = true;
        }
        else record now { physmap = m }
