-- ===== src/Vga/Memory/Bounds.antt =====
-- The addresses that the memory window of device.c reaches in the video memory.
use citrix_vgpu.Prelude.{
  ◌*◌, ℕ, ◌≡◌, ◌≢◌, ◌<◌, ◌≤◌, ◌↔◌, some, none, arith, get_or, Option-cases, inl, inr, false, List,
  bit_and,
}
use citrix_vgpu.Prelude.Bits.{bit_and-le_right}
use citrix_vgpu.Vga.{Vga, get, reg, bits}
use citrix_vgpu.Vga.Banks.{Within, get-inside}
use citrix_vgpu.Vga.Ports.{sr_mask, gr_mask}
use citrix_vgpu.Vga.Ports.Safe.{IsValid}
use citrix_vgpu.Vga.Memory.{
  word_at, write_decoded, read_decoded, Vram, mask16, vga_offset, latched_value,
  device_vga_memory_readb, copy_from_vram, copy_from_vram4, odd_even_addr, copy_to_vram4,
  demu_vram_set_page_dirty, do_write, write_source, latched_source, device_vga_memory_writeb,
}

-- An offset of the window is inside the 4 MB that the device shows.
pub vga_offset-lt :
    (gr6 bank addr a : ℕ) → bank ≤ 0x3f0000 → vga_offset gr6 bank addr ≡ some a → a < 0x400000
unfolding vga_offset
vga_offset-lt gr6 bank addr a h e = ground arith

pub mask16-inside : (i : ℕ) → i ≤ 15 → get mask16 i ≡ some (get_or mask16 i 0)
mask16-inside i h = get-inside mask16 i (omega arith)

latched_value_total : (gr : List ℕ) (latch : ℕ) → Within gr_mask gr → latched_value gr latch ≢ none
unfolding latched_value gr_mask
latched_value_total gr latch w e =
    ground (arith, mask16-inside (reg gr 2) (w 2), mask16-inside (reg gr 7) (w 7))

odd_even_addr-lt : (gr4 a : ℕ) → a < 0x400000 → odd_even_addr gr4 a < 0x1000000
odd_even_addr-lt gr4 a h = omega (arith, bit_and-le_right gr4 2)

read_at :
    (m : Vram) (v : Vga) (a : ℕ) → Within gr_mask v.gr → a < 0x400000 → read_decoded m a v ≢ none
unfolding read_decoded copy_from_vram copy_from_vram4
read_at m v a w h e =
    ground
      (arith, odd_even_addr-lt (reg v.gr 4) a h, latched_value_total v.gr (word_at (a * 4) m) w)

-- A byte read from the memory window, in a valid state with the bank offset inside the 4 MB of the
-- device, is handled without an access outside the mapping of the video memory.
pub device_vga_memory_readb_total :
    (m : Vram) (addr : ℕ) (v : Vga)
    → IsValid v
    → v.bank_offset ≤ 0x3f0000
    → device_vga_memory_readb m addr v ≢ none
unfolding device_vga_memory_readb
device_vga_memory_readb_total m addr v h b e =
    elim (Option-cases (vga_offset (reg v.gr 6) v.bank_offset addr)) [
      | inl n ↦ ground arith
      | inr (a, q) ↦
          ground
            (arith, read_at m v a h.gr_within (vga_offset-lt (reg v.gr 6) v.bank_offset addr a b q))
    ]

write_source_total : (gr : List ℕ) (val : ℕ) → Within gr_mask gr → write_source gr val ≢ none
unfolding write_source gr_mask
write_source_total gr val w e = ground (
  arith,
  mask16-inside (reg gr 0) (w 0),
  mask16-inside (reg gr 1) (w 1),
  mask16-inside (bit_and val 0x0f) (bit_and-le_right val 0x0f),
)

latched_source_total : (v : Vga) (val : ℕ) → Within gr_mask v.gr → latched_source v val ≢ none
unfolding latched_source
latched_source_total v val w e = ground (arith, write_source_total v.gr val w)

do_write_iff :
    (a mask x : ℕ) (m : Vram)
    → mask ≤ 15
    → a < 0x400000
    → (do_write a mask x m ≡ none) ↔ (0x100000 ≤ a)
unfolding do_write copy_from_vram4 copy_to_vram4 demu_vram_set_page_dirty
do_write_iff a mask x m h b =
    (λ e. ground (arith, mask16-inside mask h), λ e. ground (arith, mask16-inside mask h))

-- A latched write (neither chain-4 nor odd/even mode), in a valid state with the bank offset inside
-- the 4 MB of the device, fails exactly when its offset is 1 MB or more: the four planes then lie
-- past the 4 MB that the dirty map covers, and the assertion on the page number ends the program.
pub device_vga_memory_writeb-none_iff :
    (addr val a : ℕ) (v : Vga) (m : Vram)
    → IsValid v
    → v.bank_offset ≤ 0x3f0000
    → vga_offset (reg v.gr 6) v.bank_offset addr ≡ some a
    → bits (reg v.sr 4) 0x08 ≡ false
    → bits (reg v.gr 5) 0x10 ≡ false
    → (device_vga_memory_writeb addr val v m ≡ none) ↔ (0x100000 ≤ a)
unfolding device_vga_memory_writeb write_decoded sr_mask
device_vga_memory_writeb-none_iff addr val a v m h b q c o =
    elim (Option-cases (latched_source v val)) [
      | inl n ↦ absurd (latched_source_total v val h.gr_within n)
      | inr (x, e) ↦
          let (to, from) =
            do_write_iff a (reg v.sr 2) x m (h.sr_within 2)
              (vga_offset-lt (reg v.gr 6) v.bank_offset addr a b q) in
          (λ n. ground arith, λ n. ground arith)
    ]
