-- ===== src/Vga/Vbe/Faults.antt =====
-- Where the VBE data port of device.c leaves an array or divides by zero.
use citrix_vgpu.Prelude.{
  ap, ◌∙◌, ℕ, ◌≡◌, ◌≢◌, ◌≤◌, ◌↔◌, none, arith, refl, Bool-cases, Option-cases, inl, inr, leb, true,
}
use citrix_vgpu.Vga.{Vga, Sized, reg, bits}
use citrix_vgpu.Vga.Vbe.{
  VbeIndex, index_of, xres, yres, bpp, enable, bank, virt_width, virt_height, x_offset, y_offset,
  video_memory_64k, lfb_address_h, lfb_address_l, past, caps, device_vbe_data_read,
  device_vbe_data_write, write_index, write_virt_width, xres_of, bpp_of, pixel_bytes,
}

read_past : (v : Vga) → Sized v → v.vbe_index ≡ 13 → device_vbe_data_read v ≡ none
unfolding device_vbe_data_read index_of
read_past v z h = elim (Bool-cases (bits (reg v.vbe_regs 4) 2)) [
  | inl e ↦ rw (e, h) (ground arith)
  | inr e ↦ rw (e, h) (ground arith)
]

read_inside : (v : Vga) → Sized v → v.vbe_index ≢ 13 → device_vbe_data_read v ≢ none
unfolding device_vbe_data_read
read_inside v z n e = elim (Option-cases (caps (index_of v.vbe_index))) [
  | inl q ↦ ground arith
  | inr (x, q) ↦ ground arith
]

-- If the arrays have their sizes, a read of the VBE data port leaves the register array exactly
-- when the guest has selected register 13, VBE_DISPI_INDEX_NB itself.
pub device_vbe_data_read-none_iff :
    (v : Vga) → Sized v → (device_vbe_data_read v ≡ none) ↔ (v.vbe_index ≡ 13)
device_vbe_data_read-none_iff v z = (λ e. ground (arith, read_inside v z), read_past v z)

write_index-none :
    (a : ℕ) (i : VbeIndex) (val : ℕ) (v : Vga)
    → write_index a i val v ≡ none
    → (i ≡ virt_width) × (write_virt_width val v ≡ none)
unfolding write_index
write_index-none a VbeIndex.id val v e = ground arith
write_index-none a xres val v e = ground arith
write_index-none a yres val v e = ground arith
write_index-none a bpp val v e = ground arith
write_index-none a enable val v e = ground arith
write_index-none a bank val v e = ground arith
write_index-none a virt_width val v e = (refl, e)
write_index-none a virt_height val v e = ground arith
write_index-none a x_offset val v e = ground arith
write_index-none a y_offset val v e = ground arith
write_index-none a video_memory_64k val v e = ground arith
write_index-none a lfb_address_h val v e = ground arith
write_index-none a lfb_address_l val v e = ground arith
write_index-none a past val v e = ground arith

write_virt_width-none_iff :
    (val : ℕ) (v : Vga)
    → (write_virt_width val v ≡ none) ↔ ((xres_of v ≤ val) × (pixel_bytes (bpp_of v) val ≡ 0))
unfolding write_virt_width
write_virt_width-none_iff val v = (λ e. ground arith, λ (p, q). ground arith)

index_six : (n : ℕ) → index_of n ≡ virt_width → n ≡ 6
unfolding index_of
index_six n e = ground arith

write_width :
    (a val : ℕ) (v : Vga) → write_virt_width val v ≡ none → write_index a (index_of 6) val v ≡ none
unfolding write_index index_of
write_width a val v e = e

-- A write to the VBE data port divides by zero exactly when the guest has selected
-- VBE_DISPI_INDEX_VIRT_WIDTH, the width it writes is not below the horizontal resolution, and a line
-- of that width has no bytes at the present depth.
pub device_vbe_data_write-none_iff :
    (a val : ℕ) (v : Vga)
    → (device_vbe_data_write a val v ≡ none)
      ↔ ((v.vbe_index ≡ 6) × (xres_of v ≤ val) × (pixel_bytes (bpp_of v) val ≡ 0))
unfolding device_vbe_data_write
device_vbe_data_write-none_iff a val v =
    let marked : Vga = record v { part1_dirty = true } in
    let (faults, back) = write_virt_width-none_iff val marked in
    (
      λ e. elim (Bool-cases (leb v.vbe_index 13)) [
        | inl y ↦
            let (i, w) = write_index-none a (index_of v.vbe_index) val marked (ground arith) in
            (index_six v.vbe_index i, (faults w).0, (faults w).1)
        | inr n ↦ ground arith
      ],
      λ (six, le, zero). rw (ap (λ (n : ℕ). leb n 13) six) (
          ap (λ (n : ℕ). write_index a (index_of n) val marked) six
          ∙ write_width a val marked (back (le, zero))),
    )
