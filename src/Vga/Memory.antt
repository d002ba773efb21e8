-- ===== src/Vga/Memory.antt =====
-- The VGA memory window of device.c: `device_vga_memory_readb`, `device_vga_memory_writeb`, the two
-- copies to and from the video memory, and `demu_vram_set_page_dirty` of demu.c.
--
-- `none` is an access past the mapping of the video memory, past an array, or the failed assertion
-- of `demu_vram_set_page_dirty`. Integers of 32 bits that only bit operations see need no wrap.
pub mod Bounds
pub mod Chain
pub mod Dirty
use citrix_vgpu.Prelude.{
  ℕ, suc, ◌+◌, ◌-◌, ◌*◌, ◌/◌, ◌%◌, ◌^◌, Bool, true, false, Option, none, some, List, [], ◌∷◌,
  bit_and, bit_or, bit_xor, ltb, ◌==◌, if◌then◌else◌, ◌>>=◌, update,
}
use citrix_vgpu.Vga.{Vga, get, reg, bits}

-- VRAM_RESERVED_SIZE, the size of the mapping
abbrev pub vram_reserved_size : ℕ
vram_reserved_size = 0x1000000

-- The video memory, and the bits of `vram_dirty_map`: 16 words of 64 bits.
pub record Vram : Type 0 where
  pub byte : ℕ → ℕ
  pub page_dirty : ℕ → Bool

abbrev pub mask16 : List ℕ
mask16 =
    0x00000000 ∷ 0x000000ff ∷ 0x0000ff00 ∷ 0x0000ffff ∷ 0x00ff0000 ∷ 0x00ff00ff ∷ 0x00ffff00
    ∷ 0x00ffffff ∷ 0xff000000 ∷ 0xff0000ff ∷ 0xff00ff00 ∷ 0xff00ffff ∷ 0xffff0000 ∷ 0xffff00ff
    ∷ 0xffffff00 ∷ 0xffffffff ∷ []

-- `~x` of a `uint32_t`
abbrev pub not32 : ℕ → ℕ
not32 x = 0xffffffff - x

-- GET_PLANE
abbrev pub get_plane : ℕ → ℕ → ℕ
get_plane x p = x / 2 ^ (p * 8) % 256

unfoldable pub demu_vram_set_page_dirty : ℕ → Vram → Option Vram
demu_vram_set_page_dirty pfn m =
    if ltb (pfn / 64) 16
    then some (record m { page_dirty = update m.page_dirty pfn true })
    else none

-- `__copy_from_vram` of one byte, and of the four bytes of a little-endian `uint32_t`
unfoldable pub copy_from_vram : ℕ → Vram → Option ℕ
copy_from_vram addr m = if ltb addr vram_reserved_size then some (m.byte addr) else none

abbrev pub word_at : ℕ → Vram → ℕ
word_at addr m =
    m.byte addr
    + m.byte (addr + 1) * 2 ^ 8
    + m.byte (addr + 2) * 2 ^ 16
    + m.byte (addr + 3) * 2 ^ 24

unfoldable pub copy_from_vram4 : ℕ → Vram → Option ℕ
copy_from_vram4 addr m = if ltb (addr + 3) vram_reserved_size then some (word_at addr m) else none

-- `__copy_to_vram`, which marks the page of the first byte
unfoldable pub copy_to_vram : ℕ → ℕ → Vram → Option Vram
copy_to_vram val addr m =
    if ltb addr vram_reserved_size
    then demu_vram_set_page_dirty (addr / 2 ^ 12) (record m { byte = update m.byte addr val })
    else none

unfoldable pub copy_to_vram4 : ℕ → ℕ → Vram → Option Vram
copy_to_vram4 x addr m =
    let b0 = update m.byte addr (get_plane x 0) in
    let b1 = update b0 (addr + 1) (get_plane x 1) in
    let b2 = update b1 (addr + 2) (get_plane x 2) in
    if ltb (addr + 3) vram_reserved_size
    then demu_vram_set_page_dirty (addr / 2 ^ 12)
        (record m { byte = update b2 (addr + 3) (get_plane x 3) })
    else none

-- The first `switch` of both handlers: the offset that an address selects, if the memory map mode
-- decodes it. The subtractions of a `uint64_t` wrap.
unfoldable pub vga_offset : ℕ → ℕ → ℕ → Option ℕ
vga_offset gr6 bank_offset addr =
    let mode = bit_and (gr6 / 4) 3 in
    let a = addr % 2 ^ 17 in
    let b = (a + 2 ^ 64 - 0x10000) % 2 ^ 64 in
    let c = (a + 2 ^ 64 - 0x18000) % 2 ^ 64 in
    if mode == 0
    then some a
    else if mode == 1
    then (if ltb a 0x10000 then some (a + bank_offset) else none)
    else if mode == 2
    then (if ltb b 0x8000 then some b else none)
    else if ltb c 0x8000
    then some c
    else none

-- The plane of odd/even mode, and the byte that it gives for an offset: the fields that the code
-- joins with `|` have no bit in common.
abbrev pub odd_even_plane : ℕ → ℕ → ℕ
odd_even_plane gr4 a = bit_and gr4 2 + a % 2

abbrev pub odd_even_addr : ℕ → ℕ → ℕ
odd_even_addr gr4 a = (a - a % 2) * 2 + odd_even_plane gr4 a

-- The value of a latched read, from the latch that it has loaded.
unfoldable pub latched_value : List ℕ → ℕ → Option ℕ
latched_value gr latch =
    if bits (reg gr 5) 0x08
    then (do
      compare ← get mask16 (reg gr 2)
      care ← get mask16 (reg gr 7)
      let tmp : ℕ = bit_and (bit_xor latch compare) care
      let half : ℕ = bit_or tmp (tmp / 2 ^ 16)
      some (not32 (bit_or half (half / 2 ^ 8)) % 256))
    else some (get_plane latch (reg gr 4))

-- The rest of `device_vga_memory_readb`, at a decoded offset
unfoldable pub read_decoded : Vram → ℕ → Vga → Option (ℕ × Vga)
read_decoded m a v =
    if bits (reg v.sr 4) 0x08
    then (copy_from_vram a m >>= λ x. some (x, v))
    else if bits (reg v.gr 5) 0x10
    then (copy_from_vram (odd_even_addr (reg v.gr 4) a) m >>= λ x. some (x, v))
    else do
      latch ← copy_from_vram4 (a * 4) m
      x ← latched_value v.gr latch
      some (x, record v { latch = latch; part1_dirty = true })

unfoldable pub device_vga_memory_readb : Vram → ℕ → Vga → Option (ℕ × Vga)
device_vga_memory_readb m addr v = elim (vga_offset (reg v.gr 6) v.bank_offset addr) [
  | none ↦ some (0xff, v)
  | some a ↦ read_decoded m a v
]

-- The byte of write modes 0 and 3, rotated: `(x >> b) | (x << (8 - b))`
abbrev pub rotated : ℕ → ℕ → ℕ
rotated b x = bit_or (x / 2 ^ b) (x * 2 ^ (8 - b))

-- A byte in all four planes
abbrev pub four_times : ℕ → ℕ
four_times x = let two = bit_or x (x * 2 ^ 8) in bit_or two (two * 2 ^ 16)

-- The first `switch` on the write mode: `write_val` and `bit_mask`.
unfoldable pub write_source : List ℕ → ℕ → Option (ℕ × ℕ)
write_source gr val =
    let mode = bit_and (reg gr 5) 3 in
    let turned = rotated (bit_and (reg gr 3) 7) val in
    if mode == 2
    then (do x ← get mask16 (bit_and val 0x0f); some (x, reg gr 8))
    else if mode == 3
    then (do x ← get mask16 (reg gr 0); some (x, bit_and (reg gr 8) turned))
    else do
      set_mask ← get mask16 (reg gr 1)
      reset ← get mask16 (reg gr 0)
      some (
        bit_or (bit_and (four_times (turned % 256)) (not32 set_mask)) (bit_and reset set_mask),
        reg gr 8,
      )

-- The logical operation on the latch
unfoldable pub logical : ℕ → ℕ → ℕ → ℕ
logical func_select x latch =
    if func_select == 1
    then bit_and x latch
    else if func_select == 2
    then bit_or x latch
    else if func_select == 3
    then bit_xor x latch
    else x

-- `write_val` at the label do_write
unfoldable pub latched_source : Vga → ℕ → Option ℕ
latched_source v val = if bit_and (reg v.gr 5) 3 == 1 then some v.latch else do
  (x, mask8) ← write_source v.gr val
  let bit_mask : ℕ = four_times mask8
  let y : ℕ = logical (reg v.gr 3 / 8) x v.latch
  some (bit_or (bit_and y bit_mask) (bit_and v.latch (not32 bit_mask)))

-- From do_write on: the planes that sr[2] enables take `write_val`.
unfoldable pub do_write : ℕ → ℕ → ℕ → Vram → Option Vram
do_write a mask write_val m = do
  write_mask ← get mask16 mask
  old ← copy_from_vram4 (a * 4) m
  copy_to_vram4 (bit_or (bit_and old (not32 write_mask)) (bit_and write_val write_mask)) (a * 4) m

-- `vga->plane_updated |= mask`
abbrev pub note_planes : ℕ → Vga → Vga
note_planes mask v = record v { plane_updated = bit_or v.plane_updated mask }

-- A write to one plane, if sr[2] enables it
unfoldable pub write_plane : ℕ → ℕ → ℕ → Vga → Vram → Option (Vga × Vram)
write_plane plane a val v m =
    if bits (reg v.sr 2) (2 ^ plane)
    then (do m' ← copy_to_vram val a m; some (note_planes (2 ^ plane) v, m'))
    else some (v, m)

-- The rest of `device_vga_memory_writeb`, at a decoded offset
unfoldable pub write_decoded : ℕ → ℕ → Vga → Vram → Option (Vga × Vram)
write_decoded a val v m =
    if bits (reg v.sr 4) 0x08
    then write_plane (a % 4) a val v m
    else if bits (reg v.gr 5) 0x10
    then write_plane (odd_even_plane (reg v.gr 4) a) (odd_even_addr (reg v.gr 4) a) val v m
    else do
      x ← latched_source v val
      m' ← do_write a (reg v.sr 2) x m
      some (note_planes (reg v.sr 2) v, m')

unfoldable pub device_vga_memory_writeb : ℕ → ℕ → Vga → Vram → Option (Vga × Vram)
device_vga_memory_writeb addr val v m = elim (vga_offset (reg v.gr 6) v.bank_offset addr) [
  | none ↦ some (v, m)
  | some a ↦ write_decoded a val v m
]
