-- ===== src/Vga/Vbe.antt =====
-- The VBE index and data ports of device.c, and `device_update_lfb_addr`.
--
-- `none` is undefined behaviour: a register past the array's end, or a division by zero. The
-- `memset` of the video memory is `clear_size`, the number of bytes that it clears from offset 0 on.
pub mod Modes
pub mod Faults
use citrix_vgpu.Prelude.{
  ℕ, suc, ◌+◌, ◌-◌, ◌*◌, ◌/◌, ◌%◌, ◌^◌, Bool, true, false, not, ◌&&◌, ◌||◌, Option, none, some,
  List, [], ◌∷◌, bit_and, bit_or, ltb, leb, ◌==◌, if◌then◌else◌, set, ◌>>=◌,
}
use citrix_vgpu.Vga.{Vga, get, put, reg, bits, clear}

abbrev pub max_xres : ℕ
max_xres = 1024

abbrev pub max_yres : ℕ
max_yres = 768

abbrev pub max_bpp : ℕ
max_bpp = 32

-- VRAM_ACTUAL_SIZE
abbrev pub vram_actual_size : ℕ
vram_actual_size = 0x400000

-- VBE_DISPI_INDEX_*
pub data VbeIndex : Type 0 where
  id xres yres bpp enable bank virt_width virt_height x_offset y_offset video_memory_64k
        lfb_address_h lfb_address_l past :
      VbeIndex

-- The index register as a label of the `switch` statements; `past` is VBE_DISPI_INDEX_NB, which
-- the tests `vbe_index <= VBE_DISPI_INDEX_NB` let through, and all above it.
unfoldable pub index_of : ℕ → VbeIndex
index_of i =
    if i == 0
    then id
    else if i == 1
    then xres
    else if i == 2
    then yres
    else if i == 3
    then bpp
    else if i == 4
    then enable
    else if i == 5
    then bank
    else if i == 6
    then virt_width
    else if i == 7
    then virt_height
    else if i == 8
    then x_offset
    else if i == 9
    then y_offset
    else if i == 10
    then video_memory_64k
    else if i == 11
    then lfb_address_h
    else if i == 12
    then lfb_address_l
    else past

-- The value that VBE_DISPI_GETCAPS gives for an index, if it gives one.
abbrev pub caps : VbeIndex → Option ℕ
caps xres = some max_xres
caps yres = some max_yres
caps bpp = some max_bpp
caps _ = none

unfoldable pub device_vbe_data_read : Vga → Option ℕ
device_vbe_data_read v =
    if leb v.vbe_index 13
    then (if bits (reg v.vbe_regs 4) 2
        then elim (caps (index_of v.vbe_index)) [
          | some x ↦ some x
          | none ↦ get v.vbe_regs v.vbe_index
        ]
        else get v.vbe_regs v.vbe_index)
    else some 0

unfoldable pub device_vbe_index_write : ℕ → Vga → Vga
device_vbe_index_write val v = record v { part1_dirty = true; vbe_index = val }

-- `addr` is what `demu_get_vram_addr` returns.
unfoldable pub device_update_lfb_addr : ℕ → Vga → Vga
device_update_lfb_addr addr v = if v.lfb_addr == addr then v else record v {
  part1_dirty = true;
  lfb_addr = addr;
  vbe_regs =
      set (set (set v.vbe_regs 11 (addr / 2 ^ 16 % 2 ^ 16)) 12 (addr % 2 ^ 16)) 10
        (v.lfb_size / 2 ^ 16 % 2 ^ 16);
}

-- The registers that the code reads by name.
abbrev pub xres_of : Vga → ℕ
xres_of v = reg v.vbe_regs 1

abbrev pub yres_of : Vga → ℕ
yres_of v = reg v.vbe_regs 2

abbrev pub bpp_of : Vga → ℕ
bpp_of v = reg v.vbe_regs 3

abbrev pub set_reg : ℕ → ℕ → Vga → Vga
set_reg i x v = record v { vbe_regs = set v.vbe_regs i x }

-- Bytes of `w` pixels: `w >> 1` at 4 bits, else `w * ((bpp + 7) >> 3)`.
abbrev pub pixel_bytes : ℕ → ℕ → ℕ
pixel_bytes depth w = if depth == 4 then w / 2 else w * ((depth + 7) / 8)

unfoldable pub write_id : ℕ → Vga → Vga
write_id val v = if leb 0xb0c0 val && leb val 0xb0c4 then set_reg 0 val v else v

unfoldable pub write_xres : ℕ → Vga → Vga
write_xres val v = if leb val max_xres && bit_and val 7 == 0 then set_reg 1 val v else v

unfoldable pub write_yres : ℕ → Vga → Vga
write_yres val v = if leb val max_yres then set_reg 2 val v else v

abbrev pub known_depth : ℕ → Bool
known_depth d = d == 4 || d == 8 || d == 15 || d == 16 || d == 24 || d == 32

unfoldable pub write_bpp : ℕ → Vga → Vga
write_bpp val v =
    let depth = if val == 0 then 8 else val in if known_depth depth then set_reg 3 depth v else v

unfoldable pub write_bank : ℕ → Vga → Vga
write_bank val v =
    let masked = bit_and val (if bpp_of v == 4 then v.vbe_bank_mask / 4 else v.vbe_bank_mask) in
    record (set_reg 5 masked v) { bank_offset = masked * 2 ^ 16 }

-- The assignments to `gr`, `cr` and `sr` when VBE is switched on, for the line offset `line`.
unfoldable pub graphics_mode : ℕ → Vga → Vga
graphics_mode line v =
    let h = yres_of v + 2 ^ 32 - 1 in
    let cr1 = set v.cr 0x17 (bit_or (reg v.cr 0x17) 3) in
    let cr2 = set cr1 0x13 (line / 8 % 256) in
    let cr3 = set cr2 0x01 ((xres_of v / 8 + 255) % 256) in
    let cr4 = set cr3 0x12 (h % 256) in
    let cr5 = set cr4 0x07 (
      bit_or (bit_or (clear (reg cr4 0x07) 0x42) (bit_and (h / 2 ^ 7) 2))
        (bit_and (h / 2 ^ 3) 0x40)) in
    let cr6 = set cr5 0x18 0xff in
    let cr7 = set cr6 0x07 (bit_or (reg cr6 0x07) 0x10) in
    let cr8 = set cr7 0x09 (bit_or (reg cr7 0x09) 0x40) in
    let cr9 = set cr8 0x09 (clear (reg cr8 0x09) 0x9f) in
    let gr1 = set v.gr 6 (bit_or (clear (reg v.gr 6) 0x0c) 5) in
    if bpp_of v == 4
    then record v {
      cr = cr9;
      gr = set gr1 5 (clear (reg gr1 5) 0x60);
      sr = set v.sr 1 (clear (reg v.sr 1) 8);
    }
    else record v {
      cr = cr9;
      gr = set gr1 5 (bit_or (clear (reg gr1 5) 0x60) 0x40);
      sr = set (set v.sr 4 (bit_or (reg v.sr 4) 8)) 2 (bit_or (reg v.sr 2) 0x0f);
    }

-- `h >> 7` and `h >> 3` of an `int` h, and `(uint8_t)h`, are the same bits of h + 2 ^ 32.

-- The part of VBE_DISPI_INDEX_ENABLE that switches VBE on, up to the `memset`.
unfoldable pub start_mode : ℕ → Vga → Vga
start_mode vram_addr v =
    let v1 = device_update_lfb_addr vram_addr v in
    let line = pixel_bytes (bpp_of v1) (xres_of v1) in
    record v1 {
      vbe_regs = set (set (set (set v1.vbe_regs 6 (xres_of v1)) 7 (yres_of v1)) 8 0) 9 0;
      vbe_line_offset = line;
      vbe_start_addr = 0;
    }

-- The bytes of video memory that a write of `val` to VBE_DISPI_INDEX_ENABLE clears.
unfoldable pub clear_size : ℕ → ℕ → Vga → ℕ
unfolding start_mode device_update_lfb_addr
clear_size vram_addr val v =
    if bits val 1 && not (bits (reg v.vbe_regs 4) 1) && not (bits val 0x80)
    then yres_of (start_mode vram_addr v) * (start_mode vram_addr v).vbe_line_offset
    else 0

unfoldable pub write_enable : ℕ → ℕ → Vga → Vga
write_enable vram_addr val v =
    let v' =
      if bits val 1 && not (bits (reg v.vbe_regs 4) 1)
      then graphics_mode (start_mode vram_addr v).vbe_line_offset (start_mode vram_addr v)
      else record v { bank_offset = 0 } in
    record v' { dac_8bit = if bits val 0x20 then 1 else 0; vbe_regs = set v'.vbe_regs 4 val }

-- `VRAM_ACTUAL_SIZE / line_offset` is a division by zero for a line of no bytes.
unfoldable pub write_virt_width : ℕ → Vga → Option Vga
write_virt_width val v =
    let line = pixel_bytes (bpp_of v) val in
    let h = vram_actual_size / line in
    if ltb val (xres_of v)
    then some v
    else if line == 0
    then none
    else if ltb h (yres_of v)
    then some v
    else some
        (record v { vbe_regs = set (set v.vbe_regs 6 val) 7 (h % 2 ^ 16); vbe_line_offset = line })

-- VBE_DISPI_INDEX_X_OFFSET and VBE_DISPI_INDEX_Y_OFFSET; `i` is the index. The start address is a
-- `uint32_t`.
unfoldable pub write_offset : ℕ → ℕ → Vga → Vga
write_offset i val v =
    let v1 = set_reg i val v in
    let start =
      (v1.vbe_line_offset * reg v1.vbe_regs 9 + pixel_bytes (bpp_of v1) (reg v1.vbe_regs 8))
      % 2 ^ 32 in
    record v1 { vbe_start_addr = start / 4 }

unfoldable pub write_index : ℕ → VbeIndex → ℕ → Vga → Option Vga
write_index vram_addr id val v = some (write_id val v)
write_index vram_addr xres val v = some (write_xres val v)
write_index vram_addr yres val v = some (write_yres val v)
write_index vram_addr bpp val v = some (write_bpp val v)
write_index vram_addr enable val v = some (write_enable vram_addr val v)
write_index vram_addr bank val v = some (write_bank val v)
write_index vram_addr virt_width val v = write_virt_width val v
write_index vram_addr x_offset val v = some (write_offset 8 val v)
write_index vram_addr y_offset val v = some (write_offset 9 val v)
write_index vram_addr virt_height val v = some v
write_index vram_addr video_memory_64k val v = some v
write_index vram_addr lfb_address_h val v = some v
write_index vram_addr lfb_address_l val v = some v
write_index vram_addr past val v = some v

unfoldable pub device_vbe_data_write : ℕ → ℕ → Vga → Option Vga
device_vbe_data_write vram_addr val v =
    let v' = record v { part1_dirty = true } in
    if leb v.vbe_index 13 then write_index vram_addr (index_of v.vbe_index) val v' else some v'

-- `device_vbe_port_readw`; `none` is also the failed `assert(false)`.
unfoldable pub device_vbe_port_readw : ℕ → Vga → Option (ℕ × Vga)
device_vbe_port_readw addr v =
    if addr == 0x1ce || addr == 0xff80
    then some (v.vbe_index, v)
    else if addr == 0x1cf || addr == 0xff81
    then (device_vbe_data_read v >>= λ x. some (x, v))
    else none

unfoldable pub device_vbe_port_writew : ℕ → ℕ → ℕ → Vga → Option Vga
device_vbe_port_writew vram_addr addr val v =
    if addr == 0x1ce || addr == 0xff80
    then some (device_vbe_index_write val v)
    else if addr == 0x1cf || addr == 0xff81
    then device_vbe_data_write vram_addr val v
    else none
