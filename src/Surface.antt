-- ===== src/Surface.antt =====
-- The drawing decisions of surface.c: what is shown, which lines of a frame are drawn again, and
-- which rectangles are reported to the console.
--
-- The registers are those of Vga, whose indices here are constants inside the banks. What
-- `vga_draw_line` writes to the picture is left out: an event says that it is called. `surface_draw_text`
-- is a parameter of `surface_refresh`.
pub mod Palette
pub mod Lines
pub mod Draw
mod Tests
use citrix_vgpu.Prelude.{
  ℕ, ◌+◌, ◌*◌, ◌/◌, ◌%◌, ◌^◌, ◌==◌, ◌||◌, not, Bool, true, false, Option, none, some, bit_and,
  bit_or, if◌then◌else◌,
}
use citrix_vgpu.Vga.{Vga, reg, bits}

-- `surface_t`, without what belongs to text mode, and `shared_surface_t`
pub record Surface : Type 0 where
  pub offset : ℕ
  pub graphic_mode : Option ℕ  -- `none` is -1
  pub shift_control : ℕ
  pub double_scan : ℕ
  pub line_offset : ℕ
  pub line_compare : ℕ
  pub start_addr : ℕ
  pub bits_per_pixel : ℕ
  pub bytes_per_pixel : ℕ
  pub linesize : ℕ
  pub last_line_offset : ℕ
  pub last_width : ℕ
  pub last_height : ℕ
  pub last_scr_width : ℕ
  pub last_scr_height : ℕ
  pub last_depth : ℕ
  pub last_palette : ℕ → ℕ
  pub shared_offset : ℕ
  pub shared_linesize : ℕ
  pub shared_width : ℕ
  pub shared_height : ℕ
  pub shared_depth : ℕ
  pub shared_update : ℕ  -- uint32_t

-- `get_vbe_regs(s, VBE_DISPI_INDEX_ENABLE) & VBE_DISPI_ENABLED`
abbrev pub vbe_enabled : Vga → Bool
vbe_enabled v = bits (reg v.vbe_regs 4) 1

-- Line offset, start address, line compare
unfoldable pub get_offsets : Vga → ℕ × ℕ × ℕ
get_offsets v = if vbe_enabled v then (v.vbe_line_offset, v.vbe_start_addr, 65535) else (
  reg v.cr 0x13 * 2 ^ 3,
  bit_or (reg v.cr 0x0d) (reg v.cr 0x0c * 2 ^ 8),
  bit_or (bit_or (reg v.cr 0x18) (bit_and (reg v.cr 0x07) 0x10 * 2 ^ 4))
      (bit_and (reg v.cr 0x09) 0x40 * 2 ^ 3),
)

unfoldable pub get_bpp : Vga → ℕ
get_bpp v = if vbe_enabled v then reg v.vbe_regs 3 else 0

-- Width and height
unfoldable pub get_resolution : Vga → ℕ × ℕ
get_resolution v = if vbe_enabled v then (reg v.vbe_regs 1, reg v.vbe_regs 2) else (
  (reg v.cr 0x01 + 1) * 8,
  bit_or (bit_or (reg v.cr 0x12) (bit_and (reg v.cr 0x07) 0x02 * 2 ^ 7))
        (bit_and (reg v.cr 0x07) 0x40 * 2 ^ 3)
      + 1,
)

-- Whether one of the three has changed
unfoldable pub update_basic_params : Vga → Surface → Bool × Surface
unfolding get_offsets
update_basic_params v s =
    let (line_offset, start_addr, line_compare) = get_offsets v in
    if not (line_offset == s.line_offset)
      || (not (start_addr == s.start_addr) || not (line_compare == s.line_compare))
    then (
      true,
      record s { line_offset = line_offset; start_addr = start_addr; line_compare = line_compare },
    )
    else (false, s)

unfoldable pub surface_resize : ℕ → ℕ → ℕ → ℕ → ℕ → Surface → Surface
surface_resize offset linesize width height depth s = record s {
  bits_per_pixel = depth;
  bytes_per_pixel = (depth + 7) / 8 * 8 / 8;
  linesize = linesize;
  offset = offset;
  last_scr_width = width;
  last_scr_height = height;
  shared_offset = offset;
  shared_linesize = linesize;
  shared_width = width;
  shared_height = height;
  shared_depth = depth;
}

-- The rectangle that is passed is not used.
unfoldable pub surface_update : Surface → Surface
surface_update s = record s { shared_update = (s.shared_update + 1) % 2 ^ 32 }

abbrev pub surface_get_dimensions : Surface → ℕ × ℕ × ℕ
surface_get_dimensions s = (s.last_scr_width, s.last_scr_height, s.bits_per_pixel)

unfoldable pub get_depth_index : Surface → ℕ
get_depth_index s =
    if s.bits_per_pixel == 15
    then 1
    else if s.bits_per_pixel == 16
    then 2
    else if s.bits_per_pixel == 32
    then 3
    else 0
