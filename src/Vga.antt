-- ===== src/Vga.antt =====
-- The VGA device of device.c: the `vga_t` of `device_state`, the two dirty flags, and the register
-- constants of vga.h.
--
-- A register bank is a list of bytes; `get` and `put` are an array access, which gives `none` past
-- the array's end: in C that is undefined behaviour.
pub mod Ports
pub mod Banks
pub mod Vbe
pub mod Memory
pub mod Reset
pub mod State
mod Tests
use citrix_vgpu.Prelude.{
  ◌-◌, ℕ, suc, ◌+◌, ◌*◌, ◌/◌, ◌%◌, ◌^◌, ◌≤◌, ◌<◌, ◌≡◌, Bool, true, false, Option, none, some, List,
  [], ◌∷◌, bit_and, bit_or, ltb, if◌then◌else◌, length, get_or, set, replicate,
}

pub record Vga : Type 0 where
  pub lfb_addr : ℕ
  pub lfb_size : ℕ
  pub latch : ℕ  -- uint32_t
  pub sr_index : ℕ
  pub sr : List ℕ  -- 256 bytes
  pub gr_index : ℕ
  pub gr : List ℕ  -- 256 bytes
  pub ar_index : ℕ
  pub ar : List ℕ  -- 21 bytes
  pub ar_flip_flop : ℕ
  pub cr_index : ℕ
  pub cr : List ℕ  -- 256 bytes
  pub msr : ℕ
  pub fcr : ℕ
  pub st00 : ℕ
  pub st01 : ℕ
  pub dac_state : ℕ
  pub dac_sub_index : ℕ
  pub dac_read_index : ℕ
  pub dac_write_index : ℕ
  pub dac_cache : List ℕ  -- 3 bytes
  pub dac_8bit : ℕ
  pub palette : List ℕ  -- 768 bytes
  pub bank_offset : ℕ
  pub vbe_index : ℕ  -- uint16_t
  pub vbe_regs : List ℕ  -- VBE_DISPI_INDEX_NB words
  pub vbe_start_addr : ℕ
  pub vbe_line_offset : ℕ
  pub vbe_bank_mask : ℕ
  pub plane_updated : ℕ
  pub part1_dirty : Bool  -- `vga_part1_dirty`
  pub part2_dirty : Bool  -- `vga_part2_dirty`

-- `bank[i]`
abbrev pub get : List ℕ → ℕ → Option ℕ
get bank i = if ltb i (length bank) then some (get_or bank i 0) else none

-- `bank[i] = v`
abbrev pub put : List ℕ → ℕ → ℕ → Option (List ℕ)
put bank i v = if ltb i (length bank) then some (set bank i v) else none

-- A register by a constant index, inside its bank.
abbrev pub reg : List ℕ → ℕ → ℕ
reg bank i = get_or bank i 0

-- `x & m` is not 0.
abbrev pub bits : ℕ → ℕ → Bool
bits x m = ltb 0 (bit_and x m)

-- `x & ~m` of a byte, where `m` is one.
abbrev pub clear : ℕ → ℕ → ℕ
clear x m = bit_and x (255 - m)

-- The sizes of the arrays.
pub record Sized (v : Vga) : Type 0 where
  pub sr_size : length v.sr ≡ 256
  pub gr_size : length v.gr ≡ 256
  pub ar_size : length v.ar ≡ 21
  pub cr_size : length v.cr ≡ 256
  pub cache_size : length v.dac_cache ≡ 3
  pub palette_size : length v.palette ≡ 768
  pub vbe_size : length v.vbe_regs ≡ 13

unfoldable pub vga_markdirty : Vga → Vga
vga_markdirty v = record v { part1_dirty = true; part2_dirty = true }
