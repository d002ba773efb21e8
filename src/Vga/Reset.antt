-- ===== src/Vga/Reset.antt =====
-- `device_vga_bios_init` and `device_vga_reset` of device.c, and the state that they leave.
pub mod Register
use citrix_vgpu.Prelude.{
  ◌&&◌, leb, length-set, Bool, ap, ℕ, zero, suc, ◌+◌, ◌-◌, ◌≡◌, ◌≤◌, ◌<◌, List, [], ◌∷◌, replicate,
  arith, refl, set, length, true, get_or,
}
use citrix_vgpu.Vga.{Vga, Sized, reg}
use citrix_vgpu.Vga.Banks.{Within}
use citrix_vgpu.Vga.Ports.{sr_mask, gr_mask}
use citrix_vgpu.Vga.Ports.Safe.{IsValid}

-- The bytes `new`, written over the start of an array
unfoldable pub overwrite : List ℕ → List ℕ → List ℕ
overwrite [] l = l
overwrite (x ∷ new) [] = []
overwrite (x ∷ new) (y ∷ l) = x ∷ overwrite new l

-- `palette_model`
abbrev pub palette_model : List ℕ
palette_model =
    0 ∷ 0 ∷ 0 ∷ 0 ∷ 0 ∷ 170 ∷ 0 ∷ 170 ∷ 0 ∷ 0 ∷ 170 ∷ 170 ∷ 170 ∷ 0 ∷ 0 ∷ 170 ∷ 0 ∷ 170 ∷ 170 ∷ 85
    ∷ 0 ∷ 170 ∷ 170 ∷ 170 ∷ 85 ∷ 85 ∷ 85 ∷ 85 ∷ 85 ∷ 255 ∷ 85 ∷ 255 ∷ 85 ∷ 85 ∷ 255 ∷ 255 ∷ 255 ∷ 85
    ∷ 85 ∷ 255 ∷ 85 ∷ 255 ∷ 255 ∷ 255 ∷ 85 ∷ 255 ∷ 255 ∷ 255 ∷ 0 ∷ 21 ∷ 0 ∷ 0 ∷ 21 ∷ 42 ∷ 0 ∷ 63 ∷ 0
    ∷ 0 ∷ 63 ∷ 42 ∷ 42 ∷ 21 ∷ 0 ∷ 42 ∷ 21 ∷ 42 ∷ 42 ∷ 63 ∷ 0 ∷ 42 ∷ 63 ∷ 42 ∷ 0 ∷ 21 ∷ 21 ∷ 0 ∷ 21
    ∷ 63 ∷ 0 ∷ 63 ∷ 21 ∷ 0 ∷ 63 ∷ 63 ∷ 42 ∷ 21 ∷ 21 ∷ 42 ∷ 21 ∷ 63 ∷ 42 ∷ 63 ∷ 21 ∷ 42 ∷ 63 ∷ 63
    ∷ 21 ∷ 0 ∷ 0 ∷ 21 ∷ 0 ∷ 42 ∷ 21 ∷ 42 ∷ 0 ∷ 21 ∷ 42 ∷ 42 ∷ 63 ∷ 0 ∷ 0 ∷ 63 ∷ 0 ∷ 42 ∷ 63 ∷ 42 ∷ 0
    ∷ 63 ∷ 42 ∷ 42 ∷ 21 ∷ 0 ∷ 21 ∷ 21 ∷ 0 ∷ 63 ∷ 21 ∷ 42 ∷ 21 ∷ 21 ∷ 42 ∷ 63 ∷ 63 ∷ 0 ∷ 21 ∷ 63 ∷ 0
    ∷ 63 ∷ 63 ∷ 42 ∷ 21 ∷ 63 ∷ 42 ∷ 63 ∷ 21 ∷ 21 ∷ 0 ∷ 21 ∷ 21 ∷ 42 ∷ 21 ∷ 63 ∷ 0 ∷ 21 ∷ 63 ∷ 42
    ∷ 63 ∷ 21 ∷ 0 ∷ 63 ∷ 21 ∷ 42 ∷ 63 ∷ 63 ∷ 0 ∷ 63 ∷ 63 ∷ 42 ∷ 21 ∷ 21 ∷ 21 ∷ 21 ∷ 21 ∷ 63 ∷ 21
    ∷ 63 ∷ 21 ∷ 21 ∷ 63 ∷ 63 ∷ 63 ∷ 21 ∷ 21 ∷ 63 ∷ 21 ∷ 63 ∷ 63 ∷ 63 ∷ 21 ∷ 63 ∷ 63 ∷ 63 ∷ []

abbrev pub bios_sr : List ℕ
bios_sr = 3 ∷ 0 ∷ 3 ∷ 0 ∷ 2 ∷ 0 ∷ 0 ∷ 0 ∷ []

abbrev pub bios_gr : List ℕ
bios_gr = 0 ∷ 0 ∷ 0 ∷ 0 ∷ 0 ∷ 16 ∷ 14 ∷ 15 ∷ 255 ∷ []

abbrev pub bios_ar : List ℕ
bios_ar =
    0 ∷ 1 ∷ 2 ∷ 3 ∷ 4 ∷ 5 ∷ 6 ∷ 7 ∷ 8 ∷ 9 ∷ 10 ∷ 11 ∷ 12 ∷ 13 ∷ 14 ∷ 15 ∷ 12 ∷ 0 ∷ 15 ∷ 8 ∷ 0 ∷ []

abbrev pub bios_cr : List ℕ
bios_cr =
    95 ∷ 79 ∷ 80 ∷ 130 ∷ 85 ∷ 129 ∷ 191 ∷ 31 ∷ 0 ∷ 79 ∷ 14 ∷ 15 ∷ 0 ∷ 0 ∷ 5 ∷ 160 ∷ 156 ∷ 142 ∷ 143
    ∷ 40 ∷ 31 ∷ 150 ∷ 185 ∷ 163 ∷ 255 ∷ []

unfoldable pub device_vga_bios_init : Vga → Vga
device_vga_bios_init v = record v {
  latch = 0;
  sr_index = 3;
  sr = overwrite bios_sr v.sr;
  gr_index = 5;
  gr = overwrite bios_gr v.gr;
  ar_index = 32;
  ar = overwrite bios_ar v.ar;
  ar_flip_flop = 1;
  cr_index = 15;
  cr = overwrite bios_cr v.cr;
  msr = 103;
  fcr = 0;
  st00 = 0;
  st01 = 0;
  dac_state = 0;
  dac_sub_index = 0;
  dac_read_index = 0;
  dac_write_index = 16;
  dac_cache = overwrite (255 ∷ 255 ∷ 255 ∷ []) v.dac_cache;
  palette = overwrite palette_model v.palette;
  bank_offset = 0;
  part1_dirty = true;
  part2_dirty = true;
}

-- VBE_DISPI_ID0
abbrev pub id0 : ℕ
id0 = 0xb0c0

-- `(VRAM_ACTUAL_SIZE >> 16) - 1`
abbrev pub reset_bank_mask : ℕ
reset_bank_mask = 63

unfoldable pub device_vga_reset : Vga → Vga
device_vga_reset v =
    let v1 = device_vga_bios_init (record v {
      lfb_addr = 0;
      lfb_size = 0;
      sr_index = 0;
      sr = replicate 256 0;
      gr_index = 0;
      gr = replicate 256 0;
      ar_index = 0;
      ar = replicate 21 0;
      ar_flip_flop = 0;
      cr_index = 0;
      cr = replicate 256 0;
      msr = 0;
      fcr = 0;
      st00 = 0;
      st01 = 0;
      dac_state = 0;
      dac_sub_index = 0;
      dac_read_index = 0;
      dac_write_index = 0;
      dac_cache = replicate 3 0;
      dac_8bit = 0;
      palette = replicate 768 0;
      bank_offset = 0;
      vbe_index = 0;
      vbe_regs = set (replicate 13 0) 0 id0;
      vbe_start_addr = 0;
      vbe_line_offset = 0;
      vbe_bank_mask = reset_bank_mask;
      plane_updated = 0;
    }) in
    record v1 { part1_dirty = true; part2_dirty = true }

pub length-overwrite : (new l : List ℕ) → length (overwrite new l) ≡ length l
unfolding overwrite
length-overwrite [] l = refl
length-overwrite (x ∷ new) [] = refl
length-overwrite (x ∷ new) (y ∷ l) = ap suc (length-overwrite new l)

zeros_small : (n i b : ℕ) → get_or (replicate n 0) i 0 ≤ b
zeros_small zero i b = omega arith
zeros_small (suc n) zero b = omega arith
zeros_small (suc n) (suc i) b = zeros_small n i b

-- Each byte written at the start is within its mask, and the array behind is zero.
pub overwrite-Within :
    (masks new : List ℕ) (n : ℕ) → Within masks new → Within masks (overwrite new (replicate n 0))
unfolding overwrite
overwrite-Within masks [] n w j = zeros_small n j (get_or masks j 255)
overwrite-Within masks (x ∷ new) zero w j = omega arith
overwrite-Within [] (x ∷ new) (suc n) w zero = w 0
overwrite-Within [] (x ∷ new) (suc n) w (suc j) = overwrite-Within [] new n (λ i. w (suc i)) j
overwrite-Within (m ∷ masks) (x ∷ new) (suc n) w zero = w 0
overwrite-Within (m ∷ masks) (x ∷ new) (suc n) w (suc j) =
    overwrite-Within masks new n (λ i. w (suc i)) j

-- `Within` of a list, as a test
unfoldable pub within : List ℕ → List ℕ → Bool
within masks [] = true
within [] (x ∷ l) = leb x 255 && within [] l
within (m ∷ masks) (x ∷ l) = leb x m && within masks l

pub within-Within : (masks l : List ℕ) → within masks l ≡ true → Within masks l
unfolding within
within-Within masks [] h j = omega arith
within-Within [] (x ∷ l) h zero = ground arith
within-Within [] (x ∷ l) h (suc j) = within-Within [] l (ground arith) j
within-Within (m ∷ masks) (x ∷ l) h zero = ground arith
within-Within (m ∷ masks) (x ∷ l) h (suc j) = within-Within masks l (ground arith) j

-- From any state, `device_vga_reset` leaves a valid one: the arrays have their sizes, the index
-- registers are in range, and the masked registers are within their masks.
pub device_vga_reset-IsValid : (v : Vga) → IsValid (device_vga_reset v)
unfolding device_vga_reset device_vga_bios_init sr_mask gr_mask within
device_vga_reset-IsValid v = record {
  sized = record {
    sr_size = length-overwrite bios_sr (replicate 256 0);
    gr_size = length-overwrite bios_gr (replicate 256 0);
    ar_size = length-overwrite bios_ar (replicate 21 0);
    cr_size = length-overwrite bios_cr (replicate 256 0);
    cache_size = length-overwrite (255 ∷ 255 ∷ 255 ∷ []) (replicate 3 0);
    palette_size = length-overwrite palette_model (replicate 768 0);
    vbe_size = length-set (replicate 13 0) 0 id0;
  };
  sr_index_in = omega arith;
  gr_index_in = omega arith;
  cr_index_in = omega arith;
  sub_in = omega arith;
  read_in = omega arith;
  write_in = omega arith;
  sr_within = overwrite-Within sr_mask bios_sr 256 (within-Within sr_mask bios_sr refl);
  gr_within = overwrite-Within gr_mask bios_gr 256 (within-Within gr_mask bios_gr refl);
}
