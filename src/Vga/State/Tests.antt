-- ===== src/Vga/State/Tests.antt =====
-- A device that is dumped.
use citrix_vgpu.Prelude.{◌≡◌, refl, arith, true, some, replicate, set}
use citrix_vgpu.Vga.{Vga}
use citrix_vgpu.Vga.State.{part1_record, part2_record, read_vga}
use citrix_vgpu.Vga.State.RoundTrip.{Storable, read_vga-dump_vga}

-- A device with every array of its size
abbrev pub sized_device : Vga
sized_device = record {
  lfb_addr = 0;
  lfb_size = 0;
  latch = 0x12345678;
  sr_index = 0;
  sr = replicate 256 0;
  gr_index = 0;
  gr = replicate 256 0;
  ar_index = 0;
  ar = replicate 21 0;
  ar_flip_flop = 0;
  cr_index = 0;
  cr = replicate 256 0;
  msr = 0;
  fcr = 0;
  st00 = 0;
  st01 = 0;
  dac_state = 0;
  dac_sub_index = 0;
  dac_read_index = 0;
  dac_write_index = 0;
  dac_cache = replicate 3 0;
  dac_8bit = 0;
  palette = replicate 768 0;
  bank_offset = 0;
  vbe_index = 0;
  vbe_regs = replicate 13 0;
  vbe_start_addr = 4096;
  vbe_line_offset = 0;
  vbe_bank_mask = 0;
  plane_updated = 0;
  part1_dirty = true;
  part2_dirty = true;
}

-- A device that differs from it
abbrev pub other : Vga
other = record sized_device { msr = 0x67; palette = set (replicate 768 0) 5 63 }

pub other-Storable : Storable other
other-Storable = record {
  sized = record {
    sr_size = refl;
    gr_size = refl;
    ar_size = refl;
    cr_size = refl;
    cache_size = refl;
    palette_size = refl;
    vbe_size = refl;
  };
  latch_in = omega arith;
  flip_flop_in = omega arith;
  bank_in = omega arith;
  index_in = omega arith;
  regs_in = omega arith;
  start_in = omega arith;
  line_in = omega arith;
  mask_in = omega arith;
}

read_vga-dump_vga_example :
    (read_vga (part1_record other) sized_device
      ≡ some (record sized_device { msr = 0x67; part1_dirty = true }))
    × (read_vga (part2_record other) sized_device
        ≡ some (record sized_device { palette = set (replicate 768 0) 5 63; part2_dirty = true }))
read_vga-dump_vga_example = read_vga-dump_vga other sized_device other-Storable
