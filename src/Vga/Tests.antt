-- ===== src/Vga/Tests.antt =====
-- The device of device.c, from its reset on.
use citrix_vgpu.Prelude.{
  ℕ, ◌≡◌, ◌≢◌, ◌≤◌, ◌↔◌, refl, Bool, List, [], ◌∷◌, Option, true, false, some, none, arith,
  replicate, update, set,
}
use citrix_vgpu.Registry.{
  Hypercall, map_io, register_mapped, demu_register_port_space, demu_register_memory_space,
  demu_deregister_port_space, deregister_mapped,
}
use citrix_vgpu.Space.{demu_find_space, demu_register_space, demu_deregister_space}
use citrix_vgpu.Vga.{Vga, reg, bits}
use citrix_vgpu.Vga.Ports.{gr_mask, device_vga_port_writeb}
use citrix_vgpu.Vga.Banks.{Within}
use citrix_vgpu.Vga.Ports.Safe.{IsValid, device_vga_port_writeb-IsValid}
use citrix_vgpu.Vga.Vbe.{device_vbe_data_write, index_of, write_index, write_xres}
use citrix_vgpu.Vga.Vbe.Modes.{Shows, device_vbe_data_write-Shows}
use citrix_vgpu.Vga.Memory.{Vram, vga_offset, device_vga_memory_readb, device_vga_memory_writeb}
use citrix_vgpu.Vga.Memory.Bounds.{device_vga_memory_readb_total, device_vga_memory_writeb-none_iff}
use citrix_vgpu.Vga.Memory.Chain.{device_vga_memory_readb-device_vga_memory_writeb}
use citrix_vgpu.Vga.Reset.{
  within-Within, overwrite-Within, within, length-overwrite, device_vga_reset, device_vga_bios_init,
  overwrite, device_vga_reset-IsValid,
}
use citrix_vgpu.Vga.Reset.Register.{
  Machine, device_initialize, device_teardown, device_vga_register, with_ports, register_vbe,
  register_memory,
}
use citrix_vgpu.Vga.Reset.Register.Rollback.{
  Same, device_initialize_rolled_back, device_teardown-device_initialize,
}

-- The static state at the program's start
abbrev at_start : Vga
at_start = record {
  lfb_addr = 0;
  lfb_size = 0;
  latch = 0;
  sr_index = 0;
  sr = [];
  gr_index = 0;
  gr = [];
  ar_index = 0;
  ar = [];
  ar_flip_flop = 0;
  cr_index = 0;
  cr = [];
  msr = 0;
  fcr = 0;
  st00 = 0;
  st01 = 0;
  dac_state = 0;
  dac_sub_index = 0;
  dac_read_index = 0;
  dac_write_index = 0;
  dac_cache = [];
  dac_8bit = 0;
  palette = [];
  bank_offset = 0;
  vbe_index = 0;
  vbe_regs = [];
  vbe_start_addr = 0;
  vbe_line_offset = 0;
  vbe_bank_mask = 0;
  plane_updated = 0;
  part1_dirty = true;
  part2_dirty = true;
}

abbrev fresh : Vga
fresh = device_vga_reset at_start

fresh-IsValid : IsValid fresh
fresh-IsValid = device_vga_reset-IsValid at_start

device_vga_port_writeb-IsValid_example :
    (v' : Vga) × (device_vga_port_writeb 0x3c5 0x0f fresh ≡ some v') × IsValid v'
device_vga_port_writeb-IsValid_example =
    device_vga_port_writeb-IsValid 0x3c5 0x0f fresh (omega arith) fresh-IsValid

-- A register array that shows 640 by 480 at 32 bits, with VBE off
abbrev regs : List ℕ
regs = 0xb0c0 ∷ 640 ∷ 480 ∷ 32 ∷ replicate 9 0

regs-Shows : Shows regs
regs-Shows = record { size = refl; width = omega arith; height = omega arith; depth = omega arith }

abbrev ready : Vga
ready = record at_start { vbe_regs = regs; vbe_index = 1 }

abbrev wider : Vga
wider = record ready { part1_dirty = true; vbe_regs = set regs 1 800 }

wider_done : device_vbe_data_write 0xff000000 800 ready ≡ some wider
unfolding device_vbe_data_write write_index index_of write_xres
wider_done = refl

device_vbe_data_write-Shows_example : Shows (set regs 1 800)
device_vbe_data_write-Shows_example =
    device_vbe_data_write-Shows 0xff000000 800 ready wider regs-Shows wider_done

abbrev blank : Vram
blank = record { byte = λ a. 0; page_dirty = λ p. false }

reset_bank : fresh.bank_offset ≤ 0x3f0000
unfolding device_vga_reset device_vga_bios_init
reset_bank = omega arith

device_vga_memory_readb_total_example : device_vga_memory_readb blank 0xb8000 fresh ≢ none
device_vga_memory_readb_total_example =
    device_vga_memory_readb_total blank 0xb8000 fresh fresh-IsValid reset_bank

-- Latched access through the 64 kB window, with the bank at 1 MB
abbrev latched : List ℕ
latched = 0 ∷ 0 ∷ 0 ∷ 0 ∷ 0 ∷ 0 ∷ 4 ∷ []

abbrev banked : Vga
banked = record fresh { gr = overwrite latched (replicate 256 0); bank_offset = 0x100000 }

latched-Within : Within gr_mask banked.gr
unfolding gr_mask within
latched-Within = overwrite-Within gr_mask latched 256 (within-Within gr_mask latched refl)

banked-IsValid : IsValid banked
banked-IsValid = record {
  sized = record {
    sr_size = fresh-IsValid.sized.sr_size;
    gr_size = length-overwrite latched (replicate 256 0);
    ar_size = fresh-IsValid.sized.ar_size;
    cr_size = fresh-IsValid.sized.cr_size;
    cache_size = fresh-IsValid.sized.cache_size;
    palette_size = fresh-IsValid.sized.palette_size;
    vbe_size = fresh-IsValid.sized.vbe_size;
  };
  sr_index_in = fresh-IsValid.sr_index_in;
  gr_index_in = fresh-IsValid.gr_index_in;
  cr_index_in = fresh-IsValid.cr_index_in;
  sub_in = fresh-IsValid.sub_in;
  read_in = fresh-IsValid.read_in;
  write_in = fresh-IsValid.write_in;
  sr_within = fresh-IsValid.sr_within;
  gr_within = latched-Within;
}

banked_offset : vga_offset (reg banked.gr 6) 0x100000 0xa0010 ≡ some 0x100010
unfolding vga_offset overwrite
banked_offset = refl

banked_not_chained : bits (reg banked.sr 4) 0x08 ≡ false
unfolding device_vga_reset device_vga_bios_init overwrite
banked_not_chained = refl

banked_not_odd_even : bits (reg banked.gr 5) 0x10 ≡ false
unfolding overwrite
banked_not_odd_even = refl

device_vga_memory_writeb-none_iff_example :
    (device_vga_memory_writeb 0xa0010 7 banked blank ≡ none) ↔ (0x100000 ≤ 0x100010)
device_vga_memory_writeb-none_iff_example =
    device_vga_memory_writeb-none_iff 0xa0010 7 0x100010 banked blank banked-IsValid (omega arith)
      banked_offset banked_not_chained banked_not_odd_even

-- Chain-4 access
abbrev chained : Vga
chained = record at_start {
  sr = 0 ∷ 0 ∷ 15 ∷ 0 ∷ 8 ∷ [];
  gr = 0 ∷ 0 ∷ 0 ∷ 0 ∷ 0 ∷ 0 ∷ 4 ∷ [];
  bank_offset = 0x10000;
}

chained_offset : vga_offset 4 0x10000 0xa0010 ≡ some 0x10010
unfolding vga_offset
chained_offset = refl

device_vga_memory_readb-device_vga_memory_writeb_example :
    (v' : Vga) × (m' : Vram) × (device_vga_memory_writeb 0xa0010 7 chained blank ≡ some (v', m'))
    × (device_vga_memory_readb m' 0xa0010 v' ≡ some (7, v'))
    × (m'.byte ≡ update blank.byte 0x10010 7)
    × (m'.page_dirty ≡ update blank.page_dirty 16 true)
device_vga_memory_readb-device_vga_memory_writeb_example =
    device_vga_memory_readb-device_vga_memory_writeb 0xa0010 7 0x10010 chained blank chained_offset
      (omega arith) refl refl

abbrev machine : Machine
machine = record {
  demu = record {
    memory = [];
    port = [];
    pci_config = [];
    io_up = true;
    bus = 0;
    device = 11;
    function = 0;
    calls = [];
  };
  vga = at_start;
}

abbrev yes : ℕ → Bool
yes n = true

abbrev accepted : Hypercall → Bool
accepted c = true

-- Xen refuses the memory window.
abbrev no_memory : Hypercall → Bool
no_memory (map_io true s e) = false
no_memory _ = true

abbrev registering : (Hypercall → Bool) → Option (Machine × Bool)
registering xen = device_initialize yes xen 0xff000000 machine

abbrev left_by : Option (Machine × Bool) → Machine
left_by none = machine
left_by (some r) = r.0

refused_run : registering no_memory ≡ some (left_by (registering no_memory), false)
unfolding device_initialize device_vga_register with_ports register_vbe register_memory
    demu_register_port_space demu_register_memory_space demu_deregister_port_space register_mapped
    deregister_mapped demu_register_space demu_find_space demu_deregister_space
refused_run = refl

device_initialize_rolled_back_example : Same machine.demu (left_by (registering no_memory)).demu
device_initialize_rolled_back_example =
    device_initialize_rolled_back yes no_memory 0xff000000 machine (left_by (registering no_memory))
      refused_run

accepted_run : registering accepted ≡ some (left_by (registering accepted), true)
unfolding device_initialize device_vga_register with_ports register_vbe register_memory
    demu_register_port_space demu_register_memory_space register_mapped demu_register_space
    demu_find_space
accepted_run = refl

device_teardown-device_initialize_example :
    (m'' : Machine) × (device_teardown (left_by (registering accepted)) ≡ some m'')
    × Same machine.demu m''.demu
device_teardown-device_initialize_example =
    device_teardown-device_initialize yes accepted 0xff000000 machine
      (left_by (registering accepted)) accepted_run
