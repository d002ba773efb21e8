-- ===== src/Env/Tests.antt =====
-- The environment at concrete states.
use citrix_vgpu.Prelude.{
  ◌+◌, update, ℕ, ◌≡◌, ◌≢◌, ◌↔◌, ◌==◌, refl, arith, Bool, true, false, some, none, [], ◌∷◌,
  if◌then◌else◌,
}
use citrix_vgpu.Registry.{
  map_io, unmap_io, deregister_mapped, register_mapped, unmap_pcidev, map_pcidev, Demu, Hypercall,
  demu_register_pci_config_space, demu_register_port_space, demu_deregister_port_space,
  demu_find_port_space,
}
use citrix_vgpu.Space.{demu_find_space, demu_register_space, demu_deregister_space}
use citrix_vgpu.Env.{success, handle_null}
use citrix_vgpu.Env.Links.Remove.{erase}
use citrix_vgpu.Env.Devices.{Devices, register_emul_device}
use citrix_vgpu.Env.Devices.Lists.{WellLinked}
use citrix_vgpu.Env.Devices.Register.{register_emul_device_refused}
use citrix_vgpu.Env.Monitor.{leave_monitor, reenter, enter_monitor, is_mine}
use citrix_vgpu.Env.Monitor.Threads.{
  Run, Reach, outside, locked, marked, inside, lock, set_holder, set_held, here, next, go,
  monitor_told,
}
use citrix_vgpu.Io.{demu_io_read, io_read_loop}
use citrix_vgpu.Env.Access.{Region, World, space_io, space_mmio, mmio_ops, mmio_read, call_outside}
use citrix_vgpu.Env.Access.Laws.{IsPolite, mmio_ops-read}
use citrix_vgpu.Env.Regions.{
  enable_at, disable_guest_region, move_region, Regions, relocate_guest_region,
}
use citrix_vgpu.Env.Regions.Moved.{relocate_guest_region_moved}
use citrix_vgpu.Env.Tables.{
  index_to_object, first_free, take_slot, Table, allocate_table_element, handle_to_object,
}
use citrix_vgpu.Env.Tables.Fresh.{Bases, allocate_table_element_fresh}
use citrix_vgpu.Env.Tables.Unissued.{region_is_free, region_table_unissued}
use citrix_vgpu.Env.Pages.{page_number_null, unpin_guest_pages}
use citrix_vgpu.Env.Pages.Chunks.{AllFit, join, pinned, unpin_guest_pages_released}

-- A daemon with I/O up and one port space, a device whose entry is at 5, and no free entry.
abbrev ports : Demu ℕ
ports = record {
  memory = [];
  port = record { start = 0x3c0; end = 0x3cf; ops = 7; io_init = true } ∷ [];
  pci_config = [];
  io_up = true;
  bus = 1;
  device = 11;
  function = 0;
  calls = [];
}

abbrev one_device : Devices ℕ
one_device = record {
  emul_device_list = some 5;
  free_emul_device_list = none;
  links = record { next = λ a. none; prev = λ a. none };
  device = λ a. record { private_object = 1; callback = some 2; object_label = some 3; handle = 1 };
  next_handle = 2;
  demu = ports;
}

abbrev yes : ℕ → Bool
yes n = true

abbrev accepted : Hypercall → Bool
accepted c = true

abbrev refused : Hypercall → Bool
refused c = false

abbrev with_config : Demu ℕ
with_config = record ports {
  pci_config = record { start = 344; end = 344; ops = 9; io_init = true } ∷ [];
  calls = map_pcidev 1 11 0 ∷ [];
}

abbrev without_config : Demu ℕ
without_config = record ports { calls = unmap_pcidev 1 11 0 ∷ map_pcidev 1 11 0 ∷ [] }

abbrev after_refusal : Demu ℕ
after_refusal = record ports { calls = map_pcidev 1 11 0 ∷ [] }

config_refused : demu_register_pci_config_space yes refused 9 ports ≡ some (after_refusal, false)
unfolding demu_register_pci_config_space register_mapped demu_register_space demu_find_space
    demu_deregister_space
config_refused = refl

one_linked : WellLinked one_device (5 ∷ []) []
one_linked = ((refl, refl, refl, refl), refl, λ a e. refl)

register_emul_device_refused_example :
    (d : Devices ℕ) × (register_emul_device yes refused
        (some 9)
        40
        (some 41)
        (some 42)
        true
        one_device
      ≡ some (success, some handle_null, d))
    × WellLinked d (5 ∷ []) (9 ∷ erase 9 [])
register_emul_device_refused_example =
    register_emul_device_refused yes refused (some 9) 9 40 42 41 one_device (5 ∷ []) [] one_linked
      refl refl (omega arith) (omega arith) after_refusal config_refused

-- Thread 1 enters the monitor.
abbrev idle : Run
idle = record { monitor = record { lock = none; held = false; holder = 0 }; place = λ t. outside }

abbrev has_lock : Run
has_lock = go 1 locked (record idle { monitor = record idle.monitor { lock = some 1 } })

abbrev has_holder : Run
has_holder = go 1 marked (record has_lock { monitor = record has_lock.monitor { holder = 1 } })

abbrev entered : Run
entered = go 1 inside (record has_holder { monitor = record has_holder.monitor { held = true } })

entering : Reach idle entered
entering =
    next (next (next here (lock 1 idle refl refl)) (set_holder 1 has_lock refl))
      (set_held 1 has_holder refl)

monitor_told_example :
    ((entered.place 1 ≢ outside) ↔ (entered.monitor.lock ≡ some 1))
    × ((is_mine 1 entered.monitor ≡ true) ↔ (entered.place 1 ≡ inside))
monitor_told_example = monitor_told 1 ((λ t. refl), refl, refl) entering

-- A region of 16 ports at 0x3c0
abbrev one_region : Regions ℕ
one_region = record {
  region = λ x. record {
    address_space = space_io;
    range_base = 0x3c0;
    range_length = 16;
    callback = none;
    private_object = 0;
  };
  demu = ports;
}

abbrev no_ports : Demu ℕ
no_ports = record ports { port = []; calls = unmap_io false 0x3c0 0x3cf ∷ [] }

ports_gone : demu_deregister_port_space 0x3c0 ports ≡ some no_ports
unfolding demu_deregister_port_space deregister_mapped demu_find_space demu_deregister_space
ports_gone = refl

abbrev moved : Regions ℕ
moved = record {
  region = update one_region.region 7 (record (one_region.region 7) { range_base = 0x500 });
  demu = record ports {
    port = record { start = 0x500; end = 0x50f; ops = 7; io_init = true } ∷ [];
    calls = map_io false 0x500 0x50f ∷ unmap_io false 0x3c0 0x3cf ∷ [];
  };
}

moved_done :
    relocate_guest_region yes accepted false (some 7) 0x500 one_region ≡ some (success, moved)
unfolding relocate_guest_region move_region disable_guest_region enable_at
    demu_deregister_port_space deregister_mapped demu_find_space demu_deregister_space
    demu_register_port_space register_mapped demu_register_space
moved_done = refl

relocate_guest_region_moved_example :
    ((moved.region 7).range_base ≡ 0x500)
    × (demu_find_port_space moved.demu 0x505
        ≡ some (record { start = 0x500; end = 0x50f; ops = 7; io_init = true }))
relocate_guest_region_moved_example =
    relocate_guest_region_moved yes accepted 7 0x500 0x505 one_region moved no_ports refl
      (λ e. absurd (omega (arith, e))) (λ e. absurd (omega (arith, e)))
      (λ e. absurd (omega (arith, e))) ports_gone moved_done

-- A table whose objects are free when 0, with one block whose first object is in use.
abbrev is_zero : ℕ → Bool
is_zero e = e == 0

abbrev one_used : Table ℕ
one_used = record {
  blocks = record { base_handle = 0; addr = 0x1000; slots = λ i. if i == 0 then 1 else 0 } ∷ [];
  table_limit = 128;
}

abbrev after_use : Table ℕ
after_use = record {
  blocks =
      record { base_handle = 0; addr = 0x1000; slots = update (λ i. if i == 0 then 1 else 0) 1 0 }
      ∷ [];
  table_limit = 128;
}

use_done :
    allocate_table_element 24 is_zero 0 (some 0x9000) one_used
    ≡ (success, 2, some 0x1018, after_use)
unfolding allocate_table_element take_slot first_free index_to_object
use_done = refl

allocate_table_element_fresh_example :
    (2 ≢ handle_null)
    × (handle_to_object 24 is_zero 2 one_used ≡ none)
    × Bases 0 after_use.blocks after_use.table_limit
    × (handle_to_object 24 is_zero 1 after_use ≡ handle_to_object 24 is_zero 1 one_used)
allocate_table_element_fresh_example =
    allocate_table_element_fresh 24 is_zero 0 (some 0x9000) one_used after_use 2 1 (some 0x1018)
      refl (refl, refl) (omega arith) use_done

region_table_unissued_example :
    (t : Table ℕ) × (allocate_table_element 24 (region_is_free 24 0) 0 (some 0x9000) one_used
      ≡ (success, 129, some 0x9000, t))
    × (t.table_limit ≡ 256)
    × (handle_to_object 24 (region_is_free 24 0) 132 t ≡ some 0x9048)
region_table_unissued_example =
    region_table_unissued 24 0 0x9000 3 one_used (refl, refl) (omega arith) (omega arith)

unpin_guest_pages_released_example :
    AllFit (unpin_guest_pages true true (λ l. true) (3 ∷ page_number_null ∷ 5 ∷ [])).1
    × (join (unpin_guest_pages true true (λ l. true) (3 ∷ page_number_null ∷ 5 ∷ [])).1
        ≡ pinned (3 ∷ page_number_null ∷ 5 ∷ []))
    × (pinned (unpin_guest_pages true true (λ l. true) (3 ∷ page_number_null ∷ 5 ∷ [])).2 ≡ [])
unpin_guest_pages_released_example =
    unpin_guest_pages_released (λ l. true) (3 ∷ page_number_null ∷ 5 ∷ [])

-- A region whose callback gives 7 and counts its calls, read by thread 1 from inside the monitor
abbrev sevens : Region ℕ
sevens = record {
  address_space = space_mmio;
  range_base = 0xf0000000;
  range_length = 0x1000;
  callback = some (λ object op space offset len buffer w.
      some (success, 7, record w { plugin = w.plugin + 1 }));
  private_object = 0;
}

abbrev inside_monitor : World ℕ
inside_monitor = record { monitor = record { lock = some 1; held = true; holder = 1 }; plugin = 0 }

abbrev read_twice : World ℕ
read_twice = record inside_monitor { plugin = 2 }

sevens-IsPolite : IsPolite sevens.callback
sevens-IsPolite object op space a len v w w' e u h = ground arith

sevens_read :
    demu_io_read (mmio_ops sevens 1 0) 0x100 8 inside_monitor ≡ some (0x700000007, read_twice)
unfolding demu_io_read io_read_loop mmio_ops mmio_read call_outside leave_monitor reenter
    enter_monitor
sevens_read = refl

mmio_ops-read_example : read_twice.monitor ≡ inside_monitor.monitor
mmio_ops-read_example =
    mmio_ops-read 0x100 8 1 0 0x700000007 sevens inside_monitor read_twice sevens-IsPolite refl
      sevens_read
