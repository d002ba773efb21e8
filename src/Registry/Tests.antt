-- ===== src/Registry/Tests.antt =====
-- The register and deregister functions on a state with one port space and I/O up.
use citrix_vgpu.Prelude.{ℕ, ◌≡◌, refl, Bool, [], ◌∷◌, true, false, some}
use citrix_vgpu.Space.{Space, demu_find_space, demu_register_space, demu_deregister_space}
use citrix_vgpu.Registry.{
  Demu, Hypercall, map_io, map_pcidev, register_mapped, demu_register_port_space,
  demu_register_memory_space, demu_register_pci_config_space,
}

abbrev low : Space ℕ
low = record { start = 0x3b4; end = 0x3b5; ops = 1; io_init = true }

abbrev start_state : Demu ℕ
start_state = record {
  memory = [];
  port = low ∷ [];
  pci_config = [];
  io_up = true;
  bus = 1;
  device = 11;
  function = 0;
  calls = [];
}

abbrev yes : ℕ → Bool
yes n = true

abbrev accepted : Hypercall → Bool
accepted c = true

abbrev refused : Hypercall → Bool
refused c = false

abbrev ports : Space ℕ
ports = record { start = 0x3c0; end = 0x3cf; ops = 2; io_init = true }

abbrev window : Space ℕ
window = record { start = 0xa0000; end = 0xbffff; ops = 2; io_init = true }

abbrev config : Space ℕ
config = record { start = 344; end = 344; ops = 2; io_init = true }

abbrev with_ports : Demu ℕ
with_ports = record start_state { port = ports ∷ low ∷ []; calls = map_io false 0x3c0 0x3cf ∷ [] }

abbrev with_window : Demu ℕ
with_window = record start_state { memory = window ∷ []; calls = map_io true 0xa0000 0xbffff ∷ [] }

abbrev with_config : Demu ℕ
with_config = record start_state { pci_config = config ∷ []; calls = map_pcidev 1 11 0 ∷ [] }

ports_done : demu_register_port_space yes accepted 0x3c0 16 2 start_state ≡ some (with_ports, true)
unfolding demu_register_port_space register_mapped demu_register_space demu_find_space
ports_done = refl

window_done :
    demu_register_memory_space yes accepted 0xa0000 0x20000 2 start_state ≡ some (with_window, true)
unfolding demu_register_memory_space register_mapped demu_register_space demu_find_space
window_done = refl

config_done : demu_register_pci_config_space yes accepted 2 start_state ≡ some (with_config, true)
unfolding demu_register_pci_config_space register_mapped demu_register_space demu_find_space
config_done = refl

abbrev after_refusal : Demu ℕ
after_refusal = record start_state { calls = map_io false 0x3c0 0x3cf ∷ [] }

ports_refused :
    demu_register_port_space yes refused 0x3c0 16 2 start_state ≡ some (after_refusal, false)
unfolding demu_register_port_space register_mapped demu_register_space demu_find_space
    demu_deregister_space
ports_refused = refl
