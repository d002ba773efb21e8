-- ===== src/Startup/Tests.antt =====
-- Start-ups of a daemon with two VCPUs.
use citrix_vgpu.Prelude.{if◌then◌else◌, ◌==◌, ◌+◌, ◌≡◌, refl, true, false, some, none, [], ◌∷◌}
use citrix_vgpu.Statefile.{Mode, Resuming}
use citrix_vgpu.Startup.{
  bind_port, bind_ports, alloc_ports, await_pages, demu_seq_next, and_then, ◌>>◌, init_io, Daemon,
  Answers, success, demu_initialize, demu_teardown, bound,
}
use citrix_vgpu.Startup.Balance.{copies}
use citrix_vgpu.Startup.Tidy.{demu_teardown-demu_initialize}

-- The static state at the program's start
abbrev at_start : Daemon
at_start = record {
  seq = 0;
  ports = [];
  buf_port = 0;
  pid_key = false;
  vram_key = false;
  statefile = record {
    mode = Mode.not_ready;
    fd = none;
    offset = none;
    migrate_abort = false;
    resuming = Resuming.not_resuming;
    state_dirty = true;
    vga_dirty = true;
    closed_fds = [];
  };
  held = [];
  mismatches = 0;
}

-- Xen has no pages at first, and the second VCPU's port is refused.
abbrev one_port : Answers
one_port = record {
  xs_open = true;
  write_pid = true;
  xc_open = true;
  domain_info = true;
  env_init = true;
  vga_init = true;
  register_plugin = true;
  search_path = true;
  configuration = true;
  resuming = false;
  get_state = false;
  pages = some 0 ∷ some 8 ∷ [];
  create_server = true;
  server_info = true;
  map_shared = true;
  map_buffered = true;
  set_state = true;
  malloc_ports = true;
  evtchn_open = true;
  bind = λ i. if i == 0 then some 30 else none;
  bind_buffered = some 31;
  enable = true;
  map_vram = true;
  create_socket = true;
  init_surface = true;
  write_vram = true;
}

abbrev both_ports : Answers
both_ports = record one_port { bind = λ i. some (30 + i) }

demu_teardown-demu_initialize_example :
    copies (bound 31) (demu_teardown (demu_initialize one_port 2 at_start).0).1
    ≡ copies (bound 31) (demu_initialize one_port 2 at_start).0.held
demu_teardown-demu_initialize_example =
    demu_teardown-demu_initialize one_port 2 30 31 at_start (bound 31) refl refl refl refl refl

-- The whole start-up succeeds.
both_ports-success : (demu_initialize both_ports 2 at_start).1 ≡ success
unfolding demu_initialize init_io ◌>>◌ and_then demu_seq_next await_pages alloc_ports bind_ports
    bind_port
both_ports-success = refl
