-- ===== src/Startup.antt =====
-- Start-up and teardown in demu.c: `demu_initialize`, `init_io`, `__demu_seq_next` and `demu_teardown`.
--
-- What Xen, xenstore, the plugin and the kernel answer is the record `Answers`. The status that is
-- written to xenstore, and the copies of the arguments into `demu_state`, are left out.
pub mod Triples
pub mod Ports
pub mod Order
pub mod Balance
pub mod Tidy
mod Tests
use citrix_vgpu.Prelude.{
  ℕ, zero, suc, ◌+◌, Bool, true, false, Option, none, some, List, [], ◌∷◌, ◌++◌, leb, ltb, ◌==◌,
  if◌then◌else◌, replicate, set,
}
use citrix_vgpu.Statefile.{Statefile, closestate}

-- What start-up obtains and teardown gives back
pub data Resource : Type 0 where
  xenstore xen vmiop_env vmiop_vga server shared_page : Resource
  buffered_page server_state port_array evtchn vram socket surface : Resource
  bound : ℕ → Resource  -- a local port of the event channel

-- The fields of `demu_state` that take part, and what the process holds, the newest first. `demu_seq_t`
-- is the position in the enumeration; `mismatches` counts the messages "SEQENCE ERROR".
pub record Daemon : Type 0 where
  pub seq : ℕ
  pub ports : List (Option ℕ)  -- `ioreq_local_port`; `none` is -1
  pub buf_port : ℕ  -- `bufioreq_local_port`
  pub pid_key : Bool  -- the keys in xenstore
  pub vram_key : Bool
  pub statefile : Statefile
  pub held : List Resource
  pub mismatches : ℕ

pub record Answers : Type 0 where
  pub xs_open : Bool
  pub write_pid : Bool
  pub xc_open : Bool
  pub domain_info : Bool
  pub env_init : Bool
  pub vga_init : Bool
  pub register_plugin : Bool
  pub search_path : Bool
  pub configuration : Bool
  pub resuming : Bool  -- `demu_resuming`
  pub get_state : Bool  -- `demu_get_state` returns 0
  pub pages : List (Option ℕ)  -- HVM_PARAM_NR_IOREQ_SERVER_PAGES at each poll; `none` is an error
  pub create_server : Bool
  pub server_info : Bool
  pub map_shared : Bool
  pub map_buffered : Bool
  pub set_state : Bool
  pub malloc_ports : Bool
  pub evtchn_open : Bool
  pub bind : ℕ → Option ℕ  -- the local port for a VCPU
  pub bind_buffered : Option ℕ
  pub enable : Bool  -- `enable_io` returns 0
  pub map_vram : Bool
  pub create_socket : Bool
  pub init_surface : Bool
  pub write_vram : Bool

-- How a part of start-up ends. `waiting`: Xen has given no pages yet; `aborted`: a failed assertion.
pub data Outcome : Type 0 where
  success failure waiting aborted : Outcome

abbrev pub Act : Type 0
Act = Daemon → Daemon × Outcome

unfoldable pub and_then : Daemon × Outcome → Act → Daemon × Outcome
and_then (d, success) k = k d
and_then (d, failure) k = (d, failure)
and_then (d, waiting) k = (d, waiting)
and_then (d, aborted) k = (d, aborted)

infixl 5 ◌>>◌
unfoldable pub ◌>>◌ : Act → Act → Act
◌>>◌ m k d = and_then (m d) k

-- A call that may fail, and leaves nothing behind
abbrev pub check : Bool → Act
check ok d = if ok then (d, success) else (d, failure)

-- A call that obtains something
abbrev pub gain : Bool → Resource → Act
gain ok r d = if ok then (record d { held = r ∷ d.held }, success) else (d, failure)

unfoldable pub demu_seq_next : ℕ → Act
demu_seq_next seq d =
    if ltb d.seq 16
    then (
      record d {
        seq = d.seq + 1;
        mismatches = if d.seq + 1 == seq then d.mismatches else d.mismatches + 1;
      },
      success,
    )
    else (d, aborted)

-- The first loop of `init_io`
unfoldable pub await_pages : List (Option ℕ) → Act
await_pages [] d = (d, waiting)
await_pages (none ∷ l) d = (d, failure)
await_pages (some n ∷ l) d = let later = await_pages l d in if n == 0 then later else (d, success)

unfoldable pub alloc_ports : Bool → ℕ → Act
alloc_ports ok vcpus d =
    if ok
    then (record d { ports = replicate vcpus none; held = port_array ∷ d.held }, success)
    else (d, failure)

-- The body of the loop that binds the ports, for VCPU `i`
unfoldable pub bind_port : Answers → ℕ → Act
bind_port a i d = elim (a.bind i) [
  | none ↦ (d, failure)
  | some p ↦
      let d' = record d { ports = set d.ports i (some p); held = bound p ∷ d.held } in
      if i == 0
      then elim a.bind_buffered [
        | none ↦ (d', failure)
        | some q ↦ (record d' { buf_port = q; held = bound q ∷ d'.held }, success)
      ]
      else (d', success)
]

-- The loop, with the VCPUs left
unfoldable pub bind_ports : Answers → ℕ → ℕ → Act
bind_ports a zero i d = (d, success)
bind_ports a (suc n) i d = and_then (bind_port a i d) (bind_ports a n (suc i))

unfoldable pub init_io : Answers → ℕ → Act
init_io a vcpus = do
  await_pages a.pages
  gain a.create_server server
  demu_seq_next 6
  check a.server_info
  gain a.map_shared shared_page
  demu_seq_next 7
  gain a.map_buffered buffered_page
  demu_seq_next 8
  gain a.set_state server_state
  demu_seq_next 9
  alloc_ports a.malloc_ports vcpus
  demu_seq_next 10
  gain a.evtchn_open evtchn
  demu_seq_next 11
  bind_ports a vcpus 0
  demu_seq_next 12

abbrev pub write_pid_key : Bool → Act
write_pid_key ok d = if ok then (record d { pid_key = true }, success) else (d, failure)

abbrev pub write_vram_key : Bool → Act
write_vram_key ok d = if ok then (record d { vram_key = true }, success) else (d, failure)

unfoldable pub demu_initialize : Answers → ℕ → Act
demu_initialize a vcpus = do
  gain a.xs_open xenstore
  write_pid_key a.write_pid
  demu_seq_next 1
  gain a.xc_open xen
  demu_seq_next 2
  check a.domain_info
  gain a.env_init vmiop_env
  demu_seq_next 3
  gain a.vga_init vmiop_vga
  demu_seq_next 4
  check a.register_plugin
  check a.search_path
  check a.configuration
  demu_seq_next 5
  check (if a.resuming then a.get_state else true)
  init_io a vcpus
  check a.enable
  gain a.map_vram vram
  demu_seq_next 13
  gain a.create_socket socket
  demu_seq_next 14
  gain a.init_surface surface
  demu_seq_next 15
  write_vram_key a.write_vram
  demu_seq_next 16

-- The ports that the loop of `demu_teardown` unbinds, from VCPU 0 and from another
abbrev pub unbind : Option ℕ → List Resource
unbind none = []
unbind (some p) = bound p ∷ []

unfoldable pub unbind_rest : List (Option ℕ) → List Resource
unbind_rest [] = []
unbind_rest (p ∷ l) = unbind p ++ unbind_rest l

unfoldable pub unbind_all : List (Option ℕ) → ℕ → List Resource
unbind_all [] buf = []
unbind_all (p ∷ l) buf = unbind p ++ bound buf ∷ unbind_rest l

-- What is given back if `demu_state.seq` has come to `stage`
abbrev pub from : Daemon → ℕ → List Resource → List Resource
from d stage l = if leb stage d.seq then l else []

-- What `demu_teardown` gives back, in its order
unfoldable pub given_back : Daemon → List Resource
given_back d =
    from d 15 (surface ∷ [])
    ++ (from d 14 (socket ∷ [])
        ++ (from d 4 (vmiop_vga ∷ [])
            ++ (from d 3 (vmiop_env ∷ [])
                ++ (from d 11 (unbind_all d.ports d.buf_port ++ evtchn ∷ [])
                    ++ (from d 10 (port_array ∷ [])
                        ++ (from d 9 (server_state ∷ [])
                            ++ (from d 8 (buffered_page ∷ [])
                                ++ (from d 7 (shared_page ∷ [])
                                    ++ (from d 6 (server ∷ [])
                                        ++ (from d 13 (vram ∷ [])
                                            ++ (from d 2 (xen ∷ [])
                                                ++ from d 1 (xenstore ∷ []))))))))))))

-- "Statefile was not closed properly!"
abbrev pub close_open : Statefile → Statefile
close_open s = elim s.fd [ none ↦ s | some n ↦ closestate s ]

-- `demu_teardown`: the daemon, and what it has given back
unfoldable pub demu_teardown : Daemon → Daemon × List Resource
demu_teardown d = (
  record d {
    seq = 0;
    pid_key = if d.seq == 16 then false else d.pid_key;
    vram_key = if d.seq == 16 then false else d.vram_key;
    statefile = if leb 1 d.seq then close_open d.statefile else d.statefile;
  },
  given_back d,
)
