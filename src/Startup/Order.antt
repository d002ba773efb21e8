-- ===== src/Startup/Order.antt =====
-- The order in which start-up goes through the enumeration `demu_seq_t` of demu.c.
use citrix_vgpu.Prelude.{
  if◌then◌else◌, ◌↔◌, Bool-cases, inl, inr, ◌==◌, ltb, ℕ, zero, suc, ◌+◌, ◌≡◌, ◌≢◌, ◌<◌, refl,
  arith, Bool, true, false, Option, none, some, List, [], ◌∷◌,
}
use citrix_vgpu.Startup.{
  surface, socket, vram, vmiop_vga, vmiop_env, aborted, xen, evtchn, server_state, buffered_page,
  shared_page, xenstore, server, Daemon, Resource, Outcome, success, Answers, check, gain,
  demu_seq_next, await_pages, alloc_ports, bind_port, bind_ports, init_io, write_pid_key,
  write_vram_key, demu_initialize,
}
use citrix_vgpu.Startup.Ports.{bind_port_cases}
use citrix_vgpu.Startup.Triples.{Good, done, failed, waits, Runs, Good-and_then, ◌⨾◌}

-- `demu_state.seq` is `k`, and no message about the sequence has been logged.
abbrev At : ℕ → Daemon → Type 0
At k d = (d.seq ≡ k) × (d.mismatches ≡ 0)

abbrev Early : Daemon → Type 0
Early d = (d.seq < 16) × (d.mismatches ≡ 0)

module _ {k : ℕ} (b : k < 16) where
  early : (d : Daemon) → At k d → Early d
  early d h = omega arith

  checks : (ok : Bool) → Runs Early (At k) (At k) (check ok)
  checks true = record { run = λ d h. done d h }
  checks false = record { run = λ d h. failed d (early d h) }

  gains : (ok : Bool) (r : Resource) → Runs Early (At k) (At k) (gain ok r)
  gains true r = record { run = λ d h. done (record d { held = r ∷ d.held }) h }
  gains false r = record { run = λ d h. failed d (early d h) }

  next : Runs Early (At k) (At (k + 1)) (demu_seq_next (k + 1))
  unfolding demu_seq_next
  next = record {
    run = λ d h. let fits : ltb d.seq 16 ≡ true = ground arith in rw fits (done _ (ground arith));
  }

  awaits : (l : List (Option ℕ)) → Runs Early (At k) (At k) (await_pages l)
  unfolding await_pages
  awaits [] = record { run = λ d h. waits d (early d h) }
  awaits (none ∷ l) = record { run = λ d h. failed d (early d h) }
  awaits (some n ∷ l) = elim (Bool-cases (n == 0)) [
    | inl e ↦ record { run = λ d h. rw e ((awaits l).run d h) }
    | inr e ↦ record { run = λ d h. rw e (done d h) }
  ]

  allocs : (ok : Bool) (n : ℕ) → Runs Early (At k) (At k) (alloc_ports ok n)
  unfolding alloc_ports
  allocs true n = record { run = λ d h. done _ h }
  allocs false n = record { run = λ d h. failed d (early d h) }

writes_pid : (ok : Bool) → Runs Early (At 0) (At 0) (write_pid_key ok)
writes_pid true = record { run = λ d h. done (record d { pid_key = true }) h }
writes_pid false = record { run = λ d h. failed d (omega arith) }

writes_vram : (ok : Bool) → Runs Early (At 15) (At 15) (write_vram_key ok)
writes_vram true = record { run = λ d h. done (record d { vram_key = true }) h }
writes_vram false = record { run = λ d h. failed d (omega arith) }

bind_one : (a : Answers) (i : ℕ) → Runs Early (At 11) (At 11) (bind_port a i)
bind_one a i = record {
  run = λ d h. elim (bind_port_cases a i d) [
    | inl (f, e) ↦ rw e (failed _ (omega arith))
    | inr (inl (p, _, e)) ↦ rw e (failed _ (omega arith))
    | inr (inr (inl (p, q, _, e))) ↦ rw e (done _ h)
    | inr (inr (inr (p, _, e))) ↦ rw e (done _ h)
  ];
}

binds : (a : Answers) (n i : ℕ) → Runs Early (At 11) (At 11) (bind_ports a n i)
unfolding bind_ports
binds a zero i = record { run = λ d h. done d h }
binds a (suc n) i = record {
  run = λ d h. Good-and_then ((bind_one a i).run d h) (binds a n (suc i));
}

init_io-Runs : (a : Answers) (n : ℕ) → Runs Early (At 5) (At 12) (init_io a n)
unfolding init_io
init_io-Runs a n =
    awaits (omega arith) a.pages
    ⨾ gains (omega arith) a.create_server server
    ⨾ next {k = 5} (omega arith)
    ⨾ checks (omega arith) a.server_info
    ⨾ gains (omega arith) a.map_shared shared_page
    ⨾ next {k = 6} (omega arith)
    ⨾ gains (omega arith) a.map_buffered buffered_page
    ⨾ next {k = 7} (omega arith)
    ⨾ gains (omega arith) a.set_state server_state
    ⨾ next {k = 8} (omega arith)
    ⨾ allocs (omega arith) a.malloc_ports n
    ⨾ next {k = 9} (omega arith)
    ⨾ gains (omega arith) a.evtchn_open evtchn
    ⨾ next {k = 10} (omega arith)
    ⨾ binds a n 0
    ⨾ next {k = 11} (omega arith)

initialize-Runs : (a : Answers) (n : ℕ) → Runs Early (At 0) (At 16) (demu_initialize a n)
unfolding demu_initialize
initialize-Runs a n =
    gains (omega arith) a.xs_open xenstore
    ⨾ writes_pid a.write_pid
    ⨾ next {k = 0} (omega arith)
    ⨾ gains (omega arith) a.xc_open xen
    ⨾ next {k = 1} (omega arith)
    ⨾ checks (omega arith) a.domain_info
    ⨾ gains (omega arith) a.env_init vmiop_env
    ⨾ next {k = 2} (omega arith)
    ⨾ gains (omega arith) a.vga_init vmiop_vga
    ⨾ next {k = 3} (omega arith)
    ⨾ checks (omega arith) a.register_plugin
    ⨾ checks (omega arith) a.search_path
    ⨾ checks (omega arith) a.configuration
    ⨾ next {k = 4} (omega arith)
    ⨾ checks (omega arith) (if a.resuming then a.get_state else true)
    ⨾ init_io-Runs a n
    ⨾ checks (omega arith) a.enable
    ⨾ gains (omega arith) a.map_vram vram
    ⨾ next {k = 12} (omega arith)
    ⨾ gains (omega arith) a.create_socket socket
    ⨾ next {k = 13} (omega arith)
    ⨾ gains (omega arith) a.init_surface surface
    ⨾ next {k = 14} (omega arith)
    ⨾ writes_vram a.write_vram
    ⨾ next {k = 15} (omega arith)

ordered :
    (x : Daemon × Outcome)
    → Good Early (At 16) x
    → (x.0.mismatches ≡ 0) × (x.1 ≢ aborted) × ((x.1 ≡ success) ↔ (x.0.seq ≡ 16))
ordered _ (done d h) = (h.1, λ e. cc, (λ e. h.0, λ e. refl))
ordered _ (failed d h) = (h.1, λ e. cc, (λ e. cc, λ e. absurd (omega arith)))
ordered _ (waits d h) = (h.1, λ e. cc, (λ e. cc, λ e. absurd (omega arith)))

-- Whatever fails, start-up from the first state goes through the enumeration without a message about
-- the sequence and without a failed assertion, and comes to its last value exactly when it succeeds.
pub demu_initialize_ordered :
    (a : Answers) (vcpus : ℕ) (d : Daemon)
    → d.seq ≡ 0
    → d.mismatches ≡ 0
    → ((demu_initialize a vcpus d).0.mismatches ≡ 0)
      × ((demu_initialize a vcpus d).1 ≢ aborted)
      × (((demu_initialize a vcpus d).1 ≡ success) ↔ ((demu_initialize a vcpus d).0.seq ≡ 16))
demu_initialize_ordered a vcpus d s m =
    ordered (demu_initialize a vcpus d) ((initialize-Runs a vcpus).run d (s, m))
