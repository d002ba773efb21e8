-- ===== src/Startup/Tidy.antt =====
-- A start-up of demu.c that stops anywhere, and the teardown behind it.
use citrix_vgpu.Prelude.{
  ℕ, zero, suc, ◌+◌, ◌≡◌, refl, ap, ◌∙◌, sym, arith, true, Option, none, some, List, [], ◌∷◌, ◌++◌,
  length, replicate, set, inl, inr, if◌then◌else◌, length-append,
}
use mathlib.Core.List.{append_assoc}
use citrix_vgpu.Startup.{
  xen, xenstore, vmiop_env, vmiop_vga, server, shared_page, buffered_page, server_state, port_array,
  evtchn, vram, socket, surface, and_then, Daemon, Resource, Outcome, Answers, bind_ports, init_io,
  unbind_all, unbind_rest, bound, demu_initialize, demu_teardown,
}
use citrix_vgpu.Startup.Triples.{Good, done, failed, waits, Runs, ◌⨾◌}
use citrix_vgpu.Startup.Ports.{with_port, bind_port_cases}
use citrix_vgpu.Startup.Balance.{
  copies, same, due, ports_due, Balanced, Stage, Opened, AnyPorts, nothing, Stage-Balanced, checks,
  gains, next, allocs, opens, awaits, passes, writes_pid, writes_vram,
}

set-append :
    (pre : List (Option ℕ)) (z v : Option ℕ) (rest : List (Option ℕ))
    → set (pre ++ z ∷ rest) (length pre) v ≡ pre ++ v ∷ rest
set-append [] z v rest = refl
set-append (y ∷ pre) z v rest = ap (λ (t : List (Option ℕ)). y ∷ t) (set-append pre z v rest)

-- One port more is bound, and unbound.
copies-unbind_rest :
    (x : Resource) (pre : List (Option ℕ)) (p : ℕ) (rest : List (Option ℕ))
    → copies x (unbind_rest (pre ++ some p ∷ rest))
      ≡ same x (bound p) + copies x (unbind_rest (pre ++ none ∷ rest))
unfolding unbind_rest copies
copies-unbind_rest x [] p rest = omega arith
copies-unbind_rest x (none ∷ pre) p rest = copies-unbind_rest x pre p rest
copies-unbind_rest x (some q ∷ pre) p rest = omega (arith, copies-unbind_rest x pre p rest)

copies-none : (x : Resource) (n : ℕ) → copies x (unbind_rest (replicate n none)) ≡ 0
unfolding unbind_rest copies
copies-none x zero = refl
copies-none x (suc n) = copies-none x n

copies-unbind_all :
    (x : Resource) (y : Option ℕ) (pre : List (Option ℕ)) (p : ℕ) (rest : List (Option ℕ)) (buf : ℕ)
    → copies x (unbind_all ((y ∷ pre) ++ some p ∷ rest) buf)
      ≡ same x (bound p) + copies x (unbind_all ((y ∷ pre) ++ none ∷ rest) buf)
unfolding unbind_all copies
copies-unbind_all x none pre p rest buf = omega (arith, copies-unbind_rest x pre p rest)
copies-unbind_all x (some q) pre p rest buf = omega (arith, copies-unbind_rest x pre p rest)

-- The ports of the first VCPUs, and none for the last `n`
abbrev Begun : Option ℕ → List (Option ℕ) → ℕ → List (Option ℕ) → Type 0
Begun y pre n l = l ≡ (y ∷ pre) ++ replicate n none

another :
    (i p n : ℕ) (y : Option ℕ) (pre : List (Option ℕ)) (d : Daemon)
    → length (y ∷ pre) ≡ i
    → Stage 11 (Begun y pre (suc n)) nothing d
    → Stage 11 (Begun y (pre ++ some p ∷ []) n) nothing (with_port i p d)
unfolding ports_due copies
another i p n y pre d e h =
    let new : set d.ports i (some p) ≡ (y ∷ pre) ++ some p ∷ replicate n none =
      ap (λ (t : List (Option ℕ)). set t i (some p)) h.port_list
      ∙ ap (λ (t : ℕ). set ((y ∷ pre) ++ none ∷ replicate n none) t (some p)) (sym e)
      ∙ set-append (y ∷ pre) none (some p) (replicate n none) in
    record {
      at = h.at;
      port_list = new ∙ sym (append_assoc (y ∷ pre) (some p ∷ []) (replicate n none));
      holds = λ x. omega (
        arith,
        h.holds x,
        copies-unbind_all x y pre p (replicate n none) d.buf_port,
        ap (λ (t : List (Option ℕ)). copies x (unbind_all t d.buf_port)) new,
        ap (λ (t : List (Option ℕ)). copies x (unbind_all t d.buf_port)) h.port_list,
      );
    }

binds_rest :
    (a : Answers) (n i : ℕ) (y : Option ℕ) (pre : List (Option ℕ))
    → length (y ∷ pre) ≡ i
    → Runs Balanced
        (Stage 11 (Begun y pre n) nothing)
        (Stage 11 AnyPorts nothing)
        (bind_ports a n i)
unfolding bind_ports and_then
binds_rest a zero i y pre e = record {
  run = λ d h. done d (record { at = h.at; port_list = tt; holds = h.holds });
}
binds_rest a (suc n) i y pre e = record {
  run = λ d h. elim (bind_port_cases a i d) [
    | inl (f, q) ↦ rw q (failed d (Stage-Balanced h))
    | inr (inl (p, z, q)) ↦ absurd (omega arith)
    | inr (inr (inl (p, q, z, r))) ↦ absurd (omega arith)
    | inr (inr (inr (p, z, q))) ↦
        let one_more : length (y ∷ (pre ++ some p ∷ [])) ≡ suc i =
          omega (arith, length-append pre (some p ∷ [])) in
        rw q (
          (binds_rest a n (suc i) y (pre ++ some p ∷ []) one_more).run (with_port i p d)
            (another i p n y pre d e h))
  ];
}

-- The first port and that of the buffered requests
first_two :
    (p q n : ℕ) (d : Daemon)
    → Opened (suc n) d
    → Stage 11
        (Begun (some p) [] n)
        nothing
        (record (with_port 0 p d) { buf_port = q; held = bound q ∷ bound p ∷ d.held })
unfolding ports_due copies unbind_all
first_two p q n d h =
    let new : set d.ports 0 (some p) ≡ some p ∷ replicate n none =
      ap (λ (t : List (Option ℕ)). set t 0 (some p)) h.port_list in
    record {
      at = h.at;
      port_list = new;
      holds = λ x. omega (
        arith,
        h.holds x,
        ap (λ (t : List (Option ℕ)). copies x (unbind_all t q)) new,
        copies-none x n,
      );
    }

binds_all :
    (a : Answers) (n p q : ℕ)
    → a.bind 0 ≡ some p
    → a.bind_buffered ≡ some q
    → Runs Balanced (Opened n) (Stage 11 AnyPorts nothing) (bind_ports a n 0)
unfolding bind_ports and_then ports_due unbind_all copies
binds_all a zero p q e f = record {
  run = λ d h. done d (record {
    at = h.at;
    port_list = tt;
    holds = λ x. omega (
      arith,
      h.holds x,
      ap (λ (t : List (Option ℕ)). copies x (unbind_all t d.buf_port)) h.port_list,
    );
  });
}
binds_all a (suc n) p q e f = record {
  run = λ d h. elim (bind_port_cases a 0 d) [
    | inl (z, r) ↦ absurd (ground arith)
    | inr (inl (p', z, r)) ↦ absurd (ground arith)
    | inr (inr (inl (p', q', z, r))) ↦
        rw r ((binds_rest a n 1 (some p') [] refl).run _ (first_two p' q' n d h))
    | inr (inr (inr (p', z, r))) ↦ absurd (z refl)
  ];
}

module _ (a : Answers) (n p q : ℕ) (e : a.bind 0 ≡ some p) (f : a.bind_buffered ≡ some q) where
  init_io-Runs : Runs Balanced (Stage 5 AnyPorts nothing) (Stage 12 AnyPorts nothing) (init_io a n)
  unfolding init_io due ports_due
  init_io-Runs =
      awaits a.pages
      ⨾ gains a.create_server server
      ⨾ next server (omega arith) (λ x. omega arith) (λ d x. refl)
      ⨾ checks a.server_info
      ⨾ gains a.map_shared shared_page
      ⨾ next shared_page (omega arith) (λ x. omega arith) (λ d x. refl)
      ⨾ gains a.map_buffered buffered_page
      ⨾ next buffered_page (omega arith) (λ x. omega arith) (λ d x. refl)
      ⨾ gains a.set_state server_state
      ⨾ next server_state (omega arith) (λ x. omega arith) (λ d x. refl)
      ⨾ allocs n a.malloc_ports
      ⨾ next port_array (omega arith) (λ x. omega arith) (λ d x. refl)
      ⨾ gains a.evtchn_open evtchn
      ⨾ opens n
      ⨾ binds_all a n p q e f
      ⨾ passes (omega arith) (λ x. omega arith) (λ d x. refl)

  initialize-Runs :
      a.write_pid ≡ true
      → Runs Balanced (Stage 0 AnyPorts nothing) (Stage 16 AnyPorts nothing) (demu_initialize a n)
  unfolding demu_initialize due ports_due
  initialize-Runs w =
      gains a.xs_open xenstore
      ⨾ writes_pid a.write_pid w
      ⨾ next xenstore (omega arith) (λ x. omega arith) (λ d x. refl)
      ⨾ gains a.xc_open xen
      ⨾ next xen (omega arith) (λ x. omega arith) (λ d x. refl)
      ⨾ checks a.domain_info
      ⨾ gains a.env_init vmiop_env
      ⨾ next vmiop_env (omega arith) (λ x. omega arith) (λ d x. refl)
      ⨾ gains a.vga_init vmiop_vga
      ⨾ next vmiop_vga (omega arith) (λ x. omega arith) (λ d x. refl)
      ⨾ checks a.register_plugin
      ⨾ checks a.search_path
      ⨾ checks a.configuration
      ⨾ passes (omega arith) (λ x. omega arith) (λ d x. refl)
      ⨾ checks (if a.resuming then a.get_state else true)
      ⨾ init_io-Runs
      ⨾ checks a.enable
      ⨾ gains a.map_vram vram
      ⨾ next vram (omega arith) (λ x. omega arith) (λ d x. refl)
      ⨾ gains a.create_socket socket
      ⨾ next socket (omega arith) (λ x. omega arith) (λ d x. refl)
      ⨾ gains a.init_surface surface
      ⨾ next surface (omega arith) (λ x. omega arith) (λ d x. refl)
      ⨾ writes_vram a.write_vram
      ⨾ passes (omega arith) (λ x. omega arith) (λ d x. refl)

balanced : (x : Daemon × Outcome) → Good Balanced (Stage 16 AnyPorts nothing) x → Balanced x.0
balanced _ (done d h) = Stage-Balanced h
balanced _ (failed d h) = h
balanced _ (waits d h) = h

none_due :
    (d : Daemon) (x : Resource)
    → d.seq ≡ 0
    → d.held ≡ []
    → copies x d.held ≡ nothing x + (due 0 x + ports_due 0 d x)
unfolding due ports_due copies
none_due d x s h = ap (copies x) h ∙ omega arith

-- If the key of the process is written once xenstore is open, and the first VCPU's port and that of
-- the buffered requests are bound, then teardown gives back each thing that start-up obtained exactly
-- as often as the process holds it, wherever start-up stopped, also while it waits for Xen.
pub demu_teardown-demu_initialize :
    (a : Answers) (vcpus p q : ℕ) (d : Daemon) (x : Resource)
    → d.seq ≡ 0
    → d.held ≡ []
    → a.write_pid ≡ true
    → a.bind 0 ≡ some p
    → a.bind_buffered ≡ some q
    → copies x (demu_teardown (demu_initialize a vcpus d).0).1
      ≡ copies x (demu_initialize a vcpus d).0.held
unfolding demu_teardown
demu_teardown-demu_initialize a vcpus p q d x s h w e f =
    let start : Stage 0 AnyPorts nothing d = record {
      at = s;
      port_list = tt;
      holds = λ y. none_due d y s h;
    } in
    balanced (demu_initialize a vcpus d) ((initialize-Runs a vcpus p q e f w).run d start) x
