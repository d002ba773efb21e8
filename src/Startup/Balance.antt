-- ===== src/Startup/Balance.antt =====
-- What the process holds and what `demu_teardown` of demu.c gives back, stage by stage.
use citrix_vgpu.Prelude.{
  some, Bool-cases, inl, inr, ◌==◌, ap, ltb, leb, ℕ, ◌+◌, ◌≡◌, ◌<◌, refl, arith, Bool, true, false,
  Option, none, List, [], ◌∷◌, ◌++◌, replicate, if◌then◌else◌,
}
use native.Mathlib.Decide.{ℕ_discrete}
use citrix_vgpu.Startup.{
  await_pages, write_pid_key, write_vram_key, alloc_ports, demu_seq_next, gain, check, xen,
  xenstore, vmiop_env, vmiop_vga, server, shared_page, buffered_page, server_state, port_array,
  evtchn, vram, socket, surface, vmiop_env, vmiop_vga, server, shared_page, buffered_page,
  server_state, port_array, evtchn, vram, socket, surface, Daemon, Resource, given_back, from,
  unbind_all,
}
use citrix_vgpu.Startup.Triples.{waits, done, failed, Runs}

pub Resource-discrete : Discrete Resource
Resource-discrete = hlevel (ℕ_discrete)

unfoldable pub same : Resource → Resource → ℕ
same x y = elim (Resource-discrete x y) [ yes e ↦ 1 | no e ↦ 0 ]

-- How often a resource stands in a list
unfoldable pub copies : Resource → List Resource → ℕ
unfolding same
copies x [] = 0
copies x (y ∷ l) = same x y + copies x l

pub copies-append :
    (x : Resource) (l r : List Resource) → copies x (l ++ r) ≡ copies x l + copies x r
unfolding copies
copies-append x [] r = omega arith
copies-append x (y ∷ l) r = omega (arith, copies-append x l r)

-- How often teardown gives `x` back at a stage, the ports left out
unfoldable pub due : ℕ → Resource → ℕ
due k x =
    (if leb 15 k then same x surface else 0)
    + (if leb 14 k then same x socket else 0)
    + (if leb 13 k then same x vram else 0)
    + (if leb 11 k then same x evtchn else 0)
    + (if leb 10 k then same x port_array else 0)
    + (if leb 9 k then same x server_state else 0)
    + (if leb 8 k then same x buffered_page else 0)
    + (if leb 7 k then same x shared_page else 0)
    + (if leb 6 k then same x server else 0)
    + (if leb 4 k then same x vmiop_vga else 0)
    + (if leb 3 k then same x vmiop_env else 0)
    + (if leb 2 k then same x xen else 0)
    + (if leb 1 k then same x xenstore else 0)

-- and with the ports
unfoldable pub ports_due : ℕ → Daemon → Resource → ℕ
ports_due k d x = if leb 11 k then copies x (unbind_all d.ports d.buf_port) else 0

copies-from :
    (d : Daemon) (k : ℕ) (x r : Resource)
    → copies x (from d k (r ∷ [])) ≡ (if leb k d.seq then same x r else 0)
unfolding copies
copies-from d k x r = ground arith

copies-from_ports :
    (d : Daemon) (x : Resource)
    → copies x (from d 11 (unbind_all d.ports d.buf_port ++ evtchn ∷ []))
      ≡ (if leb 11 d.seq then same x evtchn else 0) + ports_due d.seq d x
unfolding ports_due copies
copies-from_ports d x =
    let a = copies-append x (unbind_all d.ports d.buf_port) (evtchn ∷ []) in ground arith

pub copies-given_back :
    (d : Daemon) (x : Resource) → copies x (given_back d) ≡ due d.seq x + ports_due d.seq d x
unfolding given_back due
copies-given_back d x = simp (copies-append, copies-from, copies-from_ports) (omega arith)

-- The process holds what teardown gives back, each as often.
abbrev pub Balanced : Daemon → Type 0
Balanced d = (x : Resource) → copies x (given_back d) ≡ copies x d.held

-- The stage is `k`, and the process holds what is due then, and `more`.
pub record Stage (k : ℕ) (R : List (Option ℕ) → Type 0) (more : Resource → ℕ) (d : Daemon)
    : Type 0 where
  pub at : d.seq ≡ k
  pub port_list : R d.ports
  pub holds : (x : Resource) → copies x d.held ≡ more x + (due k x + ports_due k d x)

abbrev pub AnyPorts : List (Option ℕ) → Type 0
AnyPorts l = Unit

abbrev pub nothing : Resource → ℕ
nothing x = 0

pub Stage-Balanced :
    {k : ℕ} {R : List (Option ℕ) → Type 0} {d : Daemon} → Stage k R nothing d → Balanced d
Stage-Balanced {k} {R} {d} h x =
    let stage = ap (λ (t : ℕ). due t x + ports_due t d x) h.at in
    omega (arith, copies-given_back d x, h.holds x)

module _ {k : ℕ} {R : List (Option ℕ) → Type 0} where
  pub checks : (ok : Bool) → Runs Balanced (Stage k R nothing) (Stage k R nothing) (check ok)
  checks true = record { run = λ d h. done d h }
  checks false = record { run = λ d h. failed d (Stage-Balanced h) }

  pub gains :
      (ok : Bool) (r : Resource)
      → Runs Balanced (Stage k R nothing) (Stage k R (λ x. same x r)) (gain ok r)
  unfolding copies ports_due
  gains true r = record {
    run = λ d h.
        done (record d { held = r ∷ d.held })
          (record { at = h.at; port_list = h.port_list; holds = λ x. omega (arith, h.holds x) });
  }
  gains false r = record { run = λ d h. failed d (Stage-Balanced h) }

  -- The next stage, at which `r` is due
  pub next :
      (r : Resource)
      → k < 16
      → ((x : Resource) → due (k + 1) x ≡ same x r + due k x)
      → ((d : Daemon) (x : Resource) → ports_due (k + 1) d x ≡ ports_due k d x)
      → Runs Balanced (Stage k R (λ x. same x r)) (Stage (k + 1) R nothing) (demu_seq_next (k + 1))
  unfolding demu_seq_next ports_due
  next r b e p = record {
    run = λ d h.
        let fits : ltb d.seq 16 ≡ true = let at = h.at in ground arith in
        rw fits (
          done _ (record {
            at = ap (λ (t : ℕ). t + 1) h.at;
            port_list = h.port_list;
            holds = λ x. omega (arith, h.holds x, e x, p d x);
          }));
  }

-- The parts that obtain nothing
module _ {k : ℕ} where
  pub passes :
      k < 16
      → ((x : Resource) → due (k + 1) x ≡ due k x)
      → ((d : Daemon) (x : Resource) → ports_due (k + 1) d x ≡ ports_due k d x)
      → Runs Balanced
          (Stage k AnyPorts nothing)
          (Stage (k + 1) AnyPorts nothing)
          (demu_seq_next (k + 1))
  unfolding demu_seq_next ports_due
  passes b e p = record {
    run = λ d h.
        let fits : ltb d.seq 16 ≡ true = let at = h.at in ground arith in
        rw fits (
          done _ (record {
            at = ap (λ (t : ℕ). t + 1) h.at;
            port_list = tt;
            holds = λ x. omega (arith, h.holds x, e x, p d x);
          }));
  }

  pub awaits :
      (l : List (Option ℕ))
      → Runs Balanced (Stage k AnyPorts nothing) (Stage k AnyPorts nothing) (await_pages l)
  unfolding await_pages
  awaits [] = record { run = λ d h. waits d (Stage-Balanced h) }
  awaits (none ∷ l) = record { run = λ d h. failed d (Stage-Balanced h) }
  awaits (some n ∷ l) = elim (Bool-cases (n == 0)) [
    | inl e ↦ record { run = λ d h. rw e ((awaits l).run d h) }
    | inr e ↦ record { run = λ d h. rw e (done d h) }
  ]

  pub writes_vram :
      (ok : Bool)
      → Runs Balanced (Stage k AnyPorts nothing) (Stage k AnyPorts nothing) (write_vram_key ok)
  unfolding ports_due
  writes_vram true = record {
    run = λ d h. done _ (record { at = h.at; port_list = tt; holds = h.holds });
  }
  writes_vram false = record { run = λ d h. failed d (Stage-Balanced h) }

  pub writes_pid :
      (ok : Bool)
      → ok ≡ true
      → {more : Resource → ℕ}
      → Runs Balanced (Stage k AnyPorts more) (Stage k AnyPorts more) (write_pid_key ok)
  unfolding ports_due
  writes_pid true e = record {
    run = λ d h. done _ (record { at = h.at; port_list = tt; holds = h.holds });
  }
  writes_pid false e = cc

-- The daemon has its array of ports, and nothing is bound yet.
abbrev pub Unbound : ℕ → List (Option ℕ) → Type 0
Unbound n l = l ≡ replicate n none

module _ (n : ℕ) where
  pub allocs :
      (ok : Bool)
      → Runs Balanced
          (Stage 9 AnyPorts nothing)
          (Stage 9 (Unbound n) (λ x. same x port_array))
          (alloc_ports ok n)
  unfolding alloc_ports copies ports_due
  allocs true = record {
    run = λ d h.
        done _ (record { at = h.at; port_list = refl; holds = λ x. omega (arith, h.holds x) });
  }
  allocs false = record { run = λ d h. failed d (Stage-Balanced h) }

  -- The event channel is open.
  pub record Opened (d : Daemon) : Type 0 where
    pub at : d.seq ≡ 11
    pub port_list : Unbound n d.ports
    pub holds : (x : Resource) → copies x d.held ≡ due 11 x

  pub opens : Runs Balanced (Stage 10 (Unbound n) (λ x. same x evtchn)) Opened (demu_seq_next 11)
  unfolding demu_seq_next due ports_due
  opens = record {
    run = λ d h.
        let fits : ltb d.seq 16 ≡ true = let at = h.at in ground arith in
        rw fits (
          done _ (record {
            at = ap (λ (t : ℕ). t + 1) h.at;
            port_list = h.port_list;
            holds = λ x. omega (arith, h.holds x);
          }));
  }
