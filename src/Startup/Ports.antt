-- ===== src/Startup/Ports.antt =====
-- The ports of the event channel in start-up of demu.c.
use citrix_vgpu.Prelude.{
  ℕ, ◌≡◌, ◌≢◌, arith, none, some, ◌∷◌, set, ◌⊎◌, inl, inr, Option-cases, Bool-cases, ◌==◌,
}
use citrix_vgpu.Startup.{Daemon, Answers, success, failure, bound, bind_port}

-- The daemon with a port for VCPU `i`
abbrev pub with_port : ℕ → ℕ → Daemon → Daemon
with_port i p d = record d { ports = set d.ports i (some p); held = bound p ∷ d.held }

-- The ways in which a port is bound or not
pub bind_port_cases :
    (a : Answers) (i : ℕ) (d : Daemon)
    → ((a.bind i ≡ none) × (bind_port a i d ≡ (d, failure)))
      ⊎ (((p : ℕ) × ((i ≡ 0) × (a.bind_buffered ≡ none))
            × (bind_port a i d ≡ (with_port i p d, failure)))
          ⊎ (((p : ℕ) × (q : ℕ) × ((i ≡ 0) × (a.bind i ≡ some p) × (a.bind_buffered ≡ some q))
                × (bind_port a i d ≡ (
                  record (with_port i p d) { buf_port = q; held = bound q ∷ bound p ∷ d.held },
                  success,
                )))
              ⊎ ((p : ℕ) × (i ≢ 0) × (bind_port a i d ≡ (with_port i p d, success)))))
unfolding bind_port
bind_port_cases a i d = elim (Option-cases (a.bind i)) [
  | inl e ↦ inl (e, ground arith)
  | inr (p, e) ↦ elim (Bool-cases (i == 0)) [
    | inr z ↦ inr (inr (inr (p, ground arith, ground arith)))
    | inl z ↦ elim (Option-cases a.bind_buffered) [
      | inl f ↦ inr (inl (p, (ground arith, f), ground arith))
      | inr (q, f) ↦ inr (inr (inl (p, q, (ground arith, e, f), ground arith)))
    ]
  ]
]
