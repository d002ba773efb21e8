-- ===== src/Env/Monitor/Bracket.antt =====
-- The monitor around a call: what a thread that leaves and reenters, or enters and leaves, finds.
use citrix_vgpu.Prelude.{
  refl, Option-cases, Bool-cases, inl, inr, ℕ, ◌≡◌, arith, true, false, some, none, Bool,
  if◌then◌else◌,
}
use citrix_vgpu.Env.Monitor.{Monitor, is_mine, enter_monitor, leave_monitor, reenter, leave_unless}

-- The flag is up exactly while the mutex is locked, and then by the holder.
abbrev pub IsConsistent : Monitor → Type 0
IsConsistent m = m.lock ≡ (if m.held then some m.holder else none)

-- A thread that leaves the monitor, and reenters it when it was inside, has it as before.
pub reenter-leave_monitor :
    (t : ℕ) (m : Monitor)
    → IsConsistent m
    → reenter ((leave_monitor t m).0) t ((leave_monitor t m).1) ≡ some m
unfolding reenter leave_monitor
reenter-leave_monitor t m c = ground arith

entered :
    (t : ℕ) (m m' : Monitor) (b : Bool)
    → is_mine t m ≡ false
    → enter_monitor t m ≡ some (b, m')
    → (b ≡ false) × (m' ≡ record { lock = some t; held = true; holder = t }) × (m.lock ≡ none)
unfolding enter_monitor
entered t m m' b o e = elim (Option-cases m.lock) [
  | inl n ↦ ground arith
  | inr (a, n) ↦ absurd (ground arith)
]

-- A thread that enters and then leaves unless it was inside frees what it took.
pub leave_unless-enter_monitor :
    (t : ℕ) (m m' : Monitor) (b : Bool)
    → IsConsistent m
    → enter_monitor t m ≡ some (b, m')
    → IsConsistent m'
      × (is_mine t m' ≡ true)
      × ((leave_unless b t m').held ≡ m.held)
      × ((leave_unless b t m').lock ≡ m.lock)
unfolding enter_monitor leave_unless
leave_unless-enter_monitor t m m' b c e = elim (Bool-cases (is_mine t m)) [
  | inl i ↦ ground arith
  | inr o ↦
      let w = entered t m m' b o e in
      rw (w.0, w.1) (refl, ground arith, ground (arith, w.2), ground (arith, w.2))
]
