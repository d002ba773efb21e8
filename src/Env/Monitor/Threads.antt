-- ===== src/Env/Monitor/Threads.antt =====
-- The monitor under threads that run statement by statement.
--
-- A thread is outside, has locked the mutex, has also set `vmiope_monitor_holder`, is inside, or has
-- cleared `vmiope_monitor_held` to leave. The two variables are read and written without a lock of
-- their own, in the order of the source.
use citrix_vgpu.Prelude.{
  Bool-cases, inl, inr, refl, ℕ, ◌≡◌, ◌≢◌, ◌==◌, ◌↔◌, Bool, true, false, none, some, update, arith,
}
use mathlib.Core.Path.{subst}
use citrix_vgpu.Env.Monitor.{Monitor, is_mine}

pub data Place : Type 0 where
  outside locked marked inside leaving : Place

pub record Run : Type 0 where
  pub monitor : Monitor
  pub place : ℕ → Place

abbrev pub go : ℕ → Place → Run → Run
go t p r = record r { place = update r.place t p }

-- A run begins with every thread outside and the mutex free.
abbrev pub IsStart : Run → Type 0
IsStart r = ((t : ℕ) → r.place t ≡ outside) × (r.monitor.lock ≡ none) × (r.monitor.held ≡ false)

-- One statement of one thread. `enter_mine` is a `vmiope_enter_monitor` whose test succeeds,
-- `leave_other` a `vmiope_leave_monitor` whose test fails. `lock` is a test that fails, together with
-- the end of the wait for the mutex: no step of another thread makes the test succeed meanwhile.
pub data Step : Run → Run → Type 0 where
  enter_mine : (t : ℕ) (r : Run) → is_mine t r.monitor ≡ true → Step r (go t inside r)
  lock :
      (t : ℕ) (r : Run)
      → is_mine t r.monitor ≡ false
      → r.monitor.lock ≡ none
      → Step r (go t locked (record r { monitor = record r.monitor { lock = some t } }))
  set_holder :
      (t : ℕ) (r : Run)
      → r.place t ≡ locked
      → Step r (go t marked (record r { monitor = record r.monitor { holder = t } }))
  set_held :
      (t : ℕ) (r : Run)
      → r.place t ≡ marked
      → Step r (go t inside (record r { monitor = record r.monitor { held = true } }))
  clear_held :
      (t : ℕ) (r : Run)
      → is_mine t r.monitor ≡ true
      → Step r (go t leaving (record r { monitor = record r.monitor { held = false } }))
  unlock :
      (t : ℕ) (r : Run)
      → r.place t ≡ leaving
      → Step r (go t outside (record r { monitor = record r.monitor { lock = none } }))
  leave_other : (t : ℕ) (r : Run) → is_mine t r.monitor ≡ false → Step r r

pub data Reach (s : Run) : Run → Type 0 where
  here : Reach s s
  next : {r q : Run} → Reach s r → Step r q → Reach s q

-- What holds of every thread: only the owner of the mutex is not outside, and the variables tell
-- where it is.
abbrev Holds : Monitor → ℕ → Place → Type 0
Holds m t outside = (m.lock ≢ some t) × (is_mine t m ≡ false)
Holds m t locked = (m.lock ≡ some t) × (m.held ≡ false)
Holds m t marked = (m.lock ≡ some t) × (m.held ≡ false) × (m.holder ≡ t)
Holds m t inside = (m.lock ≡ some t) × (m.held ≡ true) × (m.holder ≡ t)
Holds m t leaving = (m.lock ≡ some t) × (m.held ≡ false)

abbrev IsSound : Run → Type 0
IsSound r = (t : ℕ) → Holds r.monitor t (r.place t)

-- `m'` tells all threads but `t` the same.
abbrev Others : ℕ → Monitor → Monitor → Type 0
Others t m m' = (a : ℕ) (p : Place) → t ≢ a → Holds m a p → Holds m' a p

go-IsSound :
    (t : ℕ) (p : Place) (r : Run) (m : Monitor)
    → IsSound r
    → Others t r.monitor m
    → Holds m t p
    → IsSound (go t p (record r { monitor = m }))
go-IsSound t p r m h others own a = elim (Bool-cases (t == a)) [
  | inl e ↦
      let same : t ≡ a = ground arith in
      let placed : update r.place t p a ≡ p = ground arith in
      rw placed (subst (λ b. Holds m b p) same own)
  | inr ne ↦
      let placed : update r.place t p a ≡ r.place a = ground arith in
      rw placed (others a (r.place a) (λ e. ground arith) (h a))
]

mine_inside : (t : ℕ) (m : Monitor) (p : Place) → Holds m t p → is_mine t m ≡ true → p ≡ inside
mine_inside t m outside h e = cc
mine_inside t m locked h e = absurd (ground arith)
mine_inside t m marked h e = absurd (ground arith)
mine_inside t m inside h e = refl
mine_inside t m leaving h e = absurd (ground arith)

Others-lock : (t : ℕ) (m : Monitor) → m.lock ≡ none → Others t m (record m { lock = some t })
Others-lock t m free a outside ne h = ground arith
Others-lock t m free a locked ne h = absurd (ground arith)
Others-lock t m free a marked ne h = absurd (ground arith)
Others-lock t m free a inside ne h = absurd (ground arith)
Others-lock t m free a leaving ne h = absurd (ground arith)

-- The owner of the mutex writes a variable, or gives the mutex back.
module _ (t : ℕ) (m : Monitor) (own : m.lock ≡ some t) where
  Others-holder : m.held ≡ false → Others t m (record m { holder = t })
  Others-holder down a outside ne h = ground arith
  Others-holder down a locked ne h = absurd (ground arith)
  Others-holder down a marked ne h = absurd (ground arith)
  Others-holder down a inside ne h = absurd (ground arith)
  Others-holder down a leaving ne h = absurd (ground arith)

  Others-held : (b : Bool) → m.holder ≡ t → Others t m (record m { held = b })
  Others-held b mine a outside ne h = ground arith
  Others-held b mine a locked ne h = absurd (ground arith)
  Others-held b mine a marked ne h = absurd (ground arith)
  Others-held b mine a inside ne h = absurd (ground arith)
  Others-held b mine a leaving ne h = absurd (ground arith)

  Others-unlock : m.held ≡ false → Others t m (record m { lock = none })
  Others-unlock down a outside ne h = ground arith
  Others-unlock down a locked ne h = absurd (ground arith)
  Others-unlock down a marked ne h = absurd (ground arith)
  Others-unlock down a inside ne h = absurd (ground arith)
  Others-unlock down a leaving ne h = absurd (ground arith)

-- A free mutex means that the flag is down.
free_down : (r : Run) → IsSound r → r.monitor.lock ≡ none → r.monitor.held ≡ false
free_down r h free = elim (Bool-cases r.monitor.held) [
  | inl up ↦
      let t : ℕ = r.monitor.holder in
      let place = mine_inside t r.monitor (r.place t) (h t) (ground arith) in
      absurd (ground (arith, subst (Holds r.monitor t) place (h t)))
  | inr down ↦ down
]

Step-IsSound : {r q : Run} → IsSound r → Step r q → IsSound q
Step-IsSound h (enter_mine t r e) =
    let place = mine_inside t r.monitor (r.place t) (h t) e in
    go-IsSound t inside r r.monitor h (λ a p ne k. k) (subst (Holds r.monitor t) place (h t))
Step-IsSound h (lock t r e free) =
    go-IsSound t locked r (record r.monitor { lock = some t }) h (Others-lock t r.monitor free)
      (refl, free_down r h free)
Step-IsSound h (set_holder t r e) =
    let k = subst (Holds r.monitor t) e (h t) in
    go-IsSound t marked r (record r.monitor { holder = t }) h (Others-holder t r.monitor k.0 k.1)
      (k.0, k.1, refl)
Step-IsSound h (set_held t r e) =
    let k = subst (Holds r.monitor t) e (h t) in
    go-IsSound t inside r (record r.monitor { held = true }) h
      (Others-held t r.monitor k.0 true k.2) (k.0, refl, k.2)
Step-IsSound h (clear_held t r e) =
    let place = mine_inside t r.monitor (r.place t) (h t) e in
    let k = subst (Holds r.monitor t) place (h t) in
    go-IsSound t leaving r (record r.monitor { held = false }) h
      (Others-held t r.monitor k.0 false k.2) (k.0, refl)
Step-IsSound h (unlock t r e) =
    let k = subst (Holds r.monitor t) e (h t) in
    go-IsSound t outside r (record r.monitor { lock = none }) h (Others-unlock t r.monitor k.0 k.1)
      (ground arith, ground arith)
Step-IsSound h (leave_other t r e) = h

Reach-IsSound : {s r : Run} → IsStart s → Reach s r → IsSound r
Reach-IsSound z here = λ t. rw (z.0 t) (ground (arith, z.1), ground (arith, z.2))
Reach-IsSound z (next r st) = Step-IsSound (Reach-IsSound z r) st

told :
    (t : ℕ) (m : Monitor) (p : Place)
    → Holds m t p
    → ((p ≢ outside) ↔ (m.lock ≡ some t)) × ((is_mine t m ≡ true) ↔ (p ≡ inside))
told t m outside h = ((λ ne. absurd (ne refl), λ e. absurd (h.0 e)), (λ e. cc, λ e. cc))
told t m locked h = ((λ ne. h.0, λ e z. cc), (λ e. absurd (ground arith), λ e. cc))
told t m marked h = ((λ ne. h.0, λ e z. cc), (λ e. absurd (ground arith), λ e. cc))
told t m inside h = ((λ ne. h.0, λ e z. cc), (λ e. refl, λ e. ground arith))
told t m leaving h = ((λ ne. h.0, λ e z. cc), (λ e. absurd (ground arith), λ e. cc))

-- In every interleaving of the threads' statements, the mutex belongs to a thread exactly while
-- that thread is not outside, and the test of `vmiope_enter_monitor` and `vmiope_leave_monitor`
-- succeeds for a thread exactly while it is inside.
pub monitor_told :
    {s r : Run} (t : ℕ)
    → IsStart s
    → Reach s r
    → ((r.place t ≢ outside) ↔ (r.monitor.lock ≡ some t))
      × ((is_mine t r.monitor ≡ true) ↔ (r.place t ≡ inside))
monitor_told {r} t z w = told t r.monitor (r.place t) (Reach-IsSound z w t)
