-- ===== src/Env/Monitor.antt =====
-- The monitor of vmiop-env.c: `vmiope_enter_monitor`, `vmiope_leave_monitor`, and the exchange with
-- an internal lock in `vmiope_enter_lock` and `vmiope_leave_lock`.
--
-- A thread is its number. The functions here run without another thread between their statements,
-- `none` being a wait for a mutex that is not free; Monitor/Threads takes the statements one by one.
pub mod Threads
pub mod Bracket
use citrix_vgpu.Prelude.{ℕ, ◌==◌, ◌&&◌, Bool, true, false, Option, none, some, if◌then◌else◌}
use citrix_vgpu.Env.{ErrorCode, success, resource}

-- `vmiope_monitor_lock` by its owner, `vmiope_monitor_held` and `vmiope_monitor_holder`
pub record Monitor : Type 0 where
  pub lock : Option ℕ
  pub held : Bool
  pub holder : ℕ

-- The test of both functions
abbrev pub is_mine : ℕ → Monitor → Bool
is_mine t m = m.held && m.holder == t

-- The monitor and what is written to `*in_monitor`
unfoldable pub enter_monitor : ℕ → Monitor → Option (Bool × Monitor)
enter_monitor t m = if is_mine t m then some (true, m) else elim m.lock [
  | some owner ↦ none
  | none ↦ some (false, record { lock = some t; held = true; holder = t })
]

unfoldable pub leave_monitor : ℕ → Monitor → Bool × Monitor
leave_monitor t m =
    if is_mine t m then (true, record m { lock = none; held = false }) else (false, m)

-- `if (in_monitor) vmiope_enter_monitor(NULL)`
abbrev pub only_state : Option (Bool × Monitor) → Option Monitor
only_state none = none
only_state (some (b, m)) = some m

unfoldable pub reenter : Bool → ℕ → Monitor → Option Monitor
unfolding enter_monitor
reenter true t m = only_state (enter_monitor t m)
reenter false t m = some m

-- `if (! in_monitor) vmiope_leave_monitor(NULL)`
unfoldable pub leave_unless : Bool → ℕ → Monitor → Monitor
unfolding leave_monitor
leave_unless true t m = m
leave_unless false t m = (leave_monitor t m).1

-- An internal lock is its owner too. `fails` says that `pthread_mutex_lock` reports an error; the
-- lock is waited for where another thread has it.
unfoldable pub enter_lock :
    Bool → ℕ → Option ℕ → Monitor → Option (ErrorCode × Bool × Option ℕ × Monitor)
unfolding reenter leave_monitor
enter_lock fails t lock m =
    let (in_monitor, m1) = leave_monitor t m in
    if fails
    then elim (reenter in_monitor t m1) [
      | none ↦ none
      | some m2 ↦ some (resource, in_monitor, lock, m2)
    ]
    else elim lock [ some owner ↦ none | none ↦ some (success, in_monitor, some t, m1) ]

unfoldable pub leave_lock : Bool → ℕ → Monitor → Option (Option ℕ × Monitor)
unfolding reenter
leave_lock in_monitor t m = elim (reenter in_monitor t m) [
  | none ↦ none
  | some m1 ↦ some (none, m1)
]
