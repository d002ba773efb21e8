-- ===== src/Control/Cycle.antt =====
-- The life of a migration under the commands of control.c: replies, states, and the stream.
use citrix_vgpu.Prelude.{
  ◌==◌, ℕ, suc, ◌≡◌, Bool, false, none, some, List, [], ◌∷◌, if◌then◌else◌, arith, refl, true, ◌⊎◌,
  inl, inr, Bool-cases, ◌≢◌,
}
use citrix_vgpu.Statefile.{demu_init_migrate, demu_trigger_resume}
use citrix_vgpu.Control.{
  Statefile, cmd_restore, cmd_track_dirty, cmd_migrate_live, cmd_migrate_nonlive, cmd_migrate_init,
  MigState, mig_not_init, mig_init, mig_track, mig_live, mig_paused, mig_restore, Message,
  send_return, send_error, Control, Command, run_command, do_migrate_init, check_mig,
  do_migrate_live, do_migrate_nonlive, do_migrate_pause, do_cmd_progress, do_track_dirty,
  abort_live, do_mig_abort, do_cmd_quit, ignore, do_not_supported, do_cmd_restore,
}

-- The number of replies to `cli` in a list of messages.
abbrev pub reply : ℕ → Message → Bool
reply cli (send_return n) = n == cli
reply cli (send_error n e) = n == cli
reply cli _ = false

abbrev pub replies : ℕ → List Message → ℕ
replies cli [] = 0
replies cli (m ∷ l) = let rest = replies cli l in if reply cli m then suc rest else rest

-- Every command, in every state and on every branch, sends its caller exactly one reply.
pub replies-run_command :
    (cli : ℕ) (cmd : Command) (c : Control)
    → replies cli (run_command cli cmd c).sent ≡ suc (replies cli c.sent)
unfolding run_command do_migrate_init check_mig do_migrate_live do_migrate_nonlive do_migrate_pause
    do_cmd_progress do_track_dirty abort_live do_mig_abort do_cmd_quit ignore do_not_supported
    do_cmd_restore
replies-run_command cli (cmd_migrate_init none) c = ground arith
replies-run_command cli (cmd_migrate_init (some fd)) c = ground arith
replies-run_command cli _ c = ground arith

abbrev pub IsReady : MigState → Type 0
IsReady m = (m ≡ mig_init) ⊎ (m ≡ mig_track)

abbrev pub Refused : Statefile → Type 0
Refused f = (demu_trigger_resume f).1 ≡ false

-- The changes of `runstate.mig` that each command can make, from `m` to `n` with the stream `f`
abbrev pub Goes : Command → Statefile → MigState → MigState → Type 0
Goes (cmd_migrate_init (some fd)) f m n = (n ≡ m) ⊎ ((m ≡ mig_not_init) × (n ≡ mig_init))
Goes cmd_track_dirty f m n = (n ≡ m) ⊎ ((m ≡ mig_init) × (n ≡ mig_track))
Goes (cmd_migrate_live sem_ok) f m n = (n ≡ m) ⊎ (IsReady m × (sem_ok ≡ true) × (n ≡ mig_live))
Goes cmd_migrate_nonlive f m n = (n ≡ m) ⊎ (IsReady m × (n ≡ mig_paused))
Goes cmd_restore f m n =
    ((n ≡ m) × (IsReady m → ⊥))
    ⊎ (IsReady m × (Refused f → ⊥) × (n ≡ mig_restore))
    ⊎ (IsReady m × Refused f × (n ≡ mig_not_init))
Goes cmd f m n = n ≡ m

not_ready_yet : (m : MigState) → m ≢ mig_init → m ≢ mig_track → IsReady m → ⊥
not_ready_yet m a b (inl e) = a e
not_ready_yet m a b (inr e) = b e

restore_ready :
    (cli : ℕ) (c : Control)
    → IsReady c.mig
    → Goes cmd_restore c.file c.mig (do_cmd_restore cli c).mig
unfolding do_cmd_restore check_mig
restore_ready cli c (inl e) = elim (Bool-cases (demu_trigger_resume c.file).1) [
  | inl t ↦ inr (inl (inl e, (λ f. cc), ground arith))
  | inr f ↦ inr (inr (inl e, f, ground arith))
]
restore_ready cli c (inr e) = elim (Bool-cases (demu_trigger_resume c.file).1) [
  | inl t ↦ inr (inl (inr e, (λ f. cc), ground arith))
  | inr f ↦ inr (inr (inr e, f, ground arith))
]

restore-Goes :
    (cli : ℕ) (m : MigState) (c : Control)
    → c.mig ≡ m
    → Goes cmd_restore c.file c.mig (do_cmd_restore cli c).mig
unfolding do_cmd_restore check_mig
restore-Goes cli mig_init c e = restore_ready cli c (inl e)
restore-Goes cli mig_track c e = restore_ready cli c (inr e)
restore-Goes cli mig_not_init c e =
    inl (ground arith, not_ready_yet c.mig (λ f. ground arith) (λ f. ground arith))
restore-Goes cli mig_live c e =
    inl (ground arith, not_ready_yet c.mig (λ f. ground arith) (λ f. ground arith))
restore-Goes cli mig_paused c e =
    inl (ground arith, not_ready_yet c.mig (λ f. ground arith) (λ f. ground arith))
restore-Goes cli mig_restore c e =
    inl (ground arith, not_ready_yet c.mig (λ f. ground arith) (λ f. ground arith))

-- A command moves `runstate.mig` only so: `migrate_init` from no migration to a prepared one,
-- `track_dirty` from there to a tracked one, `migrate_live` and `migrate_nonlive` from these two to a
-- running one, if they move it at all. `restore` always moves it from these two: to a restore if
-- `demu_trigger_resume` accepts, to no migration if it refuses. In any other state these commands
-- leave it, and every other command, the abort included, leaves it in every state.
pub run_command-Goes :
    (cli : ℕ) (cmd : Command) (c : Control) → Goes cmd c.file c.mig (run_command cli cmd c).mig
unfolding run_command do_migrate_init check_mig do_migrate_live do_migrate_nonlive do_migrate_pause
    do_cmd_progress do_track_dirty abort_live do_mig_abort do_cmd_quit ignore do_not_supported
    demu_init_migrate
run_command-Goes cli (cmd_migrate_init none) c = refl
run_command-Goes cli (cmd_migrate_init (some fd)) c = ground arith
run_command-Goes cli cmd_restore c = restore-Goes cli c.mig c refl
run_command-Goes cli cmd_track_dirty c = ground arith
run_command-Goes cli (cmd_migrate_live sem_ok) c = ground arith
run_command-Goes cli cmd_migrate_nonlive c = ground arith
run_command-Goes cli _ c = ground arith
