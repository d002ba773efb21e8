-- ===== src/Control/Stuck.antt =====
-- Commands of control.c that are refused or end a migration early, and the commands after them.
use citrix_vgpu.Prelude.{ℕ, ◌≡◌, ◌≢◌, Bool, true, none, some, List, [], ◌∷◌, arith}
use citrix_vgpu.Statefile.{
  not_ready, set_to_resume, demu_migrate_cleanup, demu_migrate_abort, demu_init_migrate,
  demu_trigger_resume,
}
use citrix_vgpu.Control.{
  mig_not_init, Control, Command, run_command, do_migrate_init, check_mig, do_migrate_live,
  do_migrate_nonlive, do_migrate_pause, do_cmd_progress, do_track_dirty, abort_live, do_mig_abort,
  do_cmd_quit, ignore, do_not_supported, do_cmd_restore, cmd_migrate_init, send_error, busy, bad_fd,
}
use citrix_vgpu.Control.Cycle.{IsReady}

-- No migration is in progress, and the stream is not closed.
pub record Stuck (c : Control) : Type 0 where
  pub idle : c.mig ≡ mig_not_init
  pub open_stream : c.file.mode ≢ not_ready

-- A restore that is refused because the program was not started with --resume leaves the stream of
-- `migrate_init` behind it.
pub do_cmd_restore-Stuck :
    (cli : ℕ) (c : Control)
    → IsReady c.mig
    → c.file.mode ≢ not_ready
    → c.file.resuming ≢ set_to_resume
    → Stuck (do_cmd_restore cli c)
unfolding do_cmd_restore check_mig demu_trigger_resume
do_cmd_restore-Stuck cli c r m n = ground arith

Stuck-run_command :
    (cli : ℕ) (cmd : Command) (c : Control) → Stuck c → Stuck (run_command cli cmd c)
unfolding run_command do_migrate_init check_mig do_migrate_live do_migrate_nonlive do_migrate_pause
    do_cmd_progress do_track_dirty abort_live do_mig_abort do_cmd_quit ignore do_not_supported
    do_cmd_restore demu_init_migrate demu_trigger_resume demu_migrate_cleanup demu_migrate_abort
Stuck-run_command cli (cmd_migrate_init none) c s = ground arith
Stuck-run_command cli (cmd_migrate_init (some fd)) c s = ground arith
Stuck-run_command cli _ c s = ground arith

abbrev pub run_commands : List (ℕ × Command) → Control → Control
run_commands [] c = c
run_commands ((cli, cmd) ∷ l) c = run_commands l (run_command cli cmd c)

Stuck-run_commands : (l : List (ℕ × Command)) (c : Control) → Stuck c → Stuck (run_commands l c)
Stuck-run_commands [] c s = s
Stuck-run_commands ((cli, cmd) ∷ l) c s =
    Stuck-run_commands l (run_command cli cmd c) (Stuck-run_command cli cmd c s)

-- After a restore that is refused because `demu_resuming` is not `set_to_resume`, with a migration
-- prepared and its stream open, no sequence of commands helps: every later `migrate_init` with a
-- descriptor is answered "bad fd".
pub refused_restore_sticks :
    (cli cli' fd : ℕ) (c : Control) (l : List (ℕ × Command))
    → IsReady c.mig
    → c.file.mode ≢ not_ready
    → c.file.resuming ≢ set_to_resume
    → let c' = run_commands l (do_cmd_restore cli c) in
      (do_migrate_init cli' (some fd) c').sent ≡ send_error cli' bad_fd ∷ c'.sent
unfolding do_migrate_init demu_init_migrate
refused_restore_sticks cli cli' fd c l r m n =
    ground (arith, Stuck-run_commands l (do_cmd_restore cli c) (do_cmd_restore-Stuck cli c r m n))

-- An abort when a migration is prepared or tracked, and not yet running, leaves `runstate.mig` as
-- it is, so the next `migrate_init` with a descriptor is answered "busy" and its descriptor is
-- closed.
pub abort_keeps_busy :
    (cli cli' fd : ℕ) (c : Control)
    → IsReady c.mig
    → let c' = do_mig_abort cli c in
      (c'.mig ≡ c.mig)
      × ((do_migrate_init cli' (some fd) c').sent ≡ send_error cli' busy ∷ c'.sent)
      × ((do_migrate_init cli' (some fd) c').file.closed_fds ≡ fd ∷ c'.file.closed_fds)
unfolding do_migrate_init do_mig_abort abort_live
abort_keeps_busy cli cli' fd c r = ground arith

-- If the device is paused when `migrate_live` is accepted, the pause is lost: the command sets
-- `sem_stopped` back to 0, a second pause is refused, and an abort does not post the semaphore that
-- the loop waits on.
pub pause_before_live_lost :
    (cli cli' : ℕ) (stop_ok : Bool) (c : Control)
    → c.paused ≡ true
    → (do_migrate_live cli true c).1 ≡ true
    → let c' = (do_migrate_live cli true c).0 in
      (c'.sem_stopped ≡ 0)
      × ((do_migrate_pause cli' stop_ok c').sem_stopped ≡ 0)
      × ((do_mig_abort cli' c').sem_stopped ≡ 0)
unfolding do_migrate_live do_migrate_pause do_mig_abort abort_live
pause_before_live_lost cli cli' stop_ok c p s = ground arith
