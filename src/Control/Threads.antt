-- ===== src/Control/Threads.antt =====
-- Interleavings of the commands of control.c with the thread that runs `migrate_loop`, and with the
-- end of a restore.
--
-- The thread's part is cut where it touches shared state: `demu_start_migrate`,
-- `demu_finish_migrate`, `demu_migrate_cleanup` with the events, and the locked end. Between any
-- two of them commands may run.
use citrix_vgpu.Prelude.{◌∷◌, ℕ, ◌≡◌, ◌≢◌, ◌⊎◌, Bool, Option, none, some, arith}
use citrix_vgpu.Statefile.{
  closed, Statefile, not_ready, set_to_resume, closestate, demu_start_migrate, demu_finish_migrate,
  demu_migrate_cleanup, demu_migrate_abort, demu_init_migrate, demu_trigger_resume, start_at,
}
use citrix_vgpu.Control.{
  send_return, mig_init, demu_control_sock_init, mig_not_init, mig_live, mig_paused, mig_restore,
  Control, Command, cmd_restore, run_command, report_completed, report_resume_done, migration_over,
  do_migrate_init, check_mig, do_migrate_live, do_migrate_nonlive, do_migrate_pause,
  do_cmd_progress, do_track_dirty, abort_live, do_mig_abort, do_cmd_quit, ignore, do_not_supported,
  do_cmd_restore, cmd_migrate_init,
}

-- Where the thread is: not in a migration, in `migrate_loop`, or past `demu_migrate_cleanup`.
pub data Phase : Type 0 where
  outside looping cleaned : Phase

abbrev pub IsRunning : Control → Type 0
IsRunning c = (c.mig ≡ mig_live) ⊎ (c.mig ≡ mig_paused)

-- A command that starts a migration puts the thread into the loop.
abbrev pub phase_after : Control → Phase → Phase
phase_after c' looping = looping
phase_after c' cleaned = cleaned
phase_after c' outside = elim c'.mig [ mig_live ↦ looping | mig_paused ↦ looping | _ ↦ outside ]

pub data Step : Control → Phase → Control → Phase → Type 0 where
  command :
      (cli : ℕ) (cmd : Command) (c : Control) (p : Phase)
      → (cmd ≡ cmd_restore → c.file.resuming ≡ set_to_resume)
      → Step c p (run_command cli cmd c) (phase_after (run_command cli cmd c) p)
  starts :
      (stat_ok is_sock : Bool) (seek : Option ℕ) (header_ok : Bool) (c : Control)
      → Step c looping
          (record c { file = (demu_start_migrate stat_ok is_sock seek header_ok c.file).0 })
          looping
  finishes :
      (footer_ok : Bool) (c : Control)
      → Step c looping (record c { file = (demu_finish_migrate footer_ok c.file).0 }) looping
  cleans :
      (ok : Bool) (c : Control)
      → Step c looping
          (report_completed ok (record c { file = demu_migrate_cleanup c.file }))
          cleaned
  ends : (c : Control) → Step c cleaned (migration_over c) outside
  restored :
      (ok : Bool) (c : Control) (p : Phase)
      → c.mig ≡ mig_restore
      → Step c p (report_resume_done ok (record c { file = closestate c.file })) p

pub data Reach (c : Control) (p : Phase) : Control → Phase → Type 0 where
  here : Reach c p c p
  next :
      {c' c'' : Control} {p' p'' : Phase} → Reach c p c' p' → Step c' p' c'' p'' → Reach c p c'' p''

-- With no migration the stream is closed, and so it is when the thread is past its cleanup; the
-- thread is in a migration exactly if `runstate.mig` says so.
pub record Inv (c : Control) (p : Phase) : Type 0 where
  pub idle : c.mig ≡ mig_not_init → c.file.mode ≡ not_ready
  pub outside_idle : p ≡ outside → IsRunning c → ⊥
  pub running : p ≢ outside → IsRunning c
  pub cleaned_up : p ≡ cleaned → c.file.mode ≡ not_ready

command-Inv :
    (cli : ℕ) (cmd : Command) (c : Control) (p : Phase)
    → (cmd ≡ cmd_restore → c.file.resuming ≡ set_to_resume)
    → Inv c p
    → Inv (run_command cli cmd c) (phase_after (run_command cli cmd c) p)
unfolding run_command do_migrate_init check_mig do_migrate_live do_migrate_nonlive do_migrate_pause
    do_cmd_progress do_track_dirty abort_live do_mig_abort do_cmd_quit ignore do_not_supported
    do_cmd_restore demu_init_migrate demu_trigger_resume demu_migrate_cleanup demu_migrate_abort
command-Inv cli (cmd_migrate_init none) c p h v = ground arith
command-Inv cli (cmd_migrate_init (some fd)) c p h v = ground arith
command-Inv cli _ c p h v = ground arith

pub Step-Inv : {c c' : Control} {p p' : Phase} → Step c p c' p' → Inv c p → Inv c' p'
unfolding demu_start_migrate start_at demu_finish_migrate demu_migrate_cleanup closestate
    report_completed report_resume_done migration_over
Step-Inv (command cli cmd c p h) v = command-Inv cli cmd c p h v
Step-Inv (starts stat_ok is_sock seek header_ok c) v = ground arith
Step-Inv (finishes footer_ok c) v = ground arith
Step-Inv (cleans ok c) v = ground arith
Step-Inv (ends c) v = ground arith
Step-Inv (restored ok c p e) v = ground arith

Reach-Inv :
    {c : Control} {p : Phase} {c' : Control} {p' : Phase} → Inv c p → Reach c p c' p' → Inv c' p'
Reach-Inv v here = v
Reach-Inv v (next r st) = Step-Inv st (Reach-Inv v r)

init-Inv : (f : Statefile) → f.mode ≡ not_ready → Inv (demu_control_sock_init f) outside
unfolding demu_control_sock_init
init-Inv f h = ground arith

-- From the program's start, with the stream closed, under every interleaving of commands with the
-- migration thread in which no restore is refused for want of `set_to_resume`: when no migration is
-- in progress, `migrate_init` with a descriptor is accepted, takes the descriptor and opens the
-- stream.
pub init_accepted :
    (f : Statefile) (c : Control) (p : Phase) (cli fd : ℕ)
    → f.mode ≡ not_ready
    → Reach (demu_control_sock_init f) outside c p
    → c.mig ≡ mig_not_init
    → let c' = do_migrate_init cli (some fd) c in
      (c'.mig ≡ mig_init)
      × (c'.file.mode ≡ closed)
      × (c'.file.fd ≡ some fd)
      × (c'.sent ≡ send_return cli ∷ c.sent)
unfolding do_migrate_init demu_init_migrate
init_accepted f c p cli fd h r m = ground (arith, Reach-Inv (init-Inv f h) r)
