-- ===== src/Control.antt =====
-- The commands of the control socket (control.c): `runstate`, the semaphore `sem_stopped`, the two
-- clients, and one function for each `do_*` handler.
--
-- A client is its number, `none` for -1. libempserver, the vmiop plugin and Xen are outside the
-- repository: what they answer is an argument, and what is sent to them goes to `sent`, the last
-- first. A handler that releases the lock is modelled up to `emp_unlock`, and its last part, from
-- `emp_lock` on, as `migration_over`; `migrate_loop` stands in Control/Loop.antt.
pub mod Loop
pub mod Cycle
pub mod Stuck
pub mod Threads
mod Tests
use citrix_vgpu.Prelude.{
  ℕ, zero, suc, ◌+◌, ◌≡◌, Bool, true, false, Option, none, some, List, [], ◌∷◌, if◌then◌else◌, not,
  ◌==◌,
}
use citrix_vgpu.Statefile.{
  Statefile, demu_init_migrate, demu_migrate_cleanup, demu_migrate_abort, demu_trigger_resume,
}

pub data MigState : Type 0 where
  mig_not_init mig_init mig_track mig_live mig_paused mig_restore : MigState

-- The texts of `emp_send_error`.
pub data Refusal : Type 0 where
  need_fd busy bad_fd init_first internal must_be_paused already_paused stop_error bad_state
        not_in_progress not_supported :
      Refusal

pub data Phase : Type 0 where
  track_modified quiesce migration_none resume : Phase

pub data Message : Type 0 where
  send_return : ℕ → Message
  send_error : ℕ → Refusal → Message
  completed : Option ℕ → Bool → Message  -- emp_send_event_migrate_completed
  notify : Phase → Message  -- vmiope_notify_device
  shutdown : Message  -- demu_shutdown

pub record Control : Type 0 where
  pub paused : Bool
  pub mig : MigState
  pub sem_stopped : ℕ
  pub progress_cli : Option ℕ
  pub initiator_cli : Option ℕ
  pub file : Statefile
  pub sent : List Message

abbrev pub is_not_init : MigState → Bool
is_not_init mig_not_init = true
is_not_init _ = false

abbrev pub is_init : MigState → Bool
is_init mig_init = true
is_init _ = false

abbrev pub is_live : MigState → Bool
is_live mig_live = true
is_live _ = false

-- `mig > mig_track`
abbrev pub after_track : MigState → Bool
after_track mig_not_init = false
after_track mig_init = false
after_track mig_track = false
after_track _ = true

-- `mig > mig_init`
abbrev pub after_init : MigState → Bool
after_init mig_not_init = false
after_init mig_init = false
after_init _ = true

abbrev pub send : Message → Control → Control
send m c = record c { sent = m ∷ c.sent }

-- The end of `do_migrate_init`, by the result of `demu_init_migrate`.
abbrev pub init_answer : ℕ → Statefile × Bool → Control → Control
init_answer cli (f, true) c = send (send_return cli) (record c { mig = mig_init; file = f })
init_answer cli (f, false) c =
    send (send_error cli bad_fd) (record c { file = f; mig = mig_not_init })

-- `fd` is the descriptor that came with the call, if one did.
unfoldable pub do_migrate_init : ℕ → Option ℕ → Control → Control
do_migrate_init cli none c = send (send_error cli need_fd) c
do_migrate_init cli (some fd) c =
    if is_not_init c.mig
    then init_answer cli (demu_init_migrate fd c.file) c
    else send (send_error cli busy)
        (record c { file = record c.file { closed_fds = fd ∷ c.file.closed_fds } })

-- The refusal of `check_mig`, if it refuses.
unfoldable pub check_mig : MigState → Option Refusal
check_mig mig_not_init = some init_first
check_mig mig = if after_track mig then some busy else none

-- `do_migrate_live` up to `emp_unlock`, and whether it goes on to `migrate_loop`.
unfoldable pub do_migrate_live : ℕ → Bool → Control → Control × Bool
do_migrate_live cli sem_init_ok c = elim (check_mig c.mig) [
  | some e ↦ (send (send_error cli e) c, false)
  | none ↦
      if sem_init_ok
      then (
        send (send_return cli)
            (record c { sem_stopped = 0; initiator_cli = some cli; mig = mig_live }),
        true,
      )
      else (send (send_error cli internal) c, false)
]

-- The same of `do_migrate_nonlive`.
unfoldable pub do_migrate_nonlive : ℕ → Control → Control × Bool
do_migrate_nonlive cli c = elim (check_mig c.mig) [
  | some e ↦ (send (send_error cli e) c, false)
  | none ↦
      if c.paused
      then (send (send_return cli) (record c { mig = mig_paused; initiator_cli = some cli }), true)
      else (send (send_error cli must_be_paused) c, false)
]

-- The end of both, after `migrate_loop`: `emp_lock` to `emp_unlock`.
unfoldable pub migration_over : Control → Control
migration_over c = record c { mig = mig_not_init; paused = false }

-- `stop_ok`: `xc_hvm_set_ioreq_server_state` returns 0 in `demu_migrate_phase_stop`.
unfoldable pub do_migrate_pause : ℕ → Bool → Control → Control
do_migrate_pause cli stop_ok c =
    if c.paused
    then send (send_error cli already_paused) c
    else send (if stop_ok then send_return cli else send_error cli stop_error)
        (send (notify quiesce) (record c { paused = true; sem_stopped = c.sem_stopped + 1 }))

unfoldable pub do_cmd_progress : ℕ → Control → Control
do_cmd_progress cli c = send (send_return cli) (record c { progress_cli = some cli })

unfoldable pub do_track_dirty : ℕ → Control → Control
do_track_dirty cli c =
    let c' = if is_init c.mig then record c { mig = mig_track } else c in
    if is_not_init c.mig
    then send (send_error cli bad_state) c'
    else if after_track c.mig
    then send (send_error cli bad_state) c'
    else send (send_return cli) (send (notify track_modified) c')

-- The first part of `do_mig_abort`: what it does to a running migration.
unfoldable pub abort_live : Control → Control
abort_live c =
    if is_live c.mig
    then send (notify migration_none) (record c {
      file = demu_migrate_abort c.file;
      sem_stopped = if c.paused then c.sem_stopped else c.sem_stopped + 1;
    })
    else c

unfoldable pub do_mig_abort : ℕ → Control → Control
do_mig_abort cli c =
    let stopped = abort_live c in
    let cleaned = record stopped {
      file = if after_init c.mig then demu_migrate_cleanup stopped.file else stopped.file;
      paused = false;
    } in
    if is_not_init c.mig
    then send (send_error cli not_in_progress)
        (if c.paused then send (notify resume) cleaned else cleaned)
    else send (send_return cli) cleaned

unfoldable pub do_cmd_quit : ℕ → Control → Control
do_cmd_quit cli c =
    if is_not_init c.mig
    then send shutdown (send (send_return cli) c)
    else send (send_error cli busy) c

unfoldable pub ignore : ℕ → Control → Control
ignore cli c = send (send_return cli) c

unfoldable pub do_not_supported : ℕ → Control → Control
do_not_supported cli c = send (send_error cli not_supported) c

unfoldable pub do_cmd_restore : ℕ → Control → Control
do_cmd_restore cli c = elim (check_mig c.mig) [
  | some e ↦ send (send_error cli e) c
  | none ↦
      let (f, done) = demu_trigger_resume c.file in
      if done
      then send (send_return cli)
          (record c { mig = mig_restore; initiator_cli = some cli; file = f })
      else send (send_error cli bad_state)
          (record c { mig = mig_not_init; initiator_cli = some cli; file = f })
]

-- The events that `migrate_loop` and `report_resume_done` send at their end.
abbrev pub same_client : Option ℕ → Option ℕ → Bool
same_client none none = true
same_client (some a) (some b) = a == b
same_client _ _ = false

abbrev pub to_progress : Option ℕ → Bool → Control → Control
to_progress none ok c = c
to_progress (some n) ok c = send (completed (some n) ok) c

unfoldable pub report_completed : Bool → Control → Control
report_completed ok c =
    let c' = to_progress c.progress_cli ok c in
    if same_client c.progress_cli c.initiator_cli
    then c'
    else send (completed c.initiator_cli ok) c'

unfoldable pub report_resume_done : Bool → Control → Control
report_resume_done ok c = report_completed ok (record c { mig = mig_not_init })

-- `demu_control_sock_init`, on the static state at the program's start.
unfoldable pub demu_control_sock_init : Statefile → Control
demu_control_sock_init f = record {
  paused = false;
  mig = mig_not_init;
  sem_stopped = 0;
  progress_cli = none;
  initiator_cli = none;
  file = f;
  sent = [];
}

-- The commands of `demu_actions`, with what comes with each call.
pub data Command : Type 0 where
  cmd_track_dirty cmd_migrate_abort cmd_migrate_paused cmd_migrate_progress cmd_migrate_nonlive
        cmd_quit cmd_restore cmd_set_args :
      Command
  cmd_migrate_init : Option ℕ → Command
  cmd_migrate_live : Bool → Command
  cmd_migrate_pause : Bool → Command

-- `demu_actions`.
unfoldable pub run_command : ℕ → Command → Control → Control
run_command cli cmd_track_dirty c = do_track_dirty cli c
run_command cli cmd_migrate_abort c = do_mig_abort cli c
run_command cli (cmd_migrate_init fd) c = do_migrate_init cli fd c
run_command cli (cmd_migrate_live sem_ok) c = (do_migrate_live cli sem_ok c).0
run_command cli (cmd_migrate_pause stop_ok) c = do_migrate_pause cli stop_ok c
run_command cli cmd_migrate_paused c = ignore cli c
run_command cli cmd_migrate_progress c = do_cmd_progress cli c
run_command cli cmd_migrate_nonlive c = (do_migrate_nonlive cli c).0
run_command cli cmd_quit c = do_cmd_quit cli c
run_command cli cmd_restore c = do_cmd_restore cli c
run_command cli cmd_set_args c = do_not_supported cli c
