-- ===== src/Control/Tests.antt =====
-- The commands and the migration loop of control.c on concrete states.
use citrix_vgpu.Prelude.{◌≡◌, refl, List, [], ◌∷◌, true, false, some, none, inl, inr}
use citrix_vgpu.Statefile.{Statefile, not_ready, closed, w_opened, not_resuming, null, plus, Rc}
use citrix_vgpu.Control.{
  do_track_dirty, Control, demu_control_sock_init, mig_not_init, mig_init, mig_live, run_command,
  cmd_track_dirty, do_migrate_init, do_migrate_live, send_return, check_mig,
}
use citrix_vgpu.Control.Loop.{Round, Call, rounds, rounds_end}
use citrix_vgpu.Control.Cycle.{replies, replies-run_command, Goes, run_command-Goes}
use citrix_vgpu.Control.Threads.{Reach, here, next, command, outside, init_accepted}

abbrev at_start : Statefile
at_start = record {
  mode = not_ready;
  fd = none;
  offset = none;
  migrate_abort = false;
  resuming = not_resuming;
  state_dirty = false;
  vga_dirty = false;
  closed_fds = [];
}

abbrev opened : Statefile
opened = record at_start { mode = closed; fd = some 9 }

-- A migration is prepared, with the device paused.
abbrev prepared : Control
prepared = record {
  paused = true;
  mig = mig_init;
  sem_stopped = 1;
  progress_cli = some 4;
  initiator_cli = none;
  file = opened;
  sent = [];
}

abbrev sending : Control
sending = record prepared { mig = mig_live; file = record opened { mode = w_opened } }

replies-run_command_example : replies 5 (run_command 5 cmd_track_dirty prepared).sent ≡ 1
replies-run_command_example = replies-run_command 5 cmd_track_dirty prepared

run_command-Goes_example :
    Goes cmd_track_dirty opened mig_init (run_command 5 cmd_track_dirty prepared).mig
run_command-Goes_example = run_command-Goes 5 cmd_track_dirty prepared

-- The plugin gives data twice, then none; the pause comes; a last call finds nothing.
abbrev script : List Round
script =
    record { semaphore = some 0; migrate = plus; wait = some true; again = null }
    ∷ record { semaphore = some 0; migrate = null; wait = some true; again = null }
    ∷ []

rounds_end_example : (r : Rc) × (calls : List Call) × (rounds false script ≡ some (r, calls))
rounds_end_example =
    rounds_end true script ((λ e. λ f. cc), inr ((λ e. λ f. cc), inl (λ e. cc, λ e. cc)))

abbrev loop_file : Statefile
loop_file = record opened { mode = not_ready; fd = none; closed_fds = 9 ∷ [] }

-- The program's start, and a command that needs a migration
abbrev first_reach : Control
first_reach = run_command 5 cmd_track_dirty (demu_control_sock_init at_start)

reached : Reach (demu_control_sock_init at_start) outside first_reach outside
unfolding run_command do_track_dirty demu_control_sock_init
reached = next here (command 5 cmd_track_dirty (demu_control_sock_init at_start) outside (λ e. cc))

reached_idle : first_reach.mig ≡ mig_not_init
unfolding run_command do_track_dirty demu_control_sock_init
reached_idle = refl

init_accepted_example :
    let c' = do_migrate_init 5 (some 9) first_reach in
    (c'.mig ≡ mig_init)
    × (c'.file.mode ≡ closed)
    × (c'.file.fd ≡ some 9)
    × (c'.sent ≡ send_return 5 ∷ first_reach.sent)
init_accepted_example = init_accepted at_start first_reach outside 5 9 refl reached reached_idle

live_starts : (do_migrate_live 5 true prepared).1 ≡ true
unfolding do_migrate_live check_mig
live_starts = refl
