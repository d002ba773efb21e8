-- ===== src/Statefile.antt =====
-- The migration stream of `demu_state` (demu.c): its mode and file descriptor, and the functions
-- that control.c calls to open, feed, finish and close it.
--
-- A negative `int` that stands for "none" is `none`. What the kernel, the disk and the plugin
-- answer is an argument of each function.
use citrix_vgpu.Prelude.{ℕ, Bool, true, false, Option, none, some, List, ◌∷◌, if◌then◌else◌}

-- SEC_NOTREADY, SEC_CLOSED, SEC_R_OPENED, SEC_W_OPENED
pub data Mode : Type 0 where
  not_ready closed r_opened w_opened : Mode

-- `enum demu_resuming`
pub data Resuming : Type 0 where
  not_resuming set_to_resume resume_when_ready currently_resuming : Resuming

pub record Statefile : Type 0 where
  pub mode : Mode
  pub fd : Option ℕ
  pub offset : Option ℕ  -- `none` for a socket
  pub migrate_abort : Bool
  pub resuming : Resuming
  pub state_dirty : Bool  -- `demu_state_dirty`
  pub vga_dirty : Bool  -- both of `vga_part1_dirty` and `vga_part2_dirty` after `vga_markdirty`
  pub closed_fds : List ℕ  -- the descriptors closed so far, the last one first

-- The sign of an `int` result.
pub data Rc : Type 0 where
  minus null plus : Rc

abbrev pub is_not_ready : Mode → Bool
is_not_ready not_ready = true
is_not_ready _ = false

abbrev pub is_closed : Mode → Bool
is_closed closed = true
is_closed _ = false

abbrev pub is_w_opened : Mode → Bool
is_w_opened w_opened = true
is_w_opened _ = false

abbrev pub close_fd : Option ℕ → List ℕ → List ℕ
close_fd none l = l
close_fd (some n) l = n ∷ l

unfoldable pub closestate : Statefile → Statefile
closestate s = record s { fd = none; closed_fds = close_fd s.fd s.closed_fds; mode = not_ready }

-- `true` is a return of 0.
unfoldable pub demu_init_migrate : ℕ → Statefile → Statefile × Bool
demu_init_migrate n s =
    if is_not_ready s.mode
    then (record s { fd = some n; mode = closed; state_dirty = true; vga_dirty = true }, true)
    else (s, false)

-- The part of `demu_start_migrate` after `fstat`.
unfoldable pub start_at : Bool → Option ℕ → Bool → Statefile → Statefile × Bool
start_at true seek header_ok s = (record s { offset = none; migrate_abort = false }, header_ok)
start_at false none header_ok s = (s, false)
start_at false (some n) header_ok s =
    (record s { offset = some n; migrate_abort = false }, header_ok)

-- `stat_ok`: `fstat` succeeds; `is_sock`: S_ISSOCK; `seek`: what `lseek` returns; `header_ok`:
-- `write_header` returns no error.
unfoldable pub demu_start_migrate : Bool → Bool → Option ℕ → Bool → Statefile → Statefile × Bool
demu_start_migrate stat_ok is_sock seek header_ok s =
    if is_closed s.mode
    then (if stat_ok
        then start_at is_sock seek header_ok (record s { mode = w_opened })
        else (record s { mode = w_opened }, false))
    else (s, false)

-- `demustate_ok`, `vga_ok`: `demu_checksend_demustate` and `dump_vga` return no error; `vmiop` is
-- the sign of what `do_vmiop_dump` returns.
unfoldable pub demu_migrate : Bool → Bool → Rc → Statefile → Rc
demu_migrate demustate_ok vga_ok vmiop s =
    if is_w_opened s.mode
    then if demustate_ok then if vga_ok then vmiop else minus else minus
    else minus

-- `footer_ok`: `write_footer` returns no error.
unfoldable pub demu_finish_migrate : Bool → Statefile → Statefile × Bool
demu_finish_migrate footer_ok s =
    if is_w_opened s.mode then (record s { mode = not_ready }, footer_ok) else (s, false)

unfoldable pub demu_migrate_cleanup : Statefile → Statefile
unfolding closestate
demu_migrate_cleanup s = record (closestate s) { migrate_abort = false }

-- The flag of `demu_migrate_abort`; its notification is sent by the caller's model.
unfoldable pub demu_migrate_abort : Statefile → Statefile
demu_migrate_abort s = record s { migrate_abort = true }

abbrev pub is_set_to_resume : Resuming → Bool
is_set_to_resume set_to_resume = true
is_set_to_resume _ = false

unfoldable pub demu_trigger_resume : Statefile → Statefile × Bool
demu_trigger_resume s =
    if is_set_to_resume s.resuming
    then (record s { resuming = resume_when_ready }, true)
    else (s, false)
