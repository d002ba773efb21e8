-- ===== src/Console.antt =====
-- The console of demu.c: `demu_console_start`, `demu_console_stop`, `demu_console_refresh`,
-- `demu_socket_read`.
--
-- The drawing of `surface_refresh` and the answer of the plugin to the console's state have no effect
-- here. What `recvfrom` and `timer_settime` return is an argument.
pub mod Refresh
mod Tests
use citrix_vgpu.Prelude.{ℕ, ◌-◌, Bool, true, false, Option, none, some, ltb, ◌==◌, if◌then◌else◌}

-- The fields of `demu_state` that take part, and whether the timer runs
pub record Console : Type 0 where
  pub scount : ℕ  -- unsigned int
  pub console_active : Bool
  pub full_update : Bool
  pub timer_runs : Bool

-- `true` is a return of 0.
unfoldable pub demu_console_start : Bool → Console → Console × Bool
demu_console_start timer_ok c =
    if timer_ok
    then (record c { timer_runs = true; console_active = true; full_update = true }, true)
    else (c, false)

unfoldable pub demu_console_stop : Bool → Console → Console × Bool
demu_console_stop timer_ok c =
    let c' = record c { console_active = false } in
    if timer_ok then (record c' { timer_runs = false }, true) else (c', false)

-- `vga_state` is what `vmiop_vga_in_VGA_state` returns. `none` is the failed assertion.
unfoldable pub demu_console_refresh : Bool → Bool → Console → Option Console
demu_console_refresh vga_state timer_ok c =
    let drawn = if vga_state then record c { full_update = false } else c in
    let counted = record drawn { scount = drawn.scount - 1 } in
    if c.console_active
    then if ltb 0 drawn.scount
      then some (if counted.scount == 0 then (demu_console_stop timer_ok counted).0 else counted)
      else none
    else some c

-- 5000000 / CONSOLE_REFRESH_PERIOD
abbrev pub refreshes : ℕ
refreshes = 125

-- `got_byte`: `recvfrom` returned 1.
unfoldable pub demu_socket_read : Bool → Bool → Console → Console
demu_socket_read got_byte timer_ok c =
    let c' = if got_byte then record c { scount = refreshes } else c in
    if c'.console_active then c' else (demu_console_start timer_ok c').0
