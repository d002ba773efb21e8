-- ===== src/Log.antt =====
-- The last messages of demu.c: `demu_log_context` and `demu_dump_context`.
--
-- A message is of any type `Msg`; formatting and `syslog` are left out. `vsnprintf` is taken to give
-- no error.
pub mod Last
use citrix_vgpu.Prelude.{
  ℕ, zero, suc, ◌+◌, ◌-◌, Bool, true, false, List, [], ◌∷◌, ltb, leb, ◌==◌, if◌then◌else◌, update,
}

-- `db_buff`, `dbg_buff_pos` and `dbg_buff_sz`
pub record Ring (Msg : Type 0) : Type 0 where
  pub buff : ℕ → Msg
  pub pos : ℕ
  pub size : ℕ

-- MAX_SPAM
abbrev pub max_spam : ℕ
max_spam = 6

module _ {Msg : Type 0} where
  abbrev pub update_at : (ℕ → Msg) → ℕ → Msg → ℕ → Msg
  update_at buff i msg j = if j == i then msg else buff j

  unfoldable pub demu_log_context : Msg → Ring Msg → Ring Msg
  demu_log_context msg r = record {
    buff = update_at r.buff r.pos msg;
    pos = if r.pos + 1 == max_spam then 0 else r.pos + 1;
    size = if leb r.size max_spam then r.size + 1 else r.size;
  }

  -- The loop of `demu_dump_context`: what is written, the first line first
  unfoldable pub dump_loop : ℕ → ℕ → (ℕ → Msg) → List Msg
  dump_loop zero pos buff = []
  dump_loop (suc size) pos buff =
      let before = (if pos == 0 then max_spam else pos) - 1 in
      buff before ∷ dump_loop size before buff

  -- Whether "..." is written, the messages written, and the ring
  unfoldable pub demu_dump_context : Ring Msg → Bool × List Msg × Ring Msg
  demu_dump_context r =
      let more = ltb max_spam r.size in
      let size = if more then r.size - 1 else r.size in
      (more, dump_loop size r.pos r.buff, record r { size = 0 })
