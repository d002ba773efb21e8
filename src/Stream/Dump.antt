-- ===== src/Stream/Dump.antt =====
-- `do_vmiop_dump` of demu.c: a record of the plugin's data, and the counters of what has been sent.
--
-- The plugin's answer is an argument: an error, or its data and how much is left. `none` where a record
-- is returned means that `write_record` is not called.
pub mod Phase
use citrix_vgpu.Prelude.{
  leb, ℕ, zero, suc, ◌+◌, ◌%◌, ◌^◌, Bool, true, false, Option, none, some, List, [], ◌∷◌, length,
  ltb, ◌||◌, if◌then◌else◌,
}
use citrix_vgpu.Statefile.{Rc, minus, null, plus}
use citrix_vgpu.Stream.{Record}

-- `sent_stats`
pub record Stats : Type 0 where
  pub sent : ℕ
  pub remaining : ℕ
  pub total_sent : ℕ
  pub times_sent : ℕ
  pub rtotal_sent : ℕ
  pub rtimes_sent : ℕ

abbrev pub plus64 : ℕ → ℕ → ℕ
plus64 a b = (a + b) % 2 ^ 64

pub data PluginAnswer : Type 0 where
  plugin_error : PluginAnswer
  given : List ℕ → ℕ → PluginAnswer  -- the data, and `bytes_remaining`

-- The record of the plugin's data: demu_state_vmiope is 3.
unfoldable pub plugin_record : List ℕ → Record
plugin_record bytes = record {
  header = record { type = 3; stype = 0; len = length bytes % 2 ^ 32 };
  payload = bytes;
}

-- The counters after the plugin has given `n` bytes
unfoldable pub count_sent : ℕ → ℕ → Stats → Stats
count_sent n left s =
    let counted = record s {
      sent = plus64 s.sent n;
      remaining = left;
      rtotal_sent = plus64 s.rtotal_sent n;
      rtimes_sent = plus64 s.rtimes_sent 1;
    } in
    if leb 50000000 counted.rtotal_sent || leb 10000 counted.rtimes_sent
    then record counted {
      total_sent = plus64 counted.total_sent counted.rtotal_sent;
      times_sent = plus64 counted.times_sent counted.rtimes_sent;
      rtotal_sent = 0;
      rtimes_sent = 0;
    }
    else counted

abbrev pub finish_phase : Stats → Stats
finish_phase s = record s { total_sent = 0; times_sent = 0; rtotal_sent = 0; rtimes_sent = 0 }

-- The counters, the record handed to `write_record`, and the result
unfoldable pub do_vmiop_dump :
    Bool → Bool → PluginAnswer → Bool → Stats → Stats × Option Record × Rc
do_vmiop_dump migrate_abort malloc_ok answer write_ok s =
    if migrate_abort
    then (s, none, minus)
    else if malloc_ok
    then elim answer [
      | plugin_error ↦ (s, none, minus)
      | given bytes left ↦
          let s' = count_sent (length bytes) left s in
          elim bytes [
            | [] ↦ (finish_phase s', none, null)
            | b ∷ l ↦ (s', some (plugin_record (b ∷ l)), if write_ok then plus else minus)
          ]
    ]
    else (s, none, minus)

-- `get_sent_stats`, where the mutex gives no error
unfoldable pub get_sent_stats : Bool → Stats → Stats × ℕ × ℕ
get_sent_stats reset s = (if reset then record s { sent = 0 } else s, s.sent, s.remaining)
