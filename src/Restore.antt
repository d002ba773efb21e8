-- ===== src/Restore.antt =====
-- The restore of demu.c: `readstate` with the handlers of each kind of record, and `demu_get_state`.
--
-- The vmiop plugin is outside the repository: `plugin_ok` says whether it takes the data of a record.
pub mod Whole
pub mod Ends
pub mod Migrate
pub mod Plugin
mod Tests
use citrix_vgpu.Prelude.{
  ℕ, zero, suc, ◌+◌, ◌-◌, Bool, true, false, Option, none, some, List, [], ◌∷◌, ◌++◌, length, take,
  leb, ◌==◌, if◌then◌else◌,
}
use citrix_vgpu.Statefile.{Statefile, Resuming, currently_resuming, resume_when_ready, closestate}
use citrix_vgpu.Stream.{
  Kernel, Header, Record, Reading, got, refused, overrun, read_record, demu_read_header, footer,
}
use citrix_vgpu.Vga.{Vga}
use citrix_vgpu.Vga.State.{read_vga, state_vga}

-- What the records of a stream change
pub record Device : Type 0 where
  pub vga : Vga
  pub state_dirty : Bool  -- `demu_state_dirty`
  pub plugin : List (List ℕ)  -- the data that the plugin has taken, the first first

-- What `process_record` returns: 0, 1 or -1. `overread` is a copy from past the buffer.
pub data Processed : Type 0 where
  go_on closed failed overread : Processed

-- `demu_read_demustate`
unfoldable pub demu_read_demustate : Record → Device → Device × Processed
demu_read_demustate r d =
    if r.header.len == 8 then (record d { state_dirty = false }, go_on) else (d, failed)

-- `read_vmiope`. The plugin is given as many bytes as the header says.
unfoldable pub read_vmiope : (List ℕ → Bool) → Record → Device → Device × Processed
read_vmiope plugin_ok r d =
    let chunk = take r.header.len r.payload in
    if r.header.stype == 1
    then (d, go_on)
    else if leb r.header.len (length r.payload)
    then (if plugin_ok chunk
        then (record d { plugin = d.plugin ++ (chunk ∷ []) }, go_on)
        else (d, failed))
    else (d, overread)

abbrev pub process_vga : Record → Device → Device × Processed
process_vga r d = elim (read_vga r d.vga) [
  | none ↦ (d, failed)
  | some v ↦ (record d { vga = v }, go_on)
]

-- demu_state_close, demu_state_demu, demu_state_vga and demu_state_vmiope are 0 to 3.
unfoldable pub process_record : (List ℕ → Bool) → Record → Device → Device × Processed
process_record plugin_ok r d =
    if r.header.type == 0
    then (d, closed)
    else if r.header.type == 1
    then demu_read_demustate r d
    else if r.header.type == state_vga
    then process_vga r d
    else if r.header.type == 3
    then read_vmiope plugin_ok r d
    else (d, failed)

-- How `readstate` ends. `memory_error` is a read past the buffer, and `running` a loop that has not
-- ended.
pub data Restored : Type 0 where
  success failure memory_error running : Restored

unfoldable pub readstate : Kernel → (List ℕ → Bool) → ℕ → List ℕ → Device → Device × Restored
readstate kernel plugin_ok zero bytes d = (d, running)
readstate kernel plugin_ok (suc fuel) bytes d = elim (read_record kernel bytes) [
  | refused ↦ (d, failure)
  | overrun ↦ (d, memory_error)
  | got r left ↦
      let (d', done) = process_record plugin_ok r d in
      elim done [
        | go_on ↦ readstate kernel plugin_ok fuel left d'
        | closed ↦ (d', success)
        | failed ↦ (d', failure)
        | overread ↦ (d', memory_error)
      ]
]

-- `demu_get_state` behind `listen_and_wait_to_resume`, which `waited` says has returned 0: the stream
-- of `bytes` is that of `statefile_fd`. The stream is closed on every path.
unfoldable pub demu_get_state :
    Bool
    → Kernel
    → (List ℕ → Bool)
    → ℕ
    → List ℕ
    → Statefile
    → Device
    → Statefile × Device × Restored
demu_get_state waited kernel plugin_ok fuel bytes s d =
    let resuming = record s { resuming = currently_resuming } in
    if waited
    then elim s.fd [
      | none ↦ (closestate s, d, failure)
      | some fd ↦ elim (demu_read_header kernel bytes resuming) [
        | none ↦ (closestate resuming, d, failure)
        | some (s', left) ↦
            let (d', r) = readstate kernel plugin_ok fuel left d in (closestate s', d', r)
      ]
    ]
    else (closestate s, d, failure)
