-- ===== src/Stream.antt =====
-- The migration stream of demu.c: bytes, headers and records, and the functions that read and write
-- them.
--
-- A file or socket is the list of its bytes. What the kernel answers is an argument.
pub mod Bytes
pub mod Read
pub mod Records
pub mod Write
pub mod Dump
mod Tests
use citrix_vgpu.Prelude.{
  ℕ, zero, suc, ◌+◌, ◌-◌, ◌*◌, ◌/◌, ◌%◌, ◌^◌, min, Bool, true, false, not, ◌||◌, ◌&&◌, Option, none,
  some, List, [], ◌∷◌, ◌++◌, length, take, drop, ltb, ◌==◌, if◌then◌else◌, ◌>>=◌,
}
use citrix_vgpu.Statefile.{Statefile, Mode, r_opened, is_closed}

-- A number of `n` bytes in memory, the lowest byte first
unfoldable pub bytes_le : ℕ → ℕ → List ℕ
bytes_le zero x = []
bytes_le (suc n) x = x % 256 ∷ bytes_le n (x / 256)

unfoldable pub value_le : List ℕ → ℕ
value_le [] = 0
value_le (b ∷ l) = b + 256 * value_le l

-- `struct record_header`
pub record Header : Type 0 where
  pub type : ℕ  -- uint16_t
  pub stype : ℕ  -- uint16_t
  pub len : ℕ  -- uint32_t

-- `struct demu_record`, with the data that stand behind the header
pub record Record : Type 0 where
  pub header : Header
  pub payload : List ℕ

-- `P2ROUNDUP(length + sizeof(struct record_header), 8)`, as a `uint32_t`
abbrev pub padded_size : ℕ → ℕ
padded_size len = (len + 8 + 7) / 8 * 8 % 2 ^ 32

-- `padding`
abbrev pub padding : List ℕ
padding = 0x50 ∷ 0x61 ∷ 0x64 ∷ 0x64 ∷ 0x69 ∷ 0x6e ∷ 0x67 ∷ 0 ∷ []

unfoldable pub header_bytes : Header → List ℕ
header_bytes h = bytes_le 2 h.type ++ bytes_le 2 h.stype ++ bytes_le 4 h.len

-- The bytes that `write_record` hands to `do_write`: `payload` has the length of the header.
unfoldable pub record_bytes : Record → List ℕ
record_bytes r =
    header_bytes r.header
    ++ (r.payload ++ take (padded_size r.header.len - 8 - r.header.len) padding)

-- `demu_ident`, `demu_version`, `demu_options`
abbrev pub demu_ident : ℕ
demu_ident = 0x746d662d554d4544

-- The buffer of `write_header`
unfoldable pub stream_header : List ℕ
stream_header = bytes_le 8 demu_ident ++ bytes_le 4 1 ++ bytes_le 4 0

-- The record of `write_footer`; its type is `demu_state_close`.
abbrev pub footer : Record
footer = record { header = record { type = 0; stype = 0; len = 0 }; payload = [] }

-- `read`, asked for `count` bytes with `left` to come: `none` is an error, and `some k` gives at most
-- `k + 1` bytes. At the end of the file it gives none, which `do_read` takes for an error.
abbrev pub Kernel : Type 0
Kernel = ℕ → ℕ → Option ℕ

abbrev pub read_some : Kernel → ℕ → List ℕ → Option ℕ
read_some kernel count [] = none
read_some kernel count (b ∷ l) = elim (kernel count (length (b ∷ l))) [
  | none ↦ none
  | some k ↦ some (min (min (k + 1) count) (length (b ∷ l)))
]

-- The loop of `do_read`, with fuel
unfoldable pub read_loop : Kernel → ℕ → ℕ → List ℕ → Option (List ℕ × List ℕ)
read_loop kernel fuel zero bytes = some ([], bytes)
read_loop kernel zero (suc n) bytes = none
read_loop kernel (suc fuel) (suc n) bytes = elim (read_some kernel (suc n) bytes) [
  | none ↦ none
  | some r ↦ elim (read_loop kernel fuel (suc n - r) (drop r bytes)) [
    | none ↦ none
    | some (more, left) ↦ some (take r bytes ++ more, left)
  ]
]

-- Each round takes a byte at least.
unfoldable pub do_read : Kernel → ℕ → List ℕ → Option (List ℕ × List ℕ)
do_read kernel count bytes = read_loop kernel count count bytes

-- How many bytes `do_read` puts into its buffer, also when it fails; the fuel is that of the loop.
unfoldable pub stored : Kernel → ℕ → ℕ → List ℕ → ℕ
stored kernel fuel zero bytes = 0
stored kernel zero (suc n) bytes = 0
stored kernel (suc fuel) (suc n) bytes = elim (read_some kernel (suc n) bytes) [
  | none ↦ 0
  | some r ↦ r + stored kernel fuel (suc n - r) (drop r bytes)
]

-- `do_read` into a number
abbrev pub read_number : Kernel → ℕ → List ℕ → Option (ℕ × List ℕ)
read_number kernel size bytes = elim (do_read kernel size bytes) [
  | none ↦ none
  | some (l, left) ↦ some (value_le l, left)
]

-- `none` is a return of -1.
unfoldable pub demu_read_header : Kernel → List ℕ → Statefile → Option (Statefile × List ℕ)
demu_read_header kernel bytes s =
    if is_closed s.mode
    then (do
      (ident, left) ← read_number kernel 8 bytes
      (version, left') ← if ident == demu_ident then read_number kernel 4 left else none
      (options, left'') ← if version == 1 then read_number kernel 4 left' else none
      if options == 0 then some (record s { mode = r_opened }, left'') else none)
    else none

-- How `read_record` ends: with a record and the bytes behind it, with -1, or in a read that stores
-- bytes past the buffer of MAX_REC_SIZE bytes.
pub data Reading : Type 0 where
  got : Record → List ℕ → Reading
  refused overrun : Reading

unfoldable pub record_header : List ℕ → Header
record_header l = record {
  type = value_le (take 2 l);
  stype = value_le (take 2 (drop 2 l));
  len = value_le (take 4 (drop 4 l));
}

-- MAX_REC_SIZE
abbrev pub max_rec_size : ℕ
max_rec_size = 8192

-- `read_record` behind the header. The data keep the padding; `padded -= sizeof(rec->header)` is a
-- `uint32_t`. A count past the buffer of which only part comes before the stream ends is an error of
-- `do_read`.
unfoldable pub read_payload : Kernel → Header → List ℕ → Reading
read_payload kernel h bytes =
    let count = (padded_size h.len + 2 ^ 32 - 8) % 2 ^ 32 in
    if ltb max_rec_size (padded_size h.len)
    then refused
    else if ltb (max_rec_size - 8) count
    then (if ltb (max_rec_size - 8) (stored kernel count count bytes) then overrun else refused)
    else elim (do_read kernel count bytes) [
      | none ↦ refused
      | some (l, left) ↦ got (record { header = h; payload = l }) left
    ]

unfoldable pub read_record : Kernel → List ℕ → Reading
read_record kernel bytes = elim (do_read kernel 8 bytes) [
  | none ↦ refused
  | some (l, left) ↦ read_payload kernel (record_header l) left
]
