-- ===== src/Ioreq/Ring.antt =====
-- The ring of buffered requests: `demu_poll_buffered_iopage` of demu.c.
--
-- Xen's public header says how many slots the ring has. The test of `demu_state.seq` at the start is
-- also that of the only caller, `demu_poll_iopages`, and stands in Ioreq/Poll.
pub mod Order
use citrix_vgpu.Prelude.{
  ℕ, zero, suc, ◌+◌, ◌-◌, ◌*◌, ◌/◌, ◌%◌, ◌^◌, Bool, true, false, Option, none, some, List, [], ◌∷◌,
  bit_or, if◌then◌else◌, ◌==◌, ◌>>=◌,
}
use citrix_vgpu.Ioreq.{Request, RequestType}

-- `buf_ioreq_t`
pub record Slot : Type 0 where
  pub size : ℕ  -- 2 bits: the size is 1 << size
  pub addr : ℕ
  pub payload : ℕ  -- uint32_t
  pub is_read : Bool
  pub type : RequestType

-- The request of a slot
unfoldable pub request_of : Slot → Request
request_of s = record {
  addr = s.addr;
  payload = s.payload;
  count = 1;
  size = 2 ^ s.size;
  is_read = s.is_read;
  df = true;
  data_is_ptr = false;
  type = s.type;
}

-- The request whose first slot is that of `read`, and the pointer behind it. One of 8 bytes has its
-- upper half in the next slot.
unfoldable pub next_request : ℕ → (ℕ → Slot) → ℕ → Request × ℕ
next_request slots buf read =
    let s = buf (read % slots) in
    let behind = (read + 1) % 2 ^ 32 in
    if 2 ^ s.size == 8
    then (
      record (request_of s) {
        payload = bit_or s.payload ((buf (behind % slots)).payload * 2 ^ 32);
      },
      (behind + 1) % 2 ^ 32,
    )
    else (request_of s, behind)

-- The page as each round of the outer loop finds it: the write pointer and the slots
abbrev pub Seen : Type 0
Seen = ℕ × (ℕ → Slot)

module _ {M : Type 0} (handle : Request → M → Option M) (slots : ℕ) where
  -- The inner loop, from `read` to `write`: `none` also when the fuel is spent.
  unfoldable pub drain : ℕ → (ℕ → Slot) → ℕ → ℕ → M → Option M
  drain zero buf read write m = if read == write then some m else none
  drain (suc fuel) buf read write m =
      let (r, read') = next_request slots buf read in
      if read == write
      then some m
      else elim (handle r m) [ none ↦ none | some m' ↦ drain fuel buf read' write m' ]

  -- The outer loop: the read pointer that it stores last, and the state. The page of a round is what
  -- Xen has written until then; without one the loop still runs.
  unfoldable pub demu_poll_buffered_iopage : ℕ → List Seen → ℕ → M → Option (ℕ × M)
  demu_poll_buffered_iopage fuel [] read m = none
  demu_poll_buffered_iopage fuel ((write, buf) ∷ later) read m =
      if read == write then some (read, m) else elim (drain fuel buf read write m) [
        | none ↦ none
        | some m' ↦ demu_poll_buffered_iopage fuel later write m'
      ]
