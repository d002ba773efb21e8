-- ===== src/Stream/Records.antt =====
-- Records of demu.c that are written and read back, and headers that no record has.
use citrix_vgpu.Prelude.{
  zero, suc, ◌<◌, min, drop, inl, inr, sym, ℕ, ◌+◌, ◌-◌, ◌%◌, ◌^◌, ◌≡◌, ◌≤◌, ◌↔◌, ap, ◌∙◌, List,
  ◌++◌, length, take, arith, length-append,
}
use citrix_vgpu.Stream.{
  Kernel, Header, Record, got, overrun, read_payload, read_record, padded_size, header_bytes,
  record_bytes, padding, stored,
}
use mathlib.Core.List.{append_assoc}
use citrix_vgpu.Stream.Bytes.{length-take, length-drop}
use citrix_vgpu.Stream.Read.{NoError, Fits, do_read-append, read_record-payload, read_some_cases}

-- A record that `write_record` can be given: the data fit the buffer of MAX_REC_SIZE bytes.
pub record IsRecord (r : Record) : Type 0 where
  pub fits : Fits r.header
  pub size : length r.payload ≡ r.header.len
  pub in_buffer : r.header.len ≤ 8184

-- The bytes that fill a record up to the next multiple of 8
abbrev pub filler : Record → List ℕ
filler r = take (padded_size r.header.len - 8 - r.header.len) padding

length-body :
    (r : Record)
    → IsRecord r
    → length (r.payload ++ filler r) ≡ (padded_size r.header.len + 2 ^ 32 - 8) % 2 ^ 32
length-body r v = omega (
  arith,
  length-append r.payload (filler r),
  length-take (padded_size r.header.len - 8 - r.header.len) padding (omega arith),
)

-- Behind a record that `write_record` wrote, `read_record` gives that record, its data followed by
-- the filling bytes, and leaves the stream at the next one, however `read` cuts it.
pub read_record-record_bytes :
    (kernel : Kernel) (r : Record) (rest : List ℕ)
    → NoError kernel
    → IsRecord r
    → read_record kernel (record_bytes r ++ rest)
      ≡ got (record { header = r.header; payload = r.payload ++ filler r }) rest
unfolding record_bytes read_payload
read_record-record_bytes kernel r rest h v =
    ap (read_record kernel) (append_assoc (header_bytes r.header) (r.payload ++ filler r) rest)
    ∙ read_record-payload kernel r.header ((r.payload ++ filler r) ++ rest) h v.fits
    ∙ ground (
      arith,
      do_read-append kernel ((padded_size r.header.len + 2 ^ 32 - 8) % 2 ^ 32)
          (r.payload ++ filler r) rest h (length-body r v),
    )

stored_lem :
    (kernel : Kernel) (fuel count : ℕ) (bytes : List ℕ)
    → NoError kernel
    → count ≤ fuel
    → stored kernel fuel count bytes ≡ min count (length bytes)
unfolding stored
stored_lem kernel fuel zero bytes h f = ground arith
stored_lem kernel zero (suc n) bytes h f = absurd (omega arith)
stored_lem kernel (suc fuel) (suc n) bytes h f = elim (read_some_cases kernel n bytes h) [
  | inl (e, q) ↦ ground arith
  | inr (r, q, p, len) ↦ ground (
    arith,
    stored_lem kernel fuel (suc n - suc r) (drop (suc r) bytes) h (omega arith),
    length-drop (suc r) bytes,
  )
]

-- The lengths whose padded size wraps
abbrev pub Wraps : ℕ → Type 0
Wraps len = (2 ^ 32 - 15 ≤ len) × (len ≤ 2 ^ 32 - 8)

payload_overrun :
    (kernel : Kernel) (h : Header) (rest : List ℕ)
    → NoError kernel
    → read_payload kernel h rest ≡ overrun
    → Fits h
    → Wraps h.len × (8184 < length rest)
unfolding read_payload
payload_overrun kernel h rest n e f =
    let count = (padded_size h.len + 2 ^ 32 - 8) % 2 ^ 32 in
    let s = stored_lem kernel count count rest n (omega arith) in ground (arith, s)

overruns :
    (kernel : Kernel) (h : Header) (rest : List ℕ)
    → NoError kernel
    → Wraps h.len
    → 8184 < length rest
    → read_payload kernel h rest ≡ overrun
unfolding read_payload
overruns kernel h rest n w more =
    let count = (padded_size h.len + 2 ^ 32 - 8) % 2 ^ 32 in
    let s = stored_lem kernel count count rest n (omega arith) in
    let wrapped : count ≡ 2 ^ 32 - 8 = omega (arith, w.0, w.1) in
    ground (arith, s, wrapped, w.0, w.1)

-- Behind a header with any length of 32 bits, if `read` returns no error, `read_record` stores bytes
-- past its buffer exactly when the length is from 2 ^ 32 - 15 to 2 ^ 32 - 8 and more than 8184 bytes of
-- the stream are left: the padded size has wrapped to 0, passes the test against MAX_REC_SIZE, and
-- wraps again when the size of the header is subtracted.
pub read_record-overrun_iff :
    (kernel : Kernel) (h : Header) (rest : List ℕ)
    → NoError kernel
    → Fits h
    → (read_record kernel (header_bytes h ++ rest) ≡ overrun) ↔ (Wraps h.len × (8184 < length rest))
read_record-overrun_iff kernel h rest e f =
    let same = read_record-payload kernel h rest e f in
    (
      λ p. payload_overrun kernel h rest e (sym same ∙ p) f,
      λ (w, more). same ∙ overruns kernel h rest e w more,
    )
