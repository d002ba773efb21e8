-- ===== src/Stream/Read.antt =====
-- What `do_read` and `read_record` of demu.c take from the stream.
use citrix_vgpu.Prelude.{
  length-append, ◌⊎◌, ℕ, zero, suc, ◌-◌, ◌^◌, ◌≡◌, ◌≢◌, ◌≤◌, ◌<◌, refl, ap, min, Option, none, some,
  List, [], ◌∷◌, ◌++◌, length, take, drop, arith, leb, if◌then◌else◌, Option-cases, inl, inr,
}
use citrix_vgpu.Stream.{
  Kernel, read_some, read_loop, do_read, Header, read_payload, read_record, record_header,
  header_bytes, bytes_le, value_le,
}
use citrix_vgpu.Stream.Bytes.{take-append, drop-append, take-take-drop, drop-drop, length-drop}

-- `read` returns no error.
abbrev pub NoError : Kernel → Type 0
NoError kernel = (count left : ℕ) → kernel count left ≢ none

-- What a read of `count` bytes should give
abbrev pub whole : ℕ → List ℕ → Option (List ℕ × List ℕ)
whole count bytes =
    if leb count (length bytes) then some (take count bytes, drop count bytes) else none

pub read_some_cases :
    (kernel : Kernel) (n : ℕ) (bytes : List ℕ)
    → NoError kernel
    → ((bytes ≡ []) × (read_some kernel (suc n) bytes ≡ none))
      ⊎ ((r : ℕ) × (read_some kernel (suc n) bytes ≡ some (suc r))
          × (r ≤ n)
          × (suc r ≤ length bytes))
read_some_cases kernel n [] h = inl (refl, refl)
read_some_cases kernel n (b ∷ l) h = elim (Option-cases (kernel (suc n) (length (b ∷ l)))) [
  | inl e ↦ absurd (h (suc n) (length (b ∷ l)) e)
  | inr (k, e) ↦ inr (min (min k n) (length l), ground arith, ground arith, ground arith)
]

read_loop_lem :
    (kernel : Kernel) (fuel count : ℕ) (bytes : List ℕ)
    → NoError kernel
    → count ≤ fuel
    → read_loop kernel fuel count bytes ≡ whole count bytes
unfolding read_loop
read_loop_lem kernel fuel zero bytes h f = ground arith
read_loop_lem kernel zero (suc n) bytes h f = absurd (omega arith)
read_loop_lem kernel (suc fuel) (suc n) bytes h f = elim (read_some_cases kernel n bytes h) [
  | inl (e, q) ↦ ground arith
  | inr (r, q, p, len) ↦ ground (
    arith,
    read_loop_lem kernel fuel (suc n - suc r) (drop (suc r) bytes) h (omega arith),
    length-drop (suc r) bytes,
    take-take-drop (suc r) (suc n) bytes (omega arith),
    drop-drop (suc r) (suc n) bytes (omega arith),
  )
]

-- However `read` cuts the stream, if it returns no error, `do_read` gives the first `count` bytes and
-- leaves the rest, and fails exactly when there are fewer.
pub do_read-whole :
    (kernel : Kernel) (count : ℕ) (bytes : List ℕ)
    → NoError kernel
    → do_read kernel count bytes ≡ whole count bytes
unfolding do_read
do_read-whole kernel count bytes h = read_loop_lem kernel count count bytes h (omega arith)

-- A read of bytes that are there
pub do_read-append :
    (kernel : Kernel) (count : ℕ) (l rest : List ℕ)
    → NoError kernel
    → length l ≡ count
    → do_read kernel count (l ++ rest) ≡ some (l, rest)
do_read-append kernel count l rest h e = ground (
  arith,
  do_read-whole kernel count (l ++ rest) h,
  length-append l rest,
  take-append count l rest e,
  drop-append count l rest e,
)

-- The fields of a header fit.
pub record Fits (h : Header) : Type 0 where
  pub type_in : h.type < 2 ^ 16
  pub stype_in : h.stype < 2 ^ 16
  pub len_in : h.len < 2 ^ 32

length-header_bytes : (h : Header) → length (header_bytes h) ≡ 8
unfolding header_bytes bytes_le
length-header_bytes h = refl

record_header-header_bytes : (h : Header) → Fits h → record_header (header_bytes h) ≡ h
unfolding header_bytes record_header bytes_le value_le
record_header-header_bytes h f = ground arith

pub read_record-payload :
    (kernel : Kernel) (h : Header) (rest : List ℕ)
    → NoError kernel
    → Fits h
    → read_record kernel (header_bytes h ++ rest) ≡ read_payload kernel h rest
unfolding read_record
read_record-payload kernel h rest e f = ground (
  arith,
  do_read-append kernel 8 (header_bytes h) rest e (length-header_bytes h),
  ap (λ (t : Header). read_payload kernel t rest) (record_header-header_bytes h f),
)
