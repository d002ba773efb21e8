-- ===== src/Restore/Ends.antt =====
-- The loop of `readstate` of demu.c on any stream.
use citrix_vgpu.Prelude.{
  ℕ, zero, suc, ◌+◌, ◌-◌, ◌≡◌, ◌≢◌, ◌≤◌, ◌<◌, refl, Bool, some, List, [], ◌∷◌, length, drop, arith,
  Option-cases, inl, inr, ◌⊎◌, ◌%◌, ◌^◌,
}
use citrix_vgpu.Stream.{
  Kernel, Header, Record, Reading, got, refused, overrun, read_record, read_some, read_loop,
  do_read, read_payload, padded_size, record_header,
}
use citrix_vgpu.Stream.Bytes.{length-drop}
use citrix_vgpu.Restore.{Device, process_record, running, readstate}

read_some-le :
    (kernel : Kernel) (count r : ℕ) (bytes : List ℕ)
    → read_some kernel count bytes ≡ some r
    → (r ≤ count) × (r ≤ length bytes)
read_some-le kernel count r [] h = cc
read_some-le kernel count r (b ∷ l) h = elim (Option-cases (kernel count (length (b ∷ l)))) [
  | inl e ↦ ground arith
  | inr (k, e) ↦ ground arith
]

read_loop-length :
    (kernel : Kernel) (fuel count : ℕ) (bytes l left : List ℕ)
    → read_loop kernel fuel count bytes ≡ some (l, left)
    → length left + count ≡ length bytes
unfolding read_loop
read_loop-length kernel fuel zero bytes l left h = ground arith
read_loop-length kernel zero (suc n) bytes l left h = cc
read_loop-length kernel (suc fuel) (suc n) bytes l left h =
    elim (Option-cases (read_some kernel (suc n) bytes)) [
      | inl e ↦ ground arith
      | inr (r, e) ↦ elim (Option-cases (read_loop kernel fuel (suc n - r) (drop r bytes))) [
        | inl q ↦ ground arith
        | inr ((more, left'), q) ↦
            let (p1, p2) = read_some-le kernel (suc n) r bytes e in
            let ih = read_loop-length kernel fuel (suc n - r) (drop r bytes) more left' q in
            ground (arith, length-drop r bytes)
      ]
    ]

-- A record leaves less than there was.
got_shorter :
    (kernel : Kernel) (bytes left : List ℕ) (r : Record)
    → read_record kernel bytes ≡ got r left
    → length left < length bytes
unfolding read_record read_payload do_read
got_shorter kernel bytes left r h = elim (Option-cases (do_read kernel 8 bytes)) [
  | inl e ↦ ground arith
  | inr ((l, more), e) ↦
      let hdr : Header = record_header l in
      let count : ℕ = (padded_size hdr.len + 2 ^ 32 - 8) % 2 ^ 32 in
      let first = read_loop-length kernel 8 8 bytes l more e in
      elim (Option-cases (do_read kernel count more)) [
        | inl q ↦ ground arith
        | inr ((l2, left2), q) ↦
            let second = read_loop-length kernel count count more l2 left2 q in ground arith
      ]
]

reading_cases :
    (e : Reading)
    → (e ≡ refused) ⊎ (e ≡ overrun) ⊎ ((r : Record) × (left : List ℕ) × (e ≡ got r left))
reading_cases refused = inl refl
reading_cases overrun = inr (inl refl)
reading_cases (got r left) = inr (inr (r, left, refl))

-- `readstate` ends, on every stream and whatever `read` and the plugin answer, after at most as many
-- rounds as the stream has bytes, and one more.
pub readstate_ends :
    (kernel : Kernel) (plugin_ok : List ℕ → Bool) (fuel : ℕ) (bytes : List ℕ) (d : Device)
    → length bytes < fuel
    → (readstate kernel plugin_ok fuel bytes d).1 ≢ running
unfolding readstate
readstate_ends kernel plugin_ok zero bytes d f e = absurd (omega arith)
readstate_ends kernel plugin_ok (suc fuel) bytes d f e =
    elim (reading_cases (read_record kernel bytes)) [
      | inl q ↦ ground arith
      | inr (inl q) ↦ ground arith
      | inr (inr (r, left, q)) ↦
          let small = got_shorter kernel bytes left r q in
          ground (
            arith,
            readstate_ends kernel plugin_ok fuel left (process_record plugin_ok r d).0
                (omega arith),
          )
    ]
