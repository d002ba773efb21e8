-- ===== src/Env/Pages/Chunks.antt =====
-- Every pinned page is released once, in order, in chunks that fit the buffer.
use citrix_vgpu.Prelude.{
  ap, sym, ◌∙◌, ℕ, ◌+◌, ◌≤◌, ◌<◌, ◌≡◌, ◌==◌, Bool, true, List, [], ◌∷◌, ◌++◌, length, length-append,
  arith, refl, inl, inr, Bool-cases, if◌then◌else◌,
}
use mathlib.Core.List.{append_assoc, append-nil}
use citrix_vgpu.Env.Pages.{
  page_number_null, translate_page_count, last_chunk, unpin_pages, unpin_guest_pages,
}

-- The pages that are pinned
unfoldable pub pinned : List ℕ → List ℕ
pinned [] = []
pinned (h ∷ l) = let rest = h ∷ pinned l in if h == page_number_null then pinned l else rest

abbrev pub join : List (List ℕ) → List ℕ
join [] = []
join (c ∷ l) = c ++ join l

abbrev pub AllFit : List (List ℕ) → Type 0
AllFit [] = Unit {0}
AllFit (c ∷ l) = (0 < length c) × (length c ≤ 128) × AllFit l

last_join :
    (release : List ℕ → Bool) (chunk : List ℕ) → join (last_chunk release chunk).calls ≡ chunk
last_join release [] = refl
last_join release (h ∷ l) = ap (λ t. h ∷ t) (append-nil l)

last_fit :
    (release : List ℕ → Bool) (chunk : List ℕ)
    → length chunk < 128
    → AllFit (last_chunk release chunk).calls
last_fit release [] lt = tt
last_fit release (h ∷ l) lt = (omega arith, omega (arith, lt), tt)

last_pages :
    (release : List ℕ → Bool) (chunk : List ℕ) → pinned (last_chunk release chunk).pages ≡ []
unfolding pinned
last_pages release [] = refl
last_pages release (h ∷ l) = refl

unpin_pages-join :
    (release : List ℕ → Bool) (chunk l : List ℕ)
    → join (unpin_pages release chunk l).calls ≡ chunk ++ pinned l
unfolding unpin_pages pinned
unpin_pages-join release chunk [] = last_join release chunk ∙ sym (append-nil chunk)
unpin_pages-join release chunk (h ∷ l) =
    let filled = chunk ++ h ∷ [] in
    elim (Bool-cases (h == page_number_null)) [
      | inl e ↦ rw e (unpin_pages-join release chunk l)
      | inr e ↦ elim (Bool-cases (length filled == translate_page_count)) [
        | inl full ↦
            rw (e, full)
              (ap (λ t. filled ++ t) (unpin_pages-join release [] l)
                ∙ append_assoc chunk (h ∷ []) (pinned l))
        | inr more ↦
            rw (e, more)
              (unpin_pages-join release filled l ∙ append_assoc chunk (h ∷ []) (pinned l))
      ]
    ]

unpin_pages-fit :
    (release : List ℕ → Bool) (chunk l : List ℕ)
    → length chunk < 128
    → AllFit (unpin_pages release chunk l).calls
unfolding unpin_pages
unpin_pages-fit release chunk [] lt = last_fit release chunk lt
unpin_pages-fit release chunk (h ∷ l) lt =
    let filled = chunk ++ h ∷ [] in
    let size : length filled ≡ length chunk + 1 = length-append chunk (h ∷ []) in
    elim (Bool-cases (h == page_number_null)) [
      | inl e ↦ rw e (unpin_pages-fit release chunk l lt)
      | inr e ↦ elim (Bool-cases (length filled == translate_page_count)) [
        | inl full ↦
            rw (e, full)
              (
                (omega (arith, size, lt)),
                (ground arith),
                unpin_pages-fit release [] l (omega arith),
              )
        | inr more ↦ rw (e, more) (unpin_pages-fit release filled l (ground arith))
      ]
    ]

unpin_pages-pinned :
    (release : List ℕ → Bool) (chunk l : List ℕ) → pinned (unpin_pages release chunk l).pages ≡ []
unfolding unpin_pages pinned
unpin_pages-pinned release chunk [] = last_pages release chunk
unpin_pages-pinned release chunk (h ∷ l) =
    let filled = chunk ++ h ∷ [] in
    elim (Bool-cases (h == page_number_null)) [
      | inl e ↦ rw (e, e) (unpin_pages-pinned release chunk l)
      | inr e ↦ elim (Bool-cases (length filled == translate_page_count)) [
        | inl full ↦ rw (e, full) (unpin_pages-pinned release [] l)
        | inr more ↦ rw (e, more) (unpin_pages-pinned release filled l)
      ]
    ]

-- When `vmiop_unpin_guest_pages` has its buffer, it calls `demu_release_guest_pages` on at least one
-- and at most 128 pages at a time, the calls together release exactly the pages that were pinned,
-- each once and in order, whether earlier calls succeed or not, and the caller's list holds no
-- pinned page afterwards.
pub unpin_guest_pages_released :
    (release : List ℕ → Bool) (hpfns : List ℕ)
    → AllFit (unpin_guest_pages true true release hpfns).1
      × (join (unpin_guest_pages true true release hpfns).1 ≡ pinned hpfns)
      × (pinned (unpin_guest_pages true true release hpfns).2 ≡ [])
unfolding unpin_guest_pages
unpin_guest_pages_released release hpfns = (
  unpin_pages-fit release [] hpfns (omega arith),
  unpin_pages-join release [] hpfns,
  unpin_pages-pinned release [] hpfns,
)
