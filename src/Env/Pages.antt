-- ===== src/Env/Pages.antt =====
-- `vmiop_unpin_guest_pages` of vmiop-env.c.
--
-- `release` says for a list of host pages whether `demu_release_guest_pages` succeeds for it. The two
-- lists of the caller have the same length, and only the host pages are read.
pub mod Chunks
use citrix_vgpu.Prelude.{
  ℕ, ◌+◌, ◌-◌, ◌^◌, ◌==◌, ◌&&◌, Bool, true, false, List, [], ◌∷◌, ◌++◌, length, if◌then◌else◌,
}
use citrix_vgpu.Env.{ErrorCode, success, inval, resource}

-- `VMIOP_PAGE_NUMBER_NULL`
abbrev pub page_number_null : ℕ
page_number_null = 2 ^ 64 - 1

abbrev pub translate_page_count : ℕ
translate_page_count = 128

-- The calls of `demu_release_guest_pages`, the host pages afterwards, and whether all succeeded
pub record Unpinned : Type 0 where
  pub calls : List (List ℕ)
  pub pages : List ℕ
  pub done : Bool

abbrev pub after_page : ℕ → Unpinned → Unpinned
after_page h u = record u { pages = h ∷ u.pages }

abbrev pub after_call : (List ℕ → Bool) → List ℕ → Unpinned → Unpinned
after_call release chunk u = record u { calls = chunk ∷ u.calls; done = release chunk && u.done }

-- What is left at the end of the loop
abbrev pub last_chunk : (List ℕ → Bool) → List ℕ → Unpinned
last_chunk release [] = record { calls = []; pages = []; done = true }
last_chunk release (h ∷ l) = record { calls = (h ∷ l) ∷ []; pages = []; done = release (h ∷ l) }

-- The loop, with the chunk that is being filled
unfoldable pub unpin_pages : (List ℕ → Bool) → List ℕ → List ℕ → Unpinned
unpin_pages release chunk [] = last_chunk release chunk
unpin_pages release chunk (h ∷ l) =
    let filled = chunk ++ h ∷ [] in
    let kept = after_page h (unpin_pages release chunk l) in
    let sent = after_page page_number_null (after_call release filled (unpin_pages release [] l)) in
    let waits = after_page page_number_null (unpin_pages release filled l) in
    if h == page_number_null
    then kept
    else if length filled == translate_page_count
    then sent
    else waits

-- `malloc_ok` and `mlock_ok` say whether the buffer is to be had.
unfoldable pub unpin_guest_pages :
    Bool → Bool → (List ℕ → Bool) → List ℕ → ErrorCode × List (List ℕ) × List ℕ
unfolding unpin_pages
unpin_guest_pages malloc_ok mlock_ok release hpfns =
    let u = unpin_pages release [] hpfns in
    if malloc_ok && mlock_ok
    then (if u.done then success else inval, u.calls, u.pages)
    else (resource, [], hpfns)
