-- ===== src/Vga/Memory/Dirty.antt =====
-- The dirty map of the video memory in demu.c: `demu_sync_vram_dirty_map`,
-- `demu_vram_get_page_dirty`, `demu_vram_set_page_dirty`, `demu_clear_vram_dirty_map`.
--
-- What `xc_hvm_track_dirty_vram` returns is an argument: an error, or the pages that it reports.
use citrix_vgpu.Prelude.{
  ap, ℕ, ◌/◌, ◌≡◌, ◌<◌, Bool, true, false, Option, none, some, List, [], ◌∷◌, ltb, ◌||◌, ◌==◌,
  if◌then◌else◌, ◌>>=◌, arith, update,
}
use citrix_vgpu.Vga.Memory.{Vram, demu_vram_set_page_dirty}

-- The words of the map are combined by `|=`; the map has a bit for each of the pages below 1024.
unfoldable pub demu_sync_vram_dirty_map : Option (ℕ → Bool) → Vram → Vram
demu_sync_vram_dirty_map none m = record m { page_dirty = λ p. true }
demu_sync_vram_dirty_map (some reported) m = record m {
  page_dirty = λ p. m.page_dirty p || reported p;
}

unfoldable pub demu_vram_get_page_dirty : ℕ → Vram → Option Bool
demu_vram_get_page_dirty pfn m = if ltb (pfn / 64) 16 then some (m.page_dirty pfn) else none

unfoldable pub demu_clear_vram_dirty_map : Vram → Vram
demu_clear_vram_dirty_map m = record m { page_dirty = λ p. false }

-- The calls that change the map
pub data Call : Type 0 where
  set_dirty : ℕ → Call
  sync : Option (ℕ → Bool) → Call
  clear : Call

unfoldable pub run_call : Call → Vram → Option Vram
run_call (set_dirty p) m = demu_vram_set_page_dirty p m
run_call (sync answer) m = some (demu_sync_vram_dirty_map answer m)
run_call clear m = some (demu_clear_vram_dirty_map m)

unfoldable pub run_calls : List Call → Vram → Option Vram
run_calls [] m = some m
run_calls (c ∷ l) m = run_call c m >>= run_calls l

-- Whether a page is dirty after some calls, if it was `before`
abbrev pub after_call : ℕ → Call → Bool → Bool
after_call p (set_dirty q) before = before || p == q
after_call p (sync none) before = true
after_call p (sync (some reported)) before = before || reported p
after_call p clear before = false

abbrev pub is_dirty : ℕ → List Call → Bool → Bool
is_dirty p [] before = before
is_dirty p (c ∷ l) before = is_dirty p l (after_call p c before)

-- Only pages of the device are set.
abbrev pub InRange : List Call → Type 0
InRange [] = Unit
InRange (set_dirty q ∷ l) = (q < 1024) × InRange l
InRange (sync answer ∷ l) = InRange l
InRange (clear ∷ l) = InRange l

set_dirty_lem :
    (q p : ℕ) (m : Vram)
    → q < 1024
    → (m' : Vram) × (demu_vram_set_page_dirty q m ≡ some m')
      × (m'.page_dirty p ≡ (m.page_dirty p || p == q))
unfolding demu_vram_set_page_dirty
set_dirty_lem q p m h =
    (record m { page_dirty = update m.page_dirty q true }, ground arith, ground arith)

-- After calls that set pages of the device only, no assertion has failed, and a page of the device is
-- dirty exactly when it was set, was reported by Xen or Xen gave an error since the last time the map
-- was cleared, or was dirty at the start and the map was not cleared.
pub run_calls_lem :
    (l : List Call) (p : ℕ) (m : Vram)
    → InRange l
    → p < 1024
    → (run_calls l m >>= demu_vram_get_page_dirty p) ≡ some (is_dirty p l (m.page_dirty p))
unfolding run_calls run_call demu_vram_get_page_dirty demu_sync_vram_dirty_map
    demu_clear_vram_dirty_map
run_calls_lem [] p m r h = ground arith
run_calls_lem (set_dirty q ∷ l) p m r h =
    let (m', e, d) = set_dirty_lem q p m r.0 in
    let ih = run_calls_lem l p m' r.1 h in ground (arith, ap (λ (b : Bool). is_dirty p l b) d)
run_calls_lem (sync none ∷ l) p m r h = run_calls_lem l p (record m { page_dirty = λ p. true }) r h
run_calls_lem (sync (some f) ∷ l) p m r h =
    run_calls_lem l p (record m { page_dirty = λ q. m.page_dirty q || f q }) r h
run_calls_lem (clear ∷ l) p m r h = run_calls_lem l p (record m { page_dirty = λ p. false }) r h
