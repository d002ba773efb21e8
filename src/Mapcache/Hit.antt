-- ===== src/Mapcache/Hit.antt =====
-- What the scan of a bucket of mapcache.c finds.
use citrix_vgpu.Prelude.{ℕ, ◌≡◌, ◌≢◌, Option, List, [], ◌∷◌, arith, refl, if◌then◌else◌, ◌==◌}
use citrix_vgpu.Mapcache.{Entry, scan, next_epoch}

-- The pointer of the last entry of page `pfn`, else `ptr`
unfoldable pub last_match : ℕ → List Entry → Option ℕ → Option ℕ
last_match pfn [] ptr = ptr
last_match pfn (e ∷ l) ptr = last_match pfn l (if e.pfn == pfn then e.ptr else ptr)

pub scan-last_match :
    (pfn : ℕ) (l : List Entry) (epoch : ℕ) (ptr : Option ℕ)
    → (scan pfn l epoch ptr).2 ≡ last_match pfn l ptr
unfolding scan last_match
scan-last_match pfn [] epoch ptr = refl
scan-last_match pfn (e ∷ l) epoch ptr =
    scan-last_match pfn l (if e.pfn == pfn then next_epoch epoch else epoch)
      (if e.pfn == pfn then e.ptr else ptr)

-- No entry of the list is for the page.
abbrev pub Absent : ℕ → List Entry → Type 0
Absent pfn [] = Unit
Absent pfn (e ∷ l) = (e.pfn ≢ pfn) × Absent pfn l

pub last_match-Absent :
    (pfn : ℕ) (l : List Entry) (ptr : Option ℕ) → Absent pfn l → last_match pfn l ptr ≡ ptr
unfolding last_match
last_match-Absent pfn [] ptr h = refl
last_match-Absent pfn (e ∷ l) ptr h = ground (arith, last_match-Absent pfn l ptr)

-- A scan for a page that is absent changes nothing.
pub scan-Absent :
    (pfn : ℕ) (l : List Entry) (epoch : ℕ) (ptr : Option ℕ)
    → Absent pfn l
    → scan pfn l epoch ptr ≡ (l, epoch, ptr)
unfolding scan
scan-Absent pfn [] epoch ptr h = refl
scan-Absent pfn (e ∷ l) epoch ptr h = ground (arith, scan-Absent pfn l epoch ptr h.1)
