-- ===== src/Mapcache/Miss.antt =====
-- Lookups of mapcache.c that fault.
use citrix_vgpu.Prelude.{
  ◌<◌, ℕ, ◌%◌, ◌/◌, ◌^◌, ◌+◌, ◌≡◌, ◌≤◌, ◌⊎◌, ◌∙◌, ap, Option, none, some, List, [], ◌∷◌, arith,
  refl, if◌then◌else◌, ◌==◌, ltb, Bool-cases, inl, inr, update_self,
}
use citrix_vgpu.Mapcache.{
  forget, mapcache_invalidate, map, at_start, Entry, Cache, scan, lookup_page, mapcache_lookup,
  oldest, replace, fault_page, plus_offset,
}
use citrix_vgpu.Mapcache.Hit.{last_match, scan-last_match, Absent, last_match-Absent, scan-Absent}

-- Some entry has the epoch.
abbrev HasEpoch : ℕ → List Entry → Type 0
HasEpoch o [] = ⊥
HasEpoch o (e ∷ l) = (e.epoch ≡ o) ⊎ HasEpoch o l

oldest_cases : (o : ℕ) (l : List Entry) → (oldest o l ≡ o) ⊎ HasEpoch (oldest o l) l
unfolding oldest
oldest_cases o [] = inl refl
oldest_cases o (e ∷ l) = ground (arith, oldest_cases (if ltb e.epoch o then e.epoch else o) l)

oldest-HasEpoch :
    (o : ℕ) (e : Entry) (l : List Entry) → e.epoch ≤ o → HasEpoch (oldest o (e ∷ l)) (e ∷ l)
unfolding oldest
oldest-HasEpoch o e l h = ground (arith, oldest_cases (if ltb e.epoch o then e.epoch else o) l)

last_match-replace :
    (pfn p old : ℕ) (l : List Entry) (ptr : Option ℕ)
    → Absent pfn l
    → HasEpoch old l
    → last_match pfn (replace (some p) pfn old l) ptr ≡ some p
unfolding last_match replace
last_match-replace pfn p old [] ptr a h = absurd h
last_match-replace pfn p old (e ∷ l) ptr a h = elim (Bool-cases (e.epoch == old)) [
  | inl y ↦ rw y (ground (arith, last_match-Absent pfn l (some p) a.1))
  | inr n ↦ rw n (ground (arith, last_match-replace pfn p old l ptr a.1))
]

found_at :
    (pfn : ℕ) (c : Cache) (l : List Entry)
    → c.bucket (pfn % 32) ≡ l
    → (lookup_page pfn c).1 ≡ last_match pfn l none
unfolding lookup_page
found_at pfn c l b =
    scan-last_match pfn (c.bucket (pfn % 32)) c.epoch none
    ∙ ap (λ (t : List Entry). last_match pfn t none) b

unchanged :
    (pfn : ℕ) (c : Cache) (l : List Entry)
    → c.bucket (pfn % 32) ≡ l
    → Absent pfn l
    → ((lookup_page pfn c).0.bucket (pfn % 32) ≡ l) × ((lookup_page pfn c).0.epoch ≡ c.epoch)
unfolding lookup_page
unchanged pfn c l b a =
    let same : scan pfn (c.bucket (pfn % 32)) c.epoch none ≡ (l, c.epoch, none) =
      ap (λ (t : List Entry). scan pfn t c.epoch none) b ∙ scan-Absent pfn l c.epoch none a in
    (
      update_self c.bucket (pfn % 32) (scan pfn (c.bucket (pfn % 32)) c.epoch none).0
          ∙ ap (λ (t : List Entry × ℕ × Option ℕ). t.0) same,
      ap (λ (t : List Entry × ℕ × Option ℕ). t.1) same,
    )

faulted :
    (pfn p : ℕ) (c : Cache) (e : Entry) (l : List Entry)
    → c.bucket (pfn % 32) ≡ e ∷ l
    → Absent pfn (e ∷ l)
    → e.epoch ≤ c.epoch
    → (lookup_page pfn (fault_page (some p) pfn c)).1 ≡ some p
unfolding fault_page
faulted pfn p c e l b a n =
    let old : ℕ = oldest c.epoch (e ∷ l) in
    found_at pfn (fault_page (some p) pfn c) (replace (some p) pfn old (e ∷ l)) (
      update_self c.bucket (pfn % 32) _
      ∙ ap (λ (t : List Entry). replace (some p) pfn (oldest c.epoch t) t) b)
    ∙ last_match-replace pfn p old (e ∷ l) none a (oldest-HasEpoch c.epoch e l n)

after_fault :
    (map_page : ℕ → Option ℕ) (addr : ℕ) (c : Cache)
    → (lookup_page (addr / 2 ^ 12) c).1 ≡ none
    → (mapcache_lookup map_page addr c).1
      ≡ plus_offset
          (addr % 2 ^ 12)
          (lookup_page (addr / 2 ^ 12) (
            fault_page
              (map_page (addr / 2 ^ 12))
              (addr / 2 ^ 12)
              (lookup_page (addr / 2 ^ 12) c).0)).1
unfolding mapcache_lookup
after_fault map_page addr c h = ground arith

-- A lookup in a page that no entry of its bucket is for gives the address in the mapping that
-- `demu_map_guest_pages` returns, if it returns one. The bucket is not empty and no entry of it is
-- newer than the cache's epoch.
pub mapcache_lookup_miss :
    (map_page : ℕ → Option ℕ) (addr p : ℕ) (c : Cache) (e : Entry) (l : List Entry)
    → c.bucket (addr / 2 ^ 12 % 32) ≡ e ∷ l
    → Absent (addr / 2 ^ 12) (e ∷ l)
    → e.epoch ≤ c.epoch
    → map_page (addr / 2 ^ 12) ≡ some p
    → (mapcache_lookup map_page addr c).1 ≡ some (p + addr % 2 ^ 12)
mapcache_lookup_miss map_page addr p c e l b a n q =
    let pfn : ℕ = addr / 2 ^ 12 in
    let (b1, e1) = unchanged pfn c (e ∷ l) b a in
    after_fault map_page addr c (found_at pfn c (e ∷ l) b ∙ last_match-Absent pfn (e ∷ l) none a)
    ∙ ap
        (λ (t : Option ℕ).
          plus_offset (addr % 2 ^ 12) (lookup_page pfn (fault_page t pfn (lookup_page pfn c).0)).1)
        q
    ∙ ap (plus_offset (addr % 2 ^ 12))
        (faulted pfn p (lookup_page pfn c).0 e l b1 a (omega (arith, n, e1)))

-- From the cache of the program's start, every lookup in page 0 gives NULL, whatever
-- `demu_map_guest_pages` returns: the entries that were never used are for page 0, and the last of
-- them hides the one that the fault has filled.
pub mapcache_lookup_page_zero :
    (map_page : ℕ → Option ℕ) (addr : ℕ)
    → addr < 2 ^ 12
    → (mapcache_lookup map_page addr at_start).1 ≡ none
mapcache_lookup_page_zero map_page addr h =
    let zero_page : addr / 2 ^ 12 ≡ 0 = omega arith in
    after_fault map_page addr at_start
      (ap (λ (t : ℕ). (lookup_page t at_start).1) zero_page ∙ first_null)
    ∙ ap
        (λ (t : ℕ).
          plus_offset (addr % 2 ^ 12)
            (lookup_page t (fault_page (map_page t) t (lookup_page t at_start).0)).1)
        zero_page
    ∙ ap (plus_offset (addr % 2 ^ 12)) (still_null (map_page 0))
  where
    first_null : (lookup_page 0 at_start).1 ≡ none
    first_null = unfold lookup_page scan in refl

    still_null :
        (mapped : Option ℕ)
        → (lookup_page 0 (fault_page mapped 0 (lookup_page 0 at_start).0)).1 ≡ none
    still_null none = unfold lookup_page scan fault_page replace oldest in refl
    still_null (some p) = unfold lookup_page scan fault_page replace oldest in refl

last_match-forget : (pfn : ℕ) (l : List Entry) → last_match pfn (map forget l) none ≡ none
unfolding last_match
last_match-forget pfn [] = refl
last_match-forget pfn (e ∷ l) = ground (arith, last_match-forget pfn l)

-- After `mapcache_invalidate`, the lookup of any page, whatever the cache held, gives no pointer of
-- before: it returns NULL, so that `mapcache_lookup` maps the page again.
pub lookup_page-mapcache_invalidate :
    (pfn : ℕ) (c : Cache) → (lookup_page pfn (mapcache_invalidate c)).1 ≡ none
unfolding mapcache_invalidate
lookup_page-mapcache_invalidate pfn c =
    found_at pfn (mapcache_invalidate c) (map forget (c.bucket (pfn % 32))) refl
    ∙ last_match-forget pfn (c.bucket (pfn % 32))
