-- ===== src/Mapcache.antt =====
-- The cache of mapped guest pages of mapcache.c.
--
-- A bucket is the list of its entries in the order of the array. A pointer is its address, `none` for
-- NULL. `map_page` is what `demu_map_guest_pages` returns for one page; `munmap` has no effect on the
-- cache and is left out. Epochs are `uint64_t`.
pub mod Hit
pub mod Miss
mod Tests
use citrix_vgpu.Prelude.{
  replicate, ℕ, ◌+◌, ◌*◌, ◌/◌, ◌%◌, ◌^◌, Bool, true, false, Option, none, some, List, [], ◌∷◌, map,
  ltb, ◌==◌, if◌then◌else◌, update,
}

-- `mapcache_entry_t`
pub record Entry : Type 0 where
  pub ptr : Option ℕ
  pub pfn : ℕ
  pub epoch : ℕ

-- `mapcache`, bucket by bucket, and `mapcache_epoch`
pub record Cache : Type 0 where
  pub bucket : ℕ → List Entry
  pub epoch : ℕ

-- The static state at the program's start
abbrev pub at_start : Cache
at_start = record {
  bucket = λ b. replicate 32 (record { ptr = none; pfn = 0; epoch = 0 });
  epoch = 0;
}

-- `mapcache_epoch++`
abbrev pub next_epoch : ℕ → ℕ
next_epoch e = (e + 1) % 2 ^ 64

-- The loop of `__mapcache_lookup` over a bucket, with the epoch and `ptr` so far.
unfoldable pub scan : ℕ → List Entry → ℕ → Option ℕ → List Entry × ℕ × Option ℕ
scan pfn [] epoch ptr = ([], epoch, ptr)
scan pfn (e ∷ l) epoch ptr =
    let hit = e.pfn == pfn in
    let (l', epoch', ptr') =
      scan pfn l (if hit then next_epoch epoch else epoch) (if hit then e.ptr else ptr) in
    ((if hit then record e { epoch = epoch } else e) ∷ l', epoch', ptr')

-- `__mapcache_lookup`
unfoldable pub lookup_page : ℕ → Cache → Cache × Option ℕ
lookup_page pfn c =
    let (l, epoch, ptr) = scan pfn (c.bucket (pfn % 32)) c.epoch none in
    (record { bucket = update c.bucket (pfn % 32) l; epoch = epoch }, ptr)

-- The first loop of `__mapcache_fault`
unfoldable pub oldest : ℕ → List Entry → ℕ
oldest o [] = o
oldest o (e ∷ l) = oldest (if ltb e.epoch o then e.epoch else o) l

-- Its second loop: the first entry of the oldest epoch gets the page.
abbrev pub give : Option ℕ → ℕ → Entry → Entry
give none pfn e = record e { ptr = none }
give (some p) pfn e = record e { ptr = some p; pfn = pfn }

unfoldable pub replace : Option ℕ → ℕ → ℕ → List Entry → List Entry
replace mapped pfn old [] = []
replace mapped pfn old (e ∷ l) =
    let rest = replace mapped pfn old l in
    if e.epoch == old then give mapped pfn e ∷ l else e ∷ rest

-- `__mapcache_fault`
unfoldable pub fault_page : Option ℕ → ℕ → Cache → Cache
fault_page mapped pfn c =
    let l = c.bucket (pfn % 32) in
    record c { bucket = update c.bucket (pfn % 32) (replace mapped pfn (oldest c.epoch l) l) }

abbrev pub plus_offset : ℕ → Option ℕ → Option ℕ
plus_offset offset none = none
plus_offset offset (some p) = some (p + offset)

unfoldable pub mapcache_lookup : (ℕ → Option ℕ) → ℕ → Cache → Cache × Option ℕ
mapcache_lookup map_page addr c =
    let pfn = addr / 2 ^ 12 in
    let (c1, r1) = lookup_page pfn c in
    let (c2, r2) = lookup_page pfn (fault_page (map_page pfn) pfn c1) in
    elim r1 [
      | some p ↦ (c1, some (p + addr % 2 ^ 12))
      | none ↦ (c2, plus_offset (addr % 2 ^ 12) r2)
    ]

abbrev pub forget : Entry → Entry
forget e = record e { ptr = none }

unfoldable pub mapcache_invalidate : Cache → Cache
mapcache_invalidate c = record c { bucket = λ b. map forget (c.bucket b) }
