-- ===== src/Mapcache/Tests.antt =====
-- A lookup in a bucket with two entries.
use citrix_vgpu.Prelude.{ℕ, ◌≡◌, [], ◌∷◌, Option, some, refl, arith}
use citrix_vgpu.Mapcache.{Entry, Cache, mapcache_lookup}
use citrix_vgpu.Mapcache.Miss.{mapcache_lookup_miss}

abbrev older : Entry
older = record { ptr = some 0x1000; pfn = 34; epoch = 4 }

abbrev newer : Entry
newer = record { ptr = some 0x2000; pfn = 66; epoch = 5 }

abbrev two_pages : Cache
two_pages = record { bucket = λ b. newer ∷ older ∷ []; epoch = 6 }

-- A mapping of every page
abbrev mapping : ℕ → Option ℕ
mapping pfn = some 0x7000

mapcache_lookup_miss_example : (mapcache_lookup mapping 0x2345 two_pages).1 ≡ some 0x7345
mapcache_lookup_miss_example =
    mapcache_lookup_miss mapping 0x2345 0x7000 two_pages newer (older ∷ []) refl
      (λ e. omega arith, (λ e. omega arith, tt)) (omega arith) refl
