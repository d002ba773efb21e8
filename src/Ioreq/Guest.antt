-- ===== src/Ioreq/Guest.antt =====
-- The guest's memory behind the cache of mapped pages: `__copy_to_guest_memory` and
-- `__copy_from_guest_memory` of demu.c.
use citrix_vgpu.Prelude.{
  ℕ, zero, suc, ◌+◌, ◌-◌, ◌*◌, ◌/◌, ◌%◌, ◌^◌, Bool, Option, none, some, List, ◌∷◌, if◌then◌else◌,
  ◌==◌, ltb, update,
}
use citrix_vgpu.Mapcache.{Cache, mapcache_lookup}

-- The cache, the bytes at the program's addresses, and the pages reported to Xen as modified, the
-- last first
pub record Memory : Type 0 where
  pub cache : Cache
  pub byte : ℕ → ℕ
  pub modified : List ℕ

-- `memcpy` from a number in memory
unfoldable pub store : ℕ → ℕ → ℕ → (ℕ → ℕ) → ℕ → ℕ
store zero p x byte = byte
store (suc n) p x byte = update (store n (p + 1) (x / 256) byte) p (x % 256)

-- `memcpy` to a number
unfoldable pub load : ℕ → ℕ → (ℕ → ℕ) → ℕ
load zero p byte = 0
load (suc n) p byte = byte p + 256 * load n (p + 1) byte

-- The assertion on the page
abbrev pub same_page : ℕ → ℕ → Bool
same_page addr size = (addr + size + (2 ^ 64 - 1)) % 2 ^ 64 / 2 ^ 12 == addr / 2 ^ 12

unfoldable pub copy_to_guest : (ℕ → Option ℕ) → ℕ → ℕ → ℕ → Memory → Option Memory
copy_to_guest map_page addr size x m =
    let (cache, dst) = mapcache_lookup map_page addr m.cache in
    if same_page addr size
    then elim dst [
      | none ↦ some (record m { cache = cache })
      | some p ↦
          if ltb 8 size
          then none
          else some (record {
            cache = cache;
            byte = store size p x m.byte;
            modified = addr / 2 ^ 12 ∷ m.modified;
          })
    ]
    else none

-- The bytes of `data` above `size` are not set by the code, and no callback is given them; they are 0
-- here.
unfoldable pub copy_from_guest : (ℕ → Option ℕ) → ℕ → ℕ → Memory → Option (ℕ × Memory)
copy_from_guest map_page addr size m =
    let (cache, src) = mapcache_lookup map_page addr m.cache in
    if same_page addr size
    then (if ltb 8 size
        then none
        else some (
          elim src [ none ↦ 2 ^ (8 * size) - 1 | some p ↦ load size p m.byte ],
          record m { cache = cache },
        ))
    else none
