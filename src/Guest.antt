-- ===== src/Guest.antt =====
-- The guest's pages in demu.c: `demu_map_guest_pages`, `demu_map_guest_range`,
-- `demu_set_guest_pages`, `demu_set_guest_dirty_pages` and `demu_translate_guest_pages`.
--
-- Xen's library is outside the repository: what its functions return are arguments, and a result
-- below 0 is `false`.
pub mod Cover
mod Tests
use citrix_vgpu.Prelude.{
  ℕ, zero, suc, ◌+◌, ◌-◌, ◌*◌, ◌/◌, ◌%◌, ◌^◌, ◌==◌, ◌&&◌, ltb, Bool, true, false, Option, none,
  some, List, [], ◌∷◌, if◌then◌else◌,
}

-- `xc_map_foreign_pages`: the pages and whether they are read only. `none` is NULL.
abbrev pub MapPages : Type 0
MapPages = List ℕ → Bool → Option ℕ

unfoldable pub demu_map_guest_pages : (List ℕ → Bool) → MapPages → List ℕ → Bool → Bool → Option ℕ
demu_map_guest_pages populated map_pages pfn read_only populate =
    if populate
    then (if populated pfn then map_pages pfn read_only else none)
    else map_pages pfn read_only

-- `pfn[i] = (addr >> TARGET_PAGE_SHIFT) + i`
unfoldable pub pages_from : ℕ → ℕ → List ℕ
pages_from first zero = []
pages_from first (suc n) = first ∷ pages_from (first + 1) n

-- `P2ROUNDUP(size, TARGET_PAGE_SIZE) >> TARGET_PAGE_SHIFT`, of 64 bits, stored in an `int`: its low
-- 32 bits, and a number of 2^31 or more is negative.
unfoldable pub page_count : ℕ → ℕ
page_count size = (size + 4095) / 4096 * 4096 % 2 ^ 64 / 4096 % 2 ^ 32

-- `malloc_ok` says whether there is memory for the array. There is none for a negative number of pages:
-- its size as a `size_t` is more than 2^64 - 2^35.
unfoldable pub demu_map_guest_range :
    Bool → (List ℕ → Bool) → MapPages → ℕ → ℕ → Bool → Bool → Option ℕ
unfolding page_count pages_from
demu_map_guest_range malloc_ok populated map_pages addr size read_only populate =
    if malloc_ok && ltb (page_count size) (2 ^ 31)
    then demu_map_guest_pages populated map_pages (pages_from (addr / 4096) (page_count size))
        read_only populate
    else none

-- The calls that change what the guest may reach: the permission for `mn` pages at a machine frame,
-- and their mapping at a guest frame
pub data PageCall : Type 0 where
  permit : ℕ → ℕ → Bool → PageCall
  place : ℕ → ℕ → ℕ → Bool → PageCall

-- The calls made, in order, and whether 0 is returned
unfoldable pub demu_set_guest_pages : (PageCall → Bool) → ℕ → ℕ → ℕ → Bool → List PageCall × Bool
demu_set_guest_pages ok gfn mfn count true =
    if ok (permit mfn count true)
    then (permit mfn count true ∷ place gfn mfn count true ∷ [], ok (place gfn mfn count true))
    else (permit mfn count true ∷ [], false)
demu_set_guest_pages ok gfn mfn count false =
    if ok (place gfn mfn count false)
    then (place gfn mfn count false ∷ permit mfn count false ∷ [], ok (permit mfn count false))
    else (place gfn mfn count false ∷ [], false)

-- The ranges that `xc_hvm_modified_memory` is told of, and whether all are taken
unfoldable pub demu_set_guest_dirty_pages : (ℕ × ℕ → Bool) → List (ℕ × ℕ) → List (ℕ × ℕ) × Bool
demu_set_guest_dirty_pages ok [] = ([], true)
demu_set_guest_dirty_pages ok (r ∷ l) =
    let (told, all) = demu_set_guest_dirty_pages ok l in
    if ok r then (r ∷ told, all) else (r ∷ [], false)

-- What a lookup of the IOMMU answers for a page: the bus frame, or a status that is not 0. -1 is
-- the frame for a failed lookup.
abbrev pub frame_of : Option ℕ → ℕ
frame_of none = 2 ^ 64 - 1
frame_of (some bfn) = bfn

unfoldable pub frames : (ℕ → Option ℕ) → List ℕ → List ℕ
frames lookup [] = []
frames lookup (p ∷ l) = frame_of (lookup p) ∷ frames lookup l

-- `call_ok` says whether `xc_iommu_op` succeeds; `none` is its error.
unfoldable pub demu_translate_guest_pages : Bool → (ℕ → Option ℕ) → List ℕ → Option (List ℕ)
unfolding frames
demu_translate_guest_pages call_ok lookup pfns = if call_ok then some (frames lookup pfns) else none
