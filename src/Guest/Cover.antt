-- ===== src/Guest/Cover.antt =====
-- Which bytes of a guest range the pages of `demu_map_guest_range` hold.
use citrix_vgpu.Prelude.{
  ℕ, zero, suc, ◌^◌, ◌-◌, ◌+◌, ◌*◌, ◌/◌, ◌%◌, ◌==◌, ◌≡◌, ◌≤◌, ◌<◌, ◌↔◌, ◌||◌, ◌&&◌, leb, ltb, Bool,
  true, false, List, [], ◌∷◌, arith, refl, Option,
}
use citrix_vgpu.Guest.{pages_from, page_count, demu_map_guest_range, demu_map_guest_pages}

abbrev pub has : ℕ → List ℕ → Bool
has a [] = false
has a (x ∷ l) = (a == x) || has a l

has-pages_from : (p first n : ℕ) → has p (pages_from first n) ≡ (leb first p && ltb p (first + n))
unfolding pages_from
has-pages_from p first zero = ground arith
has-pages_from p first (suc n) = ground (arith, has-pages_from p (first + 1) n)

-- The pages that `demu_map_guest_range` asks for
abbrev pub range_pages : ℕ → ℕ → List ℕ
range_pages addr size = pages_from (addr / 4096) (page_count size)

-- Whether each of the first `n` bytes from an address lies in one of the pages
unfoldable pub all_held : List ℕ → ℕ → ℕ → Bool
all_held pages addr zero = true
all_held pages addr (suc n) = has ((addr + n) / 4096) pages && all_held pages addr n

all_held_of_fits :
    (addr n k : ℕ)
    → addr % 4096 + n ≤ 4096 * k
    → all_held (pages_from (addr / 4096) k) addr n ≡ true
unfolding all_held
all_held_of_fits addr zero k fits = refl
all_held_of_fits addr (suc n) k fits =
    let low : addr / 4096 ≤ (addr + n) / 4096 = omega arith in
    let high : (addr + n) / 4096 < addr / 4096 + k = omega (arith, fits) in
    ground (
      arith,
      has-pages_from ((addr + n) / 4096) (addr / 4096) k,
      all_held_of_fits addr n k (omega arith),
    )

fits_of_all_held :
    (addr n k : ℕ)
    → 0 < n
    → all_held (pages_from (addr / 4096) k) addr n ≡ true
    → addr % 4096 + n ≤ 4096 * k
unfolding all_held
fits_of_all_held addr zero k pos held = absurd (omega arith)
fits_of_all_held addr (suc n) k pos held =
    let high : (addr + n) / 4096 < addr / 4096 + k =
      ground (arith, has-pages_from ((addr + n) / 4096) (addr / 4096) k) in
    omega (arith, high)

page_count_small : (size : ℕ) → size ≤ 2 ^ 43 - 4096 → page_count size ≡ (size + 4095) / 4096
unfolding page_count
page_count_small size h = omega (arith, h)

mapped_range :
    (populated : List ℕ → Bool) (map_pages : List ℕ → Bool → Option ℕ) (addr size : ℕ)
    (read_only : Bool)
    → page_count size < 2 ^ 31
    → demu_map_guest_range true populated map_pages addr size read_only false
      ≡ map_pages (range_pages addr size) read_only
unfolding demu_map_guest_range demu_map_guest_pages
mapped_range populated map_pages addr size read_only h = ground arith

-- Without `populate`, a range of at most 2^43 - 4096 bytes is mapped as `range_pages`. These pages hold
-- each byte of a range that is not empty exactly if its size, with the part of its first page before
-- it, fits in as many pages as the size alone needs. So a range that does not begin on a page boundary
-- may lack its last page.
pub demu_map_guest_range_covers :
    (populated : List ℕ → Bool) (map_pages : List ℕ → Bool → Option ℕ) (addr size : ℕ)
    (read_only : Bool)
    → 0 < size
    → size ≤ 2 ^ 43 - 4096
    → (demu_map_guest_range true populated map_pages addr size read_only false
        ≡ map_pages (range_pages addr size) read_only)
      × ((all_held (range_pages addr size) addr size ≡ true)
          ↔ (addr % 4096 + size ≤ 4096 * ((size + 4095) / 4096)))
demu_map_guest_range_covers populated map_pages addr size read_only pos small =
    let n = page_count_small size small in
    (
      mapped_range populated map_pages addr size read_only (omega (arith, n, small)),
      (
        λ e. rw⁻¹ n (fits_of_all_held addr size (page_count size) pos e),
        λ e. all_held_of_fits addr size (page_count size) (rw n e),
      ),
    )
