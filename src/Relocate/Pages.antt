-- ===== src/Relocate/Pages.antt =====
-- Which pages a relocation of demu.c has moved, also when Xen refuses one.
use mathlib.Core.Path.{subst}
use citrix_vgpu.Prelude.{
  sym, Bool-cases, ◌≢◌, ◌≢◌, ℕ, zero, suc, ◌+◌, ◌-◌, ◌/◌, ◌^◌, ◌≡◌, ◌≤◌, ◌<◌, ◌↔◌, ◌⊎◌, refl, ap,
  ◌∙◌, Bool, true, false, Option, none, some, leb, ltb, ◌&&◌, ◌==◌, if◌then◌else◌, arith,
  Option-cases, inl, inr,
}
use citrix_vgpu.Relocate.{
  Physmap, Placed, move_pages, demu_relocate_guest_range, demu_set_vram_addr,
}

-- Xen moves a page: the new place has what the old had, the old has nothing, and nothing else changes.
abbrev pub Moves : (ℕ → ℕ → Physmap → Option Physmap) → Type 0
Moves move_page =
    (from to : ℕ) (m m' : Physmap)
    → from ≢ to
    → move_page from to m ≡ some m'
    → (p : ℕ) → m' p ≡ (if p == to then m from else if p == from then none else m p)

-- The map after the first `k` pages at `a` have been moved to `b`
abbrev pub moved : ℕ → ℕ → ℕ → Physmap → Physmap
moved a b k m p =
    if leb b p && ltb p (b + k)
    then m (a + (p - b))
    else if leb a p && ltb p (a + k)
    then none
    else m p

-- The two ranges of `n` pages do not meet.
abbrev pub Apart : ℕ → ℕ → ℕ → Type 0
Apart a b n = (a + n ≤ b) ⊎ (b + n ≤ a)

Apart-ne : (a b n i : ℕ) → Apart a b n → i < n → a + i ≢ b + i
Apart-ne a b n i (inl l) h e = omega arith
Apart-ne a b n i (inr l) h e = omega arith

source_unmoved :
    (a b n i : ℕ) (m0 : Physmap) → Apart a b n → i < n → moved a b i m0 (a + i) ≡ m0 (a + i)
source_unmoved a b n i m0 (inl l) h = ground arith
source_unmoved a b n i m0 (inr l) h = ground arith

not_both : {b : Bool} → b ≡ false → b ≡ true → ⊥
not_both e f = cc

module _ (move_page : ℕ → ℕ → Physmap → Option Physmap) (law : Moves move_page) where
  one_more :
      (a b n i : ℕ) (m0 m m' : Physmap)
      → Apart a b n
      → i < n
      → ((p : ℕ) → m p ≡ moved a b i m0 p)
      → move_page (a + i) (b + i) m ≡ some m'
      → (p : ℕ) → m' p ≡ moved a b (suc i) m0 p
  one_more a b n i m0 m m' apart h before e p =
      let differ : a + i ≢ b + i = Apart-ne a b n i apart (omega arith) in
      let new = law (a + i) (b + i) m m' differ e p in
      elim (Bool-cases (p == b + i)) [
        | inl q ↦
            let source = source_unmoved a b n i m0 apart h in
            let same : m0 (a + i) ≡ m0 (a + (p - b)) = ap m0 (ground arith) in
            ground (arith, before (a + i))
        | inr q ↦ elim (Bool-cases (p == a + i)) [
          | inl r ↦ elim apart [ inl l ↦ ground arith | inr l ↦ ground arith ]
          | inr r ↦ ground (arith, before p)
        ]
      ]

  -- All pages have been moved, or Xen refuses to move the next one.
  abbrev pub StopsAt : ℕ → ℕ → ℕ → ℕ → Physmap → Type 0
  StopsAt old new total k m =
      (k ≡ total) ⊎ (move_page (old / 2 ^ 12 + k) (new / 2 ^ 12 + k) m ≡ none)

  -- The loop moves the pages from `i` on, up to the first that Xen refuses.
  move_pages_lem :
      (old new total n i : ℕ) (m0 m : Physmap)
      → Apart (old / 2 ^ 12) (new / 2 ^ 12) total
      → i + n ≡ total
      → ((p : ℕ) → m p ≡ moved (old / 2 ^ 12) (new / 2 ^ 12) i m0 p)
      → (k : ℕ) × (k ≤ total)
        × (((move_pages move_page old new n i m).1 ≡ true) ↔ (k ≡ total))
        × StopsAt old new total k (move_pages move_page old new n i m).0
        × ((p : ℕ)
            → (move_pages move_page old new n i m).0 p ≡ moved (old / 2 ^ 12) (new / 2 ^ 12) k m0 p)
  unfolding move_pages
  move_pages_lem old new total zero i m0 m apart e h =
      (i, omega arith, (λ t. omega arith, λ t. refl), inl (omega arith), h)
  move_pages_lem old new total (suc n) i m0 m apart e h =
      elim (Option-cases (move_page (old / 2 ^ 12 + i) (new / 2 ^ 12 + i) m)) [
        | inl f ↦
            let stops : move_pages move_page old new (suc n) i m ≡ (m, false) = ground arith in
            rw stops (i, omega arith, (λ t. cc, λ t. absurd (omega arith)), inr f, h)
        | inr (m', f) ↦
            let goes_on : move_pages move_page old new (suc n) i m
                ≡ move_pages move_page old new n (suc i) m' =
              ground arith in
            rw goes_on (
              move_pages_lem old new total n (suc i) m0 m' apart (omega arith)
                (one_more (old / 2 ^ 12) (new / 2 ^ 12) total i m0 m m' apart (omega arith) h f))
      ]

  none_moved : (a b : ℕ) (m : Physmap) (p : ℕ) → m p ≡ moved a b 0 m p
  none_moved a b m p = ground arith

  -- The two ways in which the address is changed or not
  abbrev taken : ℕ → Placed → Placed
  taken addr p = record p {
    vram_addr = addr;
    physmap = (move_pages move_page p.vram_addr addr 4096 0 p.physmap).0;
    lfb_updates = p.lfb_updates + 1;
    state_dirty = true;
  }

  abbrev refused : ℕ → Placed → Placed
  refused addr p = record p { physmap = (move_pages move_page p.vram_addr addr 4096 0 p.physmap).0 }

  set_steps :
      (addr : ℕ) (p : Placed)
      → p.resuming ≡ false
      → p.vram_addr ≢ addr
      → demu_set_vram_addr move_page addr p ≡ (
          if (move_pages move_page p.vram_addr addr 4096 0 p.physmap).1
          then taken addr p
          else refused addr p)
  unfolding demu_set_vram_addr demu_relocate_guest_range
  set_steps addr p r ne = ground arith

  -- A change of the address of the video memory outside of a restore, to another place that does not
  -- meet the old one, moves its 4096 pages in order up to the first that Xen refuses: it stops at the
  -- end, or at a page whose move Xen refuses on the map left. At the end, the new address is taken, the
  -- frame buffer's address is updated and the state is marked. Otherwise the old address stays although
  -- the pages before have gone. No other page of the guest changes.
  pub demu_set_vram_addr_lem :
      (addr : ℕ) (p : Placed)
      → p.resuming ≡ false
      → p.vram_addr ≢ addr
      → Apart (p.vram_addr / 2 ^ 12) (addr / 2 ^ 12) 4096
      → (k : ℕ) × (k ≤ 4096)
        × StopsAt p.vram_addr addr 4096 k (demu_set_vram_addr move_page addr p).physmap
        × ((demu_set_vram_addr move_page addr p).vram_addr
            ≡ (if k == 4096 then addr else p.vram_addr))
        × ((demu_set_vram_addr move_page addr p).lfb_updates
            ≡ (if k == 4096 then p.lfb_updates + 1 else p.lfb_updates))
        × ((demu_set_vram_addr move_page addr p).state_dirty
            ≡ (if k == 4096 then true else p.state_dirty))
        × ((page : ℕ)
            → (demu_set_vram_addr move_page addr p).physmap page
              ≡ moved (p.vram_addr / 2 ^ 12) (addr / 2 ^ 12) k p.physmap page)
  demu_set_vram_addr_lem addr p r ne apart =
      let (k, small, ends, stops, pages) =
        move_pages_lem p.vram_addr addr 4096 4096 0 p.physmap p.physmap apart (omega arith)
          (none_moved (p.vram_addr / 2 ^ 12) (addr / 2 ^ 12) p.physmap) in
      let res = set_steps addr p r ne in
      elim (Bool-cases (move_pages move_page p.vram_addr addr 4096 0 p.physmap).1) [
        | inl t ↦
            let all = ends.0 t in
            let same : demu_set_vram_addr move_page addr p ≡ taken addr p = ground arith in
            (
              k,
              small,
              subst (λ (q : Placed). StopsAt p.vram_addr addr 4096 k q.physmap) (sym same) stops,
              ap (λ (q : Placed). q.vram_addr) same ∙ ground arith,
              ap (λ (q : Placed). q.lfb_updates) same ∙ ground arith,
              ap (λ (q : Placed). q.state_dirty) same ∙ ground arith,
              λ page. ap (λ (q : Placed). q.physmap page) same ∙ pages page,
            )
        | inr t ↦
            let not_all : k ≢ 4096 = λ e. absurd (not_both t (ends.1 e)) in
            let same : demu_set_vram_addr move_page addr p ≡ refused addr p = ground arith in
            (
              k,
              small,
              subst (λ (q : Placed). StopsAt p.vram_addr addr 4096 k q.physmap) (sym same) stops,
              ap (λ (q : Placed). q.vram_addr) same ∙ ground arith,
              ap (λ (q : Placed). q.lfb_updates) same ∙ ground arith,
              ap (λ (q : Placed). q.state_dirty) same ∙ ground arith,
              λ page. ap (λ (q : Placed). q.physmap page) same ∙ pages page,
            )
      ]
