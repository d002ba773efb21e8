-- ===== src/Env/Devices/Lists.antt =====
-- The two lists of devices stay lists, and share no entry.
use citrix_vgpu.Prelude.{[], none, some, ◌∷◌, List, ◌≡◌, refl, sym, arith, true, false, Option, ℕ}
use mathlib.Core.Path.{subst}
use citrix_vgpu.Env.Links.{list_insert, list_remove}
use citrix_vgpu.Env.Links.Chain.{
  has, Chain, Apart, SameOutside, Chain-frame, list_insert-Chain, list_insert-SameOutside,
}
use citrix_vgpu.Env.Links.Remove.{
  erase_hit, list_remove-Chain, list_remove-SameOutside, list_remove_cleared, erase,
}
use citrix_vgpu.Env.Devices.{Links, Devices, take_device, give_back, enlist, zeroed}

-- A list that shares no node with `m` survives what changes `m` only.
pub Chain-Apart :
    (m l : List ℕ) (p h : Option ℕ) (s t : Links)
    → SameOutside m s t
    → Apart l m
    → Chain s p h l
    → Chain t p h l
Chain-Apart m l p h s t same apart c = Chain-frame s t p h l c (λ a i. same a (apart a i))

-- The entry that is taken: the head of the free list, or the one that `calloc` gives.
abbrev pub next_entry : Option ℕ → List ℕ → Option ℕ
next_entry calloc [] = calloc
next_entry calloc (x ∷ f) = some x

abbrev pub IsNew : Option ℕ → List ℕ → Type 0
IsNew none u = Unit {0}
IsNew (some x) u = has x u ≡ false

module _ {C : Type 0} where
  -- The registered entries are `u`, the free ones are `f`.
  abbrev pub WellLinked : Devices C → List ℕ → List ℕ → Type 0
  WellLinked d u f =
      Chain d.links none d.emul_device_list u
      × Chain d.links none d.free_emul_device_list f
      × Apart u f

  -- An entry that is in neither list
  abbrev pub IsTaken : ℕ → Devices C → List ℕ → List ℕ → Type 0
  IsTaken x d u f =
      WellLinked d u f × (has x u ≡ false) × (has x f ≡ false) × (d.links.prev x ≡ none)

  pub enlist-WellLinked :
      (x : ℕ) (d : Devices C) (u f : List ℕ) → IsTaken x d u f → WellLinked (enlist x d) (x ∷ u) f
  unfolding enlist
  enlist-WellLinked x d u f t = (
    list_insert-Chain x d.emul_device_list u d.links t.0.0 t.1 t.3,
    Chain-Apart (x ∷ u) f none d.free_emul_device_list d.links
        ((list_insert x d.emul_device_list d.links).1)
        (list_insert-SameOutside x d.emul_device_list u d.links t.0.0)
        (λ a i. ground (arith, t.0.2 a)) t.0.1,
    λ a i. ground (arith, t.0.2 a),
  )

  pub give_back-WellLinked :
      (x : ℕ) (d : Devices C) (u f : List ℕ)
      → IsTaken x d u f
      → WellLinked (give_back x d) u (x ∷ f)
  unfolding give_back
  give_back-WellLinked x d u f t = (
    Chain-Apart (x ∷ f) u none d.emul_device_list d.links
        ((list_insert x d.free_emul_device_list d.links).1)
        (list_insert-SameOutside x d.free_emul_device_list f d.links t.0.1)
        (λ a i. ground (arith, t.0.2 a i)) t.0.0,
    list_insert-Chain x d.free_emul_device_list f d.links t.0.1 t.2 t.3,
    λ a i. ground (arith, t.0.2 a i),
  )

  -- The state without the head of the free list
  abbrev unlisted : ℕ → Devices C → Devices C
  unlisted x d = record d {
    free_emul_device_list = (list_remove x d.free_emul_device_list d.links).0;
    links = (list_remove x d.free_emul_device_list d.links).1;
  }

  take_device_free :
      (x : ℕ) (calloc : Option ℕ) (d : Devices C)
      → d.free_emul_device_list ≡ some x
      → take_device calloc d ≡ (some x, unlisted x d)
  unfolding take_device
  take_device_free x calloc d e = ground arith

  take_device_new :
      (x : ℕ) (d : Devices C)
      → d.free_emul_device_list ≡ none
      → take_device (some x) d ≡ (some x, zeroed x d)
  unfolding take_device
  take_device_new x d e = ground arith

  unlisted-IsTaken :
      (x : ℕ) (d : Devices C) (u f : List ℕ) → WellLinked d u (x ∷ f) → IsTaken x (unlisted x d) u f
  unlisted-IsTaken x d u f w =
      let here : has x (x ∷ f) ≡ true = ground arith in
      let gone = list_remove-Chain x d.free_emul_device_list (x ∷ f) d.links w.1 here in
      let shape : erase x (x ∷ f) ≡ f = erase_hit x x f (ground arith) in
      let same = list_remove-SameOutside x d.free_emul_device_list (x ∷ f) d.links w.1 here in
      (
        (
          Chain-Apart (x ∷ f) u none d.emul_device_list d.links
              ((list_remove x d.free_emul_device_list d.links).1) same w.2 w.0,
          subst
              (Chain ((list_remove x d.free_emul_device_list d.links).1) none
                ((list_remove x d.free_emul_device_list d.links).0))
              shape gone,
          λ a i. ground (arith, w.2 a i),
        ),
        ground (arith, w.2 x),
        w.1.2,
        (list_remove_cleared x d.free_emul_device_list d.links).1,
      )

  zeroed-IsTaken :
      (x : ℕ) (d : Devices C) (u : List ℕ)
      → WellLinked d u []
      → has x u ≡ false
      → IsTaken x (zeroed x d) u []
  zeroed-IsTaken x d u w new = (
    (
      Chain-Apart (x ∷ []) u none d.emul_device_list d.links ((zeroed x d).links)
          (λ a out. (ground arith, ground arith)) (λ a i. ground arith) w.0,
      w.1,
      λ a i. refl,
    ),
    new,
    refl,
    ground arith,
  )

  -- The state after an entry is taken
  abbrev pub taken : ℕ → Devices C → Devices C
  taken x d = elim d.free_emul_device_list [ none ↦ zeroed x d | some y ↦ unlisted x d ]

  take_old :
      (x : ℕ) (calloc : Option ℕ) (d : Devices C) (u f : List ℕ)
      → WellLinked d u (x ∷ f)
      → (take_device calloc d ≡ (some x, taken x d)) × IsTaken x (taken x d) u (erase x (x ∷ f))
  take_old x calloc d u f w =
      let same : taken x d ≡ unlisted x d = ground (arith, w.1.0) in
      rw (same, erase_hit x x f (ground arith))
        (take_device_free x calloc d w.1.0, unlisted-IsTaken x d u f w)

  take_fresh :
      (x : ℕ) (d : Devices C) (u : List ℕ)
      → WellLinked d u []
      → has x u ≡ false
      → (take_device (some x) d ≡ (some x, taken x d)) × IsTaken x (taken x d) u (erase x [])
  unfolding erase
  take_fresh x d u w new =
      let same : taken x d ≡ zeroed x d = ground (arith, w.1) in
      rw same (take_device_new x d w.1, zeroed-IsTaken x d u w new)

  -- Taking the next entry leaves both lists whole, and the entry in neither.
  pub take_device_lem :
      (x : ℕ) (calloc : Option ℕ) (d : Devices C) (u f : List ℕ)
      → WellLinked d u f
      → next_entry calloc f ≡ some x
      → IsNew calloc u
      → (take_device calloc d ≡ (some x, taken x d)) × IsTaken x (taken x d) u (erase x f)
  take_device_lem x none d u [] w e new = cc
  take_device_lem x (some y) d u [] w e new =
      let same : y ≡ x = ground arith in rw (sym same) (take_fresh y d u w new)
  take_device_lem x calloc d u (y ∷ f) w e new =
      let same : y ≡ x = ground arith in rw (sym same) (take_old y calloc d u f w)
