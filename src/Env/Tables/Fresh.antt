-- ===== src/Env/Tables/Fresh.antt =====
-- What an allocation gives was not in use, and every other handle keeps its object.
use citrix_vgpu.Prelude.{
  ◌&&◌, ◌*◌, ==_iff, ap, ◌∙◌, ℕ, zero, suc, ◌+◌, ◌-◌, ◌%◌, ◌^◌, ◌<◌, ◌≤◌, ◌≡◌, ◌≢◌, ◌==◌, leb, ltb,
  Bool, true, Option, none, some, List, [], ◌∷◌, ◌++◌, arith, refl, inl, inr, Option-cases,
  Bool-cases, if◌then◌else◌,
}
use citrix_vgpu.Env.{success, handle_null}
use citrix_vgpu.Env.Tables.{
  Block, Table, index_to_object, scan_handles, handle_to_object, first_free, clear, take_slot,
  new_block, allocate_table_element,
}

-- The blocks number the handles from `n` to `limit` without a gap.
abbrev pub Bases : {E : Type 0} → ℕ → List (Block E) → ℕ → Type 0
Bases n [] limit = limit ≡ n
Bases n (b ∷ l) limit = (b.base_handle ≡ n) × Bases (n + 128) l limit

module _ {E : Type 0} where
  pub Bases-le : (n limit : ℕ) (l : List (Block E)) → Bases n l limit → n ≤ limit
  Bases-le n limit [] h = omega arith
  Bases-le n limit (b ∷ l) h = omega (arith, Bases-le (n + 128) limit l h.1)

  pub Bases-append :
      (n limit : ℕ) (l : List (Block E)) (b : Block E)
      → Bases n l limit
      → b.base_handle ≡ limit
      → Bases n (l ++ b ∷ []) (limit + 128)
  Bases-append n limit [] b h e = (e ∙ h, ap (λ (t : ℕ). t + 128) h)
  Bases-append n limit (c ∷ l) b h e = (h.0, Bases-append (n + 128) limit l b h.1 e)

module _ {E : Type 0} (element_size : ℕ) (is_free : E → Bool) (zeroed : E) where
  first_free_lem :
      (slots : ℕ → E) (n i j : ℕ)
      → first_free element_size is_free slots n i ≡ some j
      → (is_free (slots j) ≡ true) × (i ≤ j) × (j < i + n)
  unfolding first_free
  first_free_lem slots zero i j h = cc
  first_free_lem slots (suc n) i j h = elim (Bool-cases (is_free (slots i))) [
    | inl e ↦ ground arith
    | inr e ↦ ground (arith, first_free_lem slots n (i + 1) j (ground arith))
  ]

  -- Handles below the first block are not found.
  scan_below :
      (n limit h : ℕ) (l : List (Block E))
      → Bases n l limit
      → h < n
      → scan_handles element_size is_free h l ≡ none
  unfolding scan_handles
  scan_below n limit h [] b lt = refl
  scan_below n limit h (c ∷ l) b lt = ground arith

  scan_above :
      (n limit h : ℕ) (l : List (Block E))
      → Bases n l limit
      → limit ≤ h
      → limit < 2 ^ 32
      → scan_handles element_size is_free h l ≡ none
  unfolding scan_handles
  scan_above n limit h [] b le lt = refl
  scan_above n limit h (c ∷ l) b le lt =
      ground (arith, Bases-le (n + 128) limit l b.1, scan_above (n + 128) limit h l b.1)

  module _ (c : Block E) (l : List (Block E)) (room : c.base_handle + 128 < 2 ^ 32) where
    clear_scan :
        (i h : ℕ)
        → i < 128
        → is_free (c.slots i) ≡ true
        → scan_handles element_size is_free h (clear element_size is_free zeroed i c ∷ l) ≡ (
            if h == c.base_handle + i
            then (if is_free zeroed then none else some (index_to_object element_size c i))
            else scan_handles element_size is_free h (c ∷ l))
    unfolding scan_handles index_to_object
    clear_scan i h small free = elim (Bool-cases (h == c.base_handle + i)) [
      | inl e ↦
          let same : h - c.base_handle ≡ i = omega (arith, (==_iff h (c.base_handle + i)).0 e) in
          ground (arith, same)
      | inr e ↦ ground arith
    ]

    free_scan :
        (i : ℕ)
        → i < 128
        → is_free (c.slots i) ≡ true
        → scan_handles element_size is_free (c.base_handle + i) (c ∷ l) ≡ none
    unfolding scan_handles
    free_scan i small free =
        let same : c.base_handle + i - c.base_handle ≡ i = omega arith in ground (arith, same)

    rest_scan :
        (l' : List (Block E)) (p object h : ℕ)
        → c.base_handle + 128 ≤ p
        → scan_handles element_size is_free h l' ≡ (
            if h == p
            then (if is_free zeroed then none else some object)
            else scan_handles element_size is_free h l)
        → scan_handles element_size is_free h (c ∷ l') ≡ (
            if h == p
            then (if is_free zeroed then none else some object)
            else scan_handles element_size is_free h (c ∷ l))
    unfolding scan_handles
    rest_scan l' p object h far same = ground arith

    past_scan :
        (p : ℕ)
        → c.base_handle + 128 ≤ p
        → scan_handles element_size is_free p l ≡ none
        → scan_handles element_size is_free p (c ∷ l) ≡ none
    unfolding scan_handles
    past_scan p far e = ground arith

  -- Taking a slot of the blocks: it is in one of them, it was free, and no other place changes.
  take_slot_lem :
      (n limit p object : ℕ) (l l' : List (Block E))
      → Bases n l limit
      → limit < 2 ^ 32
      → take_slot element_size is_free zeroed l ≡ some (p, object, l')
      → Bases n l' limit
        × (n ≤ p)
        × (p < limit)
        × (scan_handles element_size is_free p l ≡ none)
        × ((h : ℕ)
            → scan_handles element_size is_free h l' ≡ (
                if h == p
                then (if is_free zeroed then none else some object)
                else scan_handles element_size is_free h l))
  unfolding take_slot
  take_slot_lem n limit p object [] l' b lt e = cc
  take_slot_lem n limit p object (c ∷ l) l' b lt e =
      let above = Bases-le (n + 128) limit l b.1 in
      elim (Option-cases (first_free element_size is_free c.slots 128 0)) [
        | inr (i, f) ↦
            let w = first_free_lem c.slots 128 0 i f in
            let place : p ≡ c.base_handle + i = ground arith in
            let at : object ≡ index_to_object element_size c i = ground arith in
            let list : l' ≡ clear element_size is_free zeroed i c ∷ l = ground arith in
            let room : c.base_handle + 128 < 2 ^ 32 = omega (arith, b.0) in
            rw (place, at, list)
              (
                b,
                omega (arith, b.0),
                omega (arith, b.0, w.2),
                free_scan c l room i (omega (arith, w.2)) w.0,
                λ h. clear_scan c l room i h (omega (arith, w.2)) w.0,
              )
        | inl f ↦ elim (Option-cases (take_slot element_size is_free zeroed l)) [
          | inl m ↦ absurd (ground arith)
          | inr ((q, o, k), m) ↦
              let place : p ≡ q = ground arith in
              let at : object ≡ o = ground arith in
              let list : l' ≡ c ∷ k = ground arith in
              let room : c.base_handle + 128 < 2 ^ 32 = omega (arith, b.0) in
              let ih = take_slot_lem (n + 128) limit q o l k b.1 lt m in
              let far : c.base_handle + 128 ≤ q = omega (arith, b.0, ih.1) in
              rw (place, at, list)
                (
                  (b.0, ih.0),
                  omega (arith, ih.1),
                  ih.2,
                  past_scan c l room q far ih.3,
                  λ h. rest_scan c l room k q o h far (ih.4 h),
                )
        ]
      ]

  -- A new block answers for its own handles.
  pub append_scan :
      (n limit addr h : ℕ) (l : List (Block E))
      → Bases n l limit
      → limit + 128 < 2 ^ 32
      → scan_handles element_size is_free h
          (l ++ new_block element_size is_free zeroed limit addr ∷ [])
        ≡ (if leb limit h && ltb h (limit + 128)
            then (if is_free zeroed
                then none
                else some (addr + (h - limit) * element_size % 2 ^ 32))
            else scan_handles element_size is_free h l)
  unfolding scan_handles index_to_object
  append_scan n limit addr h [] b room = ground arith
  append_scan n limit addr h (c ∷ l) b room =
      let above = Bases-le (n + 128) limit l b.1 in
      ground (arith, append_scan (n + 128) limit addr h l b.1 room)

  -- In a table whose zeroed entry counts as free, which leaves out the table of regions, whose blocks
  -- are numbered from 0 without a gap, and whose limit is more than 128 below 2^32, an allocation that
  -- reports success gives a handle that found nothing. The blocks stay numbered without a gap, and
  -- until the caller fills the object, every handle finds what it found.
  pub allocate_table_element_fresh :
      (calloc : Option ℕ) (t t' : Table E) (handle j : ℕ) (object : Option ℕ)
      → is_free zeroed ≡ true
      → Bases 0 t.blocks t.table_limit
      → t.table_limit + 128 < 2 ^ 32
      → allocate_table_element element_size is_free zeroed calloc t ≡ (success, handle, object, t')
      → (handle ≢ handle_null)
        × (handle_to_object element_size is_free handle t ≡ none)
        × Bases 0 t'.blocks t'.table_limit
        × (handle_to_object element_size is_free j t' ≡ handle_to_object element_size is_free j t)
  unfolding allocate_table_element handle_to_object
  allocate_table_element_fresh calloc t t' handle j object free b room e =
      elim (Option-cases (take_slot element_size is_free zeroed t.blocks)) [
        | inr ((p, o, l), m) ↦
            let w = take_slot_lem 0 t.table_limit p o t.blocks l b (omega arith) m in
            let given : handle ≡ p + 1 = ground (arith, w.2) in
            let less : handle - 1 ≡ p = omega (arith, given) in
            let blocks : t'.blocks ≡ l = ground arith in
            let limit : t'.table_limit ≡ t.table_limit = ground arith in
            (
              λ z. omega (arith, given, z),
              ground (arith, less, w.3),
              rw (blocks, limit) w.0,
              ground (arith, blocks, w.4 (j - 1)),
            )
        | inl m ↦ elim (Option-cases calloc) [
          | inl n ↦ absurd (ground arith)
          | inr (addr, n) ↦
              let last = new_block element_size is_free zeroed t.table_limit addr in
              let given : handle ≡ t.table_limit + 1 = ground arith in
              let less : handle - 1 ≡ t.table_limit = omega (arith, given) in
              let blocks : t'.blocks ≡ t.blocks ++ last ∷ [] = ground arith in
              let limit : t'.table_limit ≡ t.table_limit + 128 = ground arith in
              let none_there =
                scan_above 0 t.table_limit t.table_limit t.blocks b (omega arith) (omega arith) in
              let at = append_scan 0 t.table_limit addr (j - 1) t.blocks b room in
              let out = (λ (far : t.table_limit ≤ j - 1).
                scan_above 0 t.table_limit (j - 1) t.blocks b far (omega arith)) in
              (
                λ z. omega (arith, given, z),
                ground (arith, less, none_there),
                rw (blocks, limit) (Bases-append 0 t.table_limit t.blocks last b refl),
                ground (arith, blocks, at, out),
              )
        ]
      ]
