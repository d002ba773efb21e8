-- ===== src/Env/Tables/Objects.antt =====
-- The handle of an object, and the object of a handle.
use citrix_vgpu.Prelude.{
  ltb→lt, ap, ◌∙◌, ℕ, ◌+◌, ◌-◌, ◌*◌, ◌/◌, ◌%◌, ◌^◌, ◌<◌, ◌≤◌, ◌≡◌, ◌⊎◌, ltb, Bool, none, some, List,
  [], ◌∷◌, arith, inl, inr, Bool-cases,
}
use citrix_vgpu.Env.Tables.{
  Block, Table, index_to_object, object_to_index, scan_objects, object_to_handle, scan_handles,
  handle_to_object,
}
use citrix_vgpu.Env.Tables.Fresh.{Bases, Bases-le}

-- Elements have a size, and a block of them less than 4 GB.
abbrev pub IsElementSize : ℕ → Type 0
IsElementSize size = (0 < size) × (128 * size < 2 ^ 32)

slot_offset :
    (i size : ℕ)
    → i < 128
    → IsElementSize size
    → (i * size % 2 ^ 32 ≡ i * size) × (i * size + size ≤ 128 * size)
slot_offset i size small s = grind arith

slot_index : (i size : ℕ) → 0 < size → i * size / size ≡ i
slot_index i size pos = grind arith

module _ {E : Type 0} (size : ℕ) where
  -- Two blocks share no address.
  abbrev pub ApartFrom : Block E → List (Block E) → Type 0
  ApartFrom b [] = Unit {0}
  ApartFrom b (c ∷ l) =
      ((b.addr + 128 * size ≤ c.addr) ⊎ (c.addr + 128 * size ≤ b.addr)) × ApartFrom b l

  abbrev pub AllApart : List (Block E) → Type 0
  AllApart [] = Unit {0}
  AllApart (b ∷ l) = ApartFrom b l × AllApart l

  index_inside :
      (b : Block E) (i : ℕ)
      → i < 128
      → IsElementSize size
      → object_to_index size b (index_to_object size b i) ≡ some i
  unfolding object_to_index index_to_object
  index_inside b i small s =
      let w = slot_offset i size small s in
      let width : size * 128 % 2 ^ 32 ≡ 128 * size = omega (arith, s.1) in
      let back : (b.addr + i * size % 2 ^ 32 - b.addr) / size ≡ i =
        ap (λ (t : ℕ). t / size) (omega (arith, w.0)) ∙ slot_index i size s.0 in
      ground (arith, w.0, w.1, width, back)

  index_outside :
      (b c : Block E) (i : ℕ)
      → i < 128
      → IsElementSize size
      → (b.addr + 128 * size ≤ c.addr) ⊎ (c.addr + 128 * size ≤ b.addr)
      → object_to_index size b (index_to_object size c i) ≡ none
  unfolding object_to_index index_to_object
  index_outside b c i small s apart =
      let w = slot_offset i size small s in
      let width : size * 128 % 2 ^ 32 ≡ 128 * size = omega (arith, s.1) in
      elim apart [
        | inl below ↦ ground (arith, w.0, w.1, width)
        | inr above ↦ ground (arith, w.0, w.1, width)
      ]

  module _ (is_free : E → Bool) where
    -- An object that a handle finds lies in one of the blocks, so outside every other one.
    object_outside :
        (n limit h object : ℕ) (b : Block E) (l : List (Block E))
        → IsElementSize size
        → Bases n l limit
        → limit < 2 ^ 32
        → ApartFrom b l
        → scan_handles size is_free h l ≡ some object
        → object_to_index size b object ≡ none
    unfolding scan_handles
    object_outside n limit h object b [] s bases room apart e = cc
    object_outside n limit h object b (c ∷ l) s bases room apart e =
        let above = Bases-le (n + 128) limit l bases.1 in
        elim (Bool-cases (ltb h (n + 128))) [
          | inl here ↦
              let out =
                index_outside b c (h - c.base_handle)
                  (omega (arith, bases.0, (ltb→lt h (n + 128) here))) s apart.0 in
              ground (arith, out)
          | inr later ↦
              ground (arith, object_outside (n + 128) limit h object b l s bases.1 room apart.1)
        ]

    scan_objects-scan_handles :
        (n limit h object : ℕ) (l : List (Block E))
        → IsElementSize size
        → Bases n l limit
        → limit < 2 ^ 32
        → AllApart l
        → scan_handles size is_free h l ≡ some object
        → scan_objects size object l ≡ h + 1
    unfolding scan_handles scan_objects
    scan_objects-scan_handles n limit h object [] s bases room apart e = cc
    scan_objects-scan_handles n limit h object (b ∷ l) s bases room apart e =
        let above = Bases-le (n + 128) limit l bases.1 in
        elim (Bool-cases (ltb h (n + 128))) [
          | inl here ↦
              let lt : h < n + 128 = ltb→lt h (n + 128) here in
              let inside = index_inside b (h - b.base_handle) (omega (arith, bases.0)) s in
              let le : n ≤ h = ground arith in
              let found : object ≡ index_to_object size b (h - b.base_handle) = ground arith in
              let index : object_to_index size b object ≡ some (h - b.base_handle) =
                ap (object_to_index size b) found ∙ inside in
              ground (arith, index, bases.0)
          | inr later ↦
              let rest : scan_handles size is_free h l ≡ some object = ground arith in
              let out = object_outside (n + 128) limit h object b l s bases.1 room apart.0 rest in
              let ih =
                scan_objects-scan_handles (n + 128) limit h object l s bases.1 room apart.1 rest in
              ground (arith, out, ih)
        ]

    -- The handle of the object that a handle finds is that handle.
    pub object_to_handle-handle_to_object :
        (handle object : ℕ) (t : Table E)
        → IsElementSize size
        → Bases 0 t.blocks t.table_limit
        → t.table_limit < 2 ^ 32
        → AllApart t.blocks
        → handle_to_object size is_free handle t ≡ some object
        → object_to_handle size (some object) t ≡ handle
    unfolding handle_to_object object_to_handle
    object_to_handle-handle_to_object handle object t s bases room apart e = ground (
      arith,
      scan_objects-scan_handles 0 t.table_limit (handle - 1) object t.blocks s bases room apart,
    )
