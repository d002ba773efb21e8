-- ===== src/Env/Tables.antt =====
-- The object tables of vmiop-env.c: `vmiope_handle_to_object`, `vmiope_object_to_handle` and
-- `vmiope_allocate_table_element`.
--
-- A table is its blocks in the order of the list, and an object is its address. What the objects
-- are, which of them count as free, the zeroed one and their size are parameters.
pub mod Fresh
pub mod Objects
pub mod Unissued
use citrix_vgpu.Prelude.{
  ℕ, zero, suc, ◌+◌, ◌-◌, ◌*◌, ◌/◌, ◌%◌, ◌^◌, ◌==◌, ◌&&◌, leb, ltb, Bool, true, false, Option, none,
  some, List, [], ◌∷◌, ◌++◌, update, if◌then◌else◌,
}
use citrix_vgpu.Env.{ErrorCode, success, inval, resource, handle_null}

-- `vmiope_object_table_t`: `addr` is the address of `element`.
pub record Block (E : Type 0) : Type 0 where
  pub base_handle : ℕ
  pub addr : ℕ
  pub slots : ℕ → E

-- `vmiope_object_table_defn_t`
pub record Table (E : Type 0) : Type 0 where
  pub blocks : List (Block E)
  pub table_limit : ℕ

module _ {E : Type 0} (element_size : ℕ) where
  unfoldable pub index_to_object : Block E → ℕ → ℕ
  index_to_object b i = b.addr + i * element_size % 2 ^ 32

  -- `none` is VMIOPE_INVALID_INDEX.
  unfoldable pub object_to_index : Block E → ℕ → Option ℕ
  object_to_index b object =
      if leb b.addr object && ltb object (b.addr + element_size * 128 % 2 ^ 32)
      then some ((object - b.addr) / element_size)
      else none

  -- The loop of `vmiope_object_to_handle`
  unfoldable pub scan_objects : ℕ → List (Block E) → ℕ
  scan_objects object [] = handle_null
  scan_objects object (b ∷ l) =
      let rest = scan_objects object l in
      elim (object_to_index b object) [ none ↦ rest | some i ↦ (b.base_handle + i + 1) % 2 ^ 32 ]

  unfoldable pub object_to_handle : Option ℕ → Table E → ℕ
  object_to_handle none t = handle_null
  object_to_handle (some object) t = scan_objects object t.blocks

  module _ (is_free : E → Bool) where
    -- The loop of `vmiope_handle_to_object`, with the handle less 1
    unfoldable pub scan_handles : ℕ → List (Block E) → Option ℕ
    scan_handles h [] = none
    scan_handles h (b ∷ l) =
        let rest = scan_handles h l in
        if ltb h b.base_handle
        then none
        else if ltb h ((b.base_handle + 128) % 2 ^ 32)
        then (if is_free (b.slots (h - b.base_handle))
            then none
            else some (index_to_object b (h - b.base_handle)))
        else rest

    unfoldable pub handle_to_object : ℕ → Table E → Option ℕ
    handle_to_object handle t =
        if handle == handle_null then none else scan_handles (handle - 1) t.blocks

    -- The inner loop of the allocation: the slots left, the next one.
    unfoldable pub first_free : (ℕ → E) → ℕ → ℕ → Option ℕ
    first_free slots zero i = none
    first_free slots (suc n) i =
        let rest = first_free slots n (i + 1) in if is_free (slots i) then some i else rest

    module _ (zeroed : E) where
      -- `memset` of the slot
      abbrev pub clear : ℕ → Block E → Block E
      clear i b = record b { slots = update b.slots i zeroed }

      abbrev pub keep : Block E → Option (ℕ × ℕ × List (Block E)) → Option (ℕ × ℕ × List (Block E))
      keep b none = none
      keep b (some (h, object, l)) = some (h, object, b ∷ l)

      -- The first free slot of the blocks: its place, its object and the new blocks
      unfoldable pub take_slot : List (Block E) → Option (ℕ × ℕ × List (Block E))
      take_slot [] = none
      take_slot (b ∷ l) =
          let rest = keep b (take_slot l) in
          elim (first_free b.slots 128 0) [
            | some i ↦ some (b.base_handle + i, index_to_object b i, clear i b ∷ l)
            | none ↦ rest
          ]

      abbrev pub new_block : ℕ → ℕ → Block E
      new_block base addr = record { base_handle = base; addr = addr; slots = λ i. zeroed }

      -- The error, `*handle_p`, `*object_p` and the table. `calloc` is the address of the `element`
      -- of a new block, if there is memory.
      unfoldable pub allocate_table_element :
          Option ℕ → Table E → ErrorCode × ℕ × Option ℕ × Table E
      allocate_table_element calloc t = elim (take_slot t.blocks) [
        | some (h, object, l) ↦ (success, (h + 1) % 2 ^ 32, some object, record t { blocks = l })
        | none ↦ elim calloc [
          | none ↦ (resource, handle_null, none, t)
          | some addr ↦ (
            success,
            (t.table_limit + 1) % 2 ^ 32,
            some addr,
            record {
              blocks = t.blocks ++ new_block t.table_limit addr ∷ [];
              table_limit = (t.table_limit + 128) % 2 ^ 32;
            },
          )
        ]
      ]
