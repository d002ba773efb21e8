-- ===== src/Env/Tables/Unissued.antt =====
-- The region table, whose test for a free entry never succeeds.
use citrix_vgpu.Prelude.{
  ℕ, zero, suc, ◌+◌, ◌-◌, ◌*◌, ◌%◌, ◌^◌, ◌<◌, ◌≡◌, Bool, false, none, some, List, [], ◌∷◌, ◌++◌,
  arith, refl,
}
use citrix_vgpu.Env.{success}
use citrix_vgpu.Env.Tables.{
  Block, Table, handle_to_object, first_free, take_slot, new_block, allocate_table_element,
}
use citrix_vgpu.Env.Tables.Fresh.{Bases, append_scan}

module _ {E : Type 0} (element_size : ℕ) (zeroed : E) where
  -- `vmiope_region_is_free`, of an entry that is not NULL
  unfoldable pub region_is_free : E → Bool
  region_is_free e = false

  none_free : (slots : ℕ → E) (n i : ℕ) → first_free element_size region_is_free slots n i ≡ none
  unfolding first_free region_is_free
  none_free slots zero i = refl
  none_free slots (suc n) i = none_free slots n (i + 1)

  no_slot : (l : List (Block E)) → take_slot element_size region_is_free zeroed l ≡ none
  unfolding take_slot
  no_slot [] = refl
  no_slot (b ∷ l) = ground (arith, none_free b.slots 128 0, no_slot l)

  -- Each region takes a new block of 128 entries, and gives out the handle of its first. The next
  -- 127 handles, which nothing has given out, find objects all the same.
  pub region_table_unissued :
      (addr k : ℕ) (t : Table E)
      → Bases 0 t.blocks t.table_limit
      → t.table_limit + 128 < 2 ^ 32
      → k < 128
      → (t' : Table E) × (allocate_table_element element_size region_is_free zeroed (some addr) t
          ≡ (success, t.table_limit + 1, some addr, t'))
        × (t'.table_limit ≡ t.table_limit + 128)
        × (handle_to_object element_size region_is_free (t.table_limit + 1 + k) t'
            ≡ some (addr + k * element_size % 2 ^ 32))
  unfolding allocate_table_element handle_to_object region_is_free
  region_table_unissued addr k t b room small =
      let at =
        append_scan element_size region_is_free zeroed 0 t.table_limit addr (t.table_limit + k)
          t.blocks b room in
      let less : t.table_limit + 1 + k - 1 ≡ t.table_limit + k = omega arith in
      let own : t.table_limit + k - t.table_limit ≡ k = omega arith in
      (
        record {
          blocks = t.blocks ++ new_block element_size region_is_free zeroed t.table_limit addr ∷ [];
          table_limit = t.table_limit + 128;
        },
        ground (arith, no_slot t.blocks),
        refl,
        ground (arith, at, less, own),
      )
