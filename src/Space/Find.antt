-- ===== src/Space/Find.antt =====
-- `demu_find_space` of demu.c against the addresses that the spaces of a list cover.
use citrix_vgpu.Prelude.{
  ℕ, ◌≤◌, ◌≡◌, Bool, true, false, ◌&&◌, none, some, List, [], ◌∷◌, arith, leb, ap, sym,
  if◌then◌else◌, ◌≢◌,
}
use citrix_vgpu.Space.{Space, demu_find_space, demu_register_space}

module _ {Ops : Type 0} where
  abbrev pub Covers : Space Ops → ℕ → Type 0
  Covers s a = (s.start ≤ a) × (a ≤ s.end)

  pub demu_find_space-Covers :
      (l : List (Space Ops)) (a : ℕ) (s : Space Ops) → demu_find_space l a ≡ some s → Covers s a
  unfolding demu_find_space
  demu_find_space-Covers [] a s h = cc
  demu_find_space-Covers (x ∷ l) a s h = ground (arith, demu_find_space-Covers l a s)

  -- A space that begins at a free address is not in the list.
  free_start_outside :
      (l : List (Space Ops)) (start a : ℕ) (s : Space Ops)
      → demu_find_space l start ≡ none
      → start ≤ a
      → demu_find_space l a ≡ some s
      → s.start ≡ start
      → ⊥
  unfolding demu_find_space
  free_start_outside [] start a s n le f e = cc
  free_start_outside (x ∷ l) start a s n le f e = ground (arith, free_start_outside l start a s)

  -- After `demu_register_space` succeeds, a lookup finds the new space at the addresses from
  -- `start` to `end`, and what it found before at every other address.
  pub demu_find_space-demu_register_space :
      (ok : Bool) (l : List (Space Ops)) (start end : ℕ) (ops : Ops) {l' : List (Space Ops)}
      → demu_register_space ok l start end ops ≡ some l'
      → (a : ℕ)
      → demu_find_space l' a ≡ (
          if leb start a && leb a end
          then some (record { start = start; end = end; ops = ops; io_init = false })
          else demu_find_space l a)
  unfolding demu_find_space demu_register_space
  demu_find_space-demu_register_space ok l start end ops h a = ground arith

  -- If `malloc` gives memory, a range whose two ends are free is accepted, whatever lies between
  -- them: at an address in it that belonged to a space `old`, a lookup now finds the new space,
  -- which is not `old`.
  pub demu_register_space_shadows :
      (l : List (Space Ops)) (start end a : ℕ) (ops : Ops) (old : Space Ops)
      → demu_find_space l start ≡ none
      → demu_find_space l end ≡ none
      → start ≤ a
      → a ≤ end
      → demu_find_space l a ≡ some old
      → (l' : List (Space Ops)) × (new : Space Ops) × (demu_register_space true l start end ops
          ≡ some l')
        × (demu_find_space l' a ≡ some new)
        × (new ≢ old)
  unfolding demu_register_space demu_find_space
  demu_register_space_shadows l start end a ops old hs he lo hi h =
      (fresh ∷ l, fresh, ground arith, ground arith, λ e. not_old (ap (λ s. s.start) e))
    where
      fresh : Space Ops
      fresh = record { start = start; end = end; ops = ops; io_init = false }

      outside : (s : Space Ops) → demu_find_space l a ≡ some s → s.start ≡ start → ⊥
      outside s f e = free_start_outside l start a s hs lo f e

      not_old : start ≡ old.start → ⊥
      not_old e = outside old h (sym e)
