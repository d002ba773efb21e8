-- ===== src/Space.antt =====
-- The registry of I/O spaces of demu.c: the linked lists `memory`, `port` and `pci_config` of
-- `struct demu`, with `demu_find_space`, `demu_register_space` and `demu_deregister_space`.
--
-- A list is its spaces from the head on. `free` and the `priv` pointer (NULL at every call of the
-- repository) are left out. A failed `assert` is `none`.
pub mod Find
pub mod Disjoint
mod Tests
use citrix_vgpu.Prelude.{
  ℕ, ◌+◌, Bool, true, false, ◌&&◌, ◌||◌, Option, none, some, List, [], ◌∷◌, leb, ◌==◌,
  if◌then◌else◌,
}

-- `struct demu_space`, over any type for `const io_ops_t *ops`.
pub record Space (Ops : Type 0) : Type 0 where
  pub start : ℕ
  pub end : ℕ
  pub ops : Ops
  pub io_init : Bool

module _ {Ops : Type 0} where
  -- The test of `demu_find_space`.
  abbrev pub contains : Space Ops → ℕ → Bool
  contains s addr = leb s.start addr && leb addr s.end

  unfoldable pub demu_find_space : List (Space Ops) → ℕ → Option (Space Ops)
  demu_find_space [] addr = none
  demu_find_space (s ∷ rest) addr = if contains s addr then some s else demu_find_space rest addr

  abbrev pub found : Option (Space Ops) → Bool
  found none = false
  found (some s) = true

  -- `none` is the return of -1, which leaves the list alone. `malloc_ok` says whether `malloc`
  -- gave memory.
  unfoldable pub demu_register_space :
      Bool → List (Space Ops) → ℕ → ℕ → Ops → Option (List (Space Ops))
  demu_register_space malloc_ok head start end ops =
      if found (demu_find_space head start) || found (demu_find_space head end)
      then none
      else if malloc_ok
      then some (record { start = start; end = end; ops = ops; io_init = false } ∷ head)
      else none

  -- The end of the space that is taken out, and the list without it. `none` is `assert(false)`.
  unfoldable pub demu_deregister_space : List (Space Ops) → ℕ → Option (ℕ × List (Space Ops))
  demu_deregister_space [] start = none
  demu_deregister_space (s ∷ rest) start =
      let later = demu_deregister_space rest start in
      if start == s.start
      then some (s.end, rest)
      else elim later [ none ↦ none | some (e, rest') ↦ some (e, s ∷ rest') ]
