-- ===== src/Space/Tests.antt =====
-- The registry on two spaces with a gap between them.
use citrix_vgpu.Prelude.{
  ℕ, ◌≡◌, refl, List, [], ◌∷◌, true, false, some, none, arith, inr, leb, ◌&&◌, if◌then◌else◌,
}
use citrix_vgpu.Space.{Space, demu_find_space, demu_register_space, demu_deregister_space}
use citrix_vgpu.Space.Disjoint.{Disjoint, demu_find_space-demu_deregister_space}

abbrev low : Space ℕ
low = record { start = 0x3b4; end = 0x3b5; ops = 1; io_init = true }

abbrev high : Space ℕ
high = record { start = 0x3d4; end = 0x3d5; ops = 2; io_init = true }

abbrev two : List (Space ℕ)
two = high ∷ low ∷ []

abbrev wide : Space ℕ
wide = record { start = 0x3c0; end = 0x3cf; ops = 3; io_init = false }

abbrev cover : Space ℕ
cover = record { start = 0x3b0; end = 0x3df; ops = 3; io_init = false }

two-Disjoint : Disjoint two
two-Disjoint = (omega arith, (inr (omega arith), tt), (omega arith, tt, tt))

registered : demu_register_space true two 0x3c0 0x3cf 3 ≡ some (wide ∷ two)
unfolding demu_register_space demu_find_space
registered = refl

deregistered : demu_deregister_space two 0x3d4 ≡ some (0x3d5, low ∷ [])
unfolding demu_deregister_space
deregistered = refl

free_low : demu_find_space two 0x3b0 ≡ none
unfolding demu_find_space
free_low = refl

free_high : demu_find_space two 0x3df ≡ none
unfolding demu_find_space
free_high = refl

finds_low : demu_find_space two 0x3b4 ≡ some low
unfolding demu_find_space
finds_low = refl

demu_find_space-demu_deregister_space_example :
    ((a : ℕ)
      → demu_find_space (low ∷ []) a
        ≡ (if leb 0x3d4 a && leb a 0x3d5 then none else demu_find_space two a))
    × Disjoint (low ∷ [])
demu_find_space-demu_deregister_space_example =
    demu_find_space-demu_deregister_space two 0x3d4 0x3d5 (low ∷ []) two-Disjoint deregistered
