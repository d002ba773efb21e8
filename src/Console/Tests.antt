-- ===== src/Console/Tests.antt =====
-- A console with two refreshes left.
use citrix_vgpu.Prelude.{◌≡◌, inr, refl, arith, true, false, some, [], ◌∷◌}
use citrix_vgpu.Console.{Console}
use citrix_vgpu.Console.Refresh.{tick, packet, steps, Counted, steps-Counted}

abbrev two_left : Console
two_left = record { scount = 2; console_active = true; full_update = true; timer_runs = true }

steps-Counted_example :
    (c' : Console) × (steps (tick true true ∷ packet true false ∷ tick false true ∷ []) two_left
      ≡ some c')
    × Counted c'
steps-Counted_example =
    steps-Counted (tick true true ∷ packet true false ∷ tick false true ∷ []) two_left (refl, tt)
      (inr (omega arith))
