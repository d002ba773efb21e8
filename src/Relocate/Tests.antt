-- ===== src/Relocate/Tests.antt =====
-- A guest in which each page of the video memory has a machine page.
use citrix_vgpu.Prelude.{
  ap, ℕ, ◌≡◌, ◌≤◌, refl, arith, Option, some, none, true, false, inr, ◌==◌, if◌then◌else◌,
}
use citrix_vgpu.Relocate.{Physmap, Placed, demu_set_vram_addr}
use citrix_vgpu.Relocate.Pages.{Moves, StopsAt, moved, demu_set_vram_addr_lem}

-- Xen refuses to move to guest page 0xf0002.
abbrev after_move : ℕ → ℕ → Physmap → Physmap
after_move from to m p = if p == to then m from else if p == from then none else m p

abbrev mover : ℕ → ℕ → Physmap → Option Physmap
mover from to m = if to == 0xf0002 then none else some (after_move from to m)

abbrev value_or : Physmap → Option Physmap → Physmap
value_or m none = m
value_or m (some m') = m'

mover-Moves : Moves mover
mover-Moves from to m m' n e p = ground (arith, ap (λ (o : Option Physmap). value_or m o p) e)

abbrev placed : Placed
placed = record {
  vram_addr = 0xff000000;
  resuming = false;
  state_dirty = false;
  lfb_updates = 0;
  physmap = λ p. some p;
}

demu_set_vram_addr_lem_example :
    (k : ℕ) × (k ≤ 4096)
    × StopsAt mover mover-Moves 0xff000000 0xf0000000 4096 k
        (demu_set_vram_addr mover 0xf0000000 placed).physmap
    × ((demu_set_vram_addr mover 0xf0000000 placed).vram_addr
        ≡ (if k == 4096 then 0xf0000000 else 0xff000000))
    × ((demu_set_vram_addr mover 0xf0000000 placed).lfb_updates ≡ (if k == 4096 then 1 else 0))
    × ((demu_set_vram_addr mover 0xf0000000 placed).state_dirty
        ≡ (if k == 4096 then true else false))
    × ((page : ℕ)
        → (demu_set_vram_addr mover 0xf0000000 placed).physmap page
          ≡ moved 0xff000 0xf0000 k placed.physmap page)
demu_set_vram_addr_lem_example =
    demu_set_vram_addr_lem mover mover-Moves 0xf0000000 placed refl (omega arith)
      (inr (omega arith))
