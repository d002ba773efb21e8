-- ===== src/Guest/Tests.antt =====
-- The guest's pages at concrete addresses.
use citrix_vgpu.Prelude.{
  ℕ, refl, List, Bool, Option, some, false, ◌/◌, ◌≡◌, ◌≤◌, ◌+◌, ◌*◌, ◌%◌, ◌↔◌, true, arith,
}
use citrix_vgpu.Guest.{page_count, pages_from, demu_map_guest_range}
use citrix_vgpu.Guest.Cover.{all_held, range_pages, demu_map_guest_range_covers}

-- One page from the middle of a page
abbrev mapping : List ℕ → Bool → Option ℕ
mapping pages read_only = some 0x7000

abbrev populated : List ℕ → Bool
populated pages = true

demu_map_guest_range_covers_example :
    (demu_map_guest_range true populated mapping 0x1800 0x1000 false false
      ≡ mapping (range_pages 0x1800 0x1000) false)
    × ((all_held (range_pages 0x1800 0x1000) 0x1800 0x1000 ≡ true)
        ↔ (0x1800 % 4096 + 0x1000 ≤ 4096 * ((0x1000 + 4095) / 4096)))
demu_map_guest_range_covers_example =
    demu_map_guest_range_covers populated mapping 0x1800 0x1000 false (omega arith) (omega arith)

-- The second page is missing.
half_lost : all_held (range_pages 0x1800 0x1000) 0x1800 2049 ≡ false
unfolding all_held page_count pages_from
half_lost = refl
