-- ===== src/Surface/Lines.antt =====
-- The loop over the lines of `surface_draw_graphic`.
pub mod Exact
pub mod Linear
use citrix_vgpu.Prelude.{
  ℕ, zero, suc, ◌+◌, ◌-◌, ◌*◌, ◌/◌, ◌%◌, ◌^◌, ◌==◌, ◌||◌, ◌&&◌, not, leb, ltb, Bool, true, false,
  Option, none, some, List, [], ◌∷◌, bit_and, bit_or, bit_xor, if◌then◌else◌, ◌>>=◌,
}
use citrix_vgpu.Vga.{bits}
use citrix_vgpu.Vga.Memory.{Vram}
use citrix_vgpu.Vga.Memory.Dirty.{demu_vram_get_page_dirty}

-- What the loop takes from the registers and from what stands before it
pub record Frame : Type 0 where
  pub cr17 : ℕ
  pub line_offset : ℕ
  pub line_compare : ℕ
  pub bwidth : ℕ
  pub multi_scan : ℕ
  pub full_update : Bool
  pub in_place : Bool  -- `s->offset == s->start_addr * 4`

-- `y1`, `addr1`, `multi_run` and `y_start`, where `none` is -1
pub record Cursor : Type 0 where
  pub y1 : ℕ
  pub addr1 : ℕ  -- uint32_t
  pub multi_run : ℕ
  pub y_start : Option ℕ

pub data Event : Type 0 where
  line : ℕ → ℕ → Bool → Event  -- y, address of a line to update; whether `vga_draw_line` is called
  rectangle : ℕ → ℕ → Event  -- y and height: `surface_update`

-- The address of the line, with the CGA compatibility of the two low bits of register 0x17
unfoldable pub line_addr : Frame → Cursor → ℕ
line_addr f c =
    let shift = 14 + bit_and (f.cr17 / 2 ^ 6) 1 in
    let a =
      if bits f.cr17 1
      then c.addr1
      else bit_or (bit_and c.addr1 (2 ^ 32 - 1 - 2 ^ shift)) (bit_and c.y1 1 * 2 ^ shift) in
    if bits f.cr17 2 then a else bit_or (bit_and a (2 ^ 32 - 1 - 0x8000)) (bit_and c.y1 2 * 2 ^ 14)

-- `none` is the failed `assert` of `demu_vram_get_page_dirty`.
unfoldable pub pages_dirty : Vram → ℕ → ℕ → Option Bool
pages_dirty m zero page = some false
pages_dirty m (suc n) page =
    demu_vram_get_page_dirty page m >>= λ b. pages_dirty m n (page + 1) >>= λ r. some (b || r)

-- The last page of a line, of 32 bits
abbrev pub last_page : Frame → ℕ → ℕ
last_page f addr = (addr + f.bwidth + (2 ^ 32 - 1)) % 2 ^ 32 / 2 ^ 12

-- Whether the line is updated
unfoldable pub line_update : Vram → Frame → ℕ → Option Bool
unfolding pages_dirty
line_update m f addr =
    if f.full_update
    then some true
    else pages_dirty m (last_page f addr + 1 - addr / 2 ^ 12) (addr / 2 ^ 12)

-- What becomes of the cursor at the end of the body
unfoldable pub advance : Frame → ℕ → Cursor → Cursor
advance f y c =
    let mask = bit_xor (bit_and f.cr17 3) 3 in
    let c1 =
      if c.multi_run == 0
      then record c {
        addr1 = if bit_and c.y1 mask == mask then (c.addr1 + f.line_offset) % 2 ^ 32 else c.addr1;
        y1 = c.y1 + 1;
        multi_run = f.multi_scan;
      }
      else record c { multi_run = c.multi_run - 1 } in
    if y == f.line_compare then record c1 { addr1 = 0 } else c1

abbrev pub start_at : ℕ → Option ℕ → Option ℕ
start_at y none = some y
start_at y (some s) = some s

-- The rectangle of the lines from `y_start` to before `y`, if there is one
abbrev pub flush : ℕ → Option ℕ → List Event → List Event
flush y none l = l
flush y (some s) l = rectangle s (y - s) ∷ l

-- The lines left, the next line.
unfoldable pub draw_lines : Vram → Frame → ℕ → ℕ → Cursor → Option (List Event)
draw_lines m f zero y c = some (flush y c.y_start [])
draw_lines m f (suc n) y c =
    let addr = line_addr f c in
    let drawn =
      draw_lines m f n (y + 1) (advance f y (record c { y_start = start_at y c.y_start })) in
    let skipped = draw_lines m f n (y + 1) (advance f y (record c { y_start = none })) in
    line_update m f addr >>= λ b. elim b [
      | true ↦ drawn >>= λ l. some (line y addr (not f.in_place) ∷ l)
      | false ↦ skipped >>= λ l. some (flush y c.y_start l)
    ]
