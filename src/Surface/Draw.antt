-- ===== src/Surface/Draw.antt =====
-- `surface_draw_graphic`, `surface_draw_blank` and `surface_refresh` of surface.c.
use citrix_vgpu.Prelude.{
  ℕ, ◌+◌, ◌-◌, ◌*◌, ◌/◌, ◌%◌, ◌^◌, ◌==◌, ◌≡◌, ◌||◌, ◌&&◌, not, Bool, true, false, Option, none,
  some, List, [], ◌∷◌, bit_and, if◌then◌else◌, ◌>>=◌, arith, refl, sym, ap, ap₂, ◌∙◌, inl, inr,
  Option-cases,
}
use citrix_vgpu.Vga.{Vga, reg, bits}
use citrix_vgpu.Vga.Memory.{Vram}
use citrix_vgpu.Vga.Memory.Dirty.{demu_sync_vram_dirty_map, demu_clear_vram_dirty_map}
use citrix_vgpu.Surface.{
  Surface, get_bpp, get_resolution, update_basic_params, surface_resize, surface_update,
  get_depth_index,
}
use citrix_vgpu.Surface.Palette.{vgpu_update_palette16, vgpu_update_palette256, rgb_to_pixel}
use citrix_vgpu.Surface.Lines.{Frame, Cursor, Event, line, rectangle, draw_lines}
use citrix_vgpu.Surface.Lines.Exact.{
  is_drawn, is_updated, is_reported, draw_lines-whole, draw_lines-drawn,
}

abbrev pub shift_of : Vga → ℕ
shift_of v = bit_and (reg v.gr 5 / 2 ^ 5) 3

abbrev pub half_clock : Vga → Bool
half_clock v = bits (reg v.sr 1) 8

-- In the CGA mode the width is doubled by the first test and by the last.
unfoldable pub disp_width : Vga → ℕ → ℕ
disp_width v width =
    let first = if shift_of v == 1 && half_clock v then width * 2 else width in
    if (shift_of v == 0 || shift_of v == 1) && half_clock v then first * 2 else first

abbrev pub multi_scan : Vga → ℕ
multi_scan v =
    let double_scan = reg v.cr 9 / 2 ^ 7 in
    if shift_of v == 1 then double_scan else (bit_and (reg v.cr 9) 0x1f + 1) * 2 ^ double_scan - 1

-- The new picture, if its shape has changed
unfoldable pub resize_graphic : ℕ → ℕ → ℕ → Surface → Bool × Surface
unfolding surface_resize
resize_graphic depth width height s =
    if not (s.line_offset == s.last_line_offset)
      || (not (width == s.last_scr_width)
          || (not (height == s.last_scr_height) || not (s.last_depth == depth)))
    then (
      true,
      record (if depth == 32
          then surface_resize (s.start_addr * 4 % 2 ^ 32) s.line_offset width height 32 s
          else surface_resize 0x00400000 (width * 32 / 8) width height 32 s) {
            last_width = width;
            last_height = height;
            last_line_offset = s.line_offset;
            last_depth = depth;
          },
    )
    else (false, s)

abbrev pub with_bits : ℕ → Bool × Surface → ℕ × Bool × Surface
with_bits n (changed, s) = (n, changed, s)

-- The palette of the mode, and the bits of a pixel
unfoldable pub choose_line : Vga → Surface → ℕ × Bool × Surface
choose_line v s =
    let bpp = get_bpp v in
    if shift_of v == 0 || shift_of v == 1
    then with_bits 4 (vgpu_update_palette16 v s)
    else if bpp == 8
    then with_bits 8 (vgpu_update_palette256 v s)
    else if bpp == 15 || bpp == 16
    then (16, false, s)
    else if bpp == 24
    then (24, false, s)
    else if bpp == 32
    then (32, false, s)
    else with_bits 4 (vgpu_update_palette256 v s)

-- `surface_update` for each rectangle
unfoldable pub report : List Event → Surface → Surface
report [] s = s
report (line y a d ∷ l) s = report l s
report (rectangle y h ∷ l) s = report l (surface_update s)

-- `sc` and `double_scan` as they were last
unfoldable pub update_modes : Vga → Surface → Bool × Surface
update_modes v s =
    let double_scan = reg v.cr 9 / 2 ^ 7 in
    if not (shift_of v == s.shift_control) || not (double_scan == s.double_scan)
    then (true, record s { shift_control = shift_of v; double_scan = double_scan })
    else (false, s)

-- What the loop is given
unfoldable pub frame_of : Vga → Surface → ℕ → ℕ → Bool → Frame
frame_of v s width pixel_bits full_update = record {
  cr17 = reg v.cr 0x17;
  line_offset = s.line_offset;
  line_compare = s.line_compare;
  bwidth = (width * pixel_bits + 7) / 8;
  multi_scan = multi_scan v;
  full_update = full_update;
  in_place = s.offset == s.start_addr * 4 % 2 ^ 32;
}

-- The loop, and what follows it; `none` is a failed `assert`.
unfoldable pub draw_frame :
    Frame → ℕ → Cursor → Surface → Vram → Option (Surface × Vram × List Event)
draw_frame f height c s m =
    draw_lines m f height 0 c >>= λ l. some (report l s, demu_clear_vram_dirty_map m, l)

-- `answer` is what Xen says of the dirty pages.
unfoldable pub surface_draw_graphic :
    Option (ℕ → Bool) → Vga → Bool → Surface → Vram → Option (Surface × Vram × List Event)
unfolding draw_frame
surface_draw_graphic answer v full_update s m =
    let (params, s1) = update_basic_params v s in
    let (width, height) = get_resolution v in
    let (modes, s2) = update_modes v s1 in
    let (resized, s3) = resize_graphic (get_bpp v) (disp_width v width) height s2 in
    let (pixel_bits, coloured, s4) = choose_line v s3 in
    let full = full_update || (params || (modes || (resized || coloured))) in
    let cursor : Cursor = record {
      y1 = 0;
      addr1 = s4.start_addr * 4 % 2 ^ 32;
      multi_run = multi_scan v;
      y_start = none;
    } in
    draw_frame (frame_of v s4 width pixel_bits full) height cursor s4
      (demu_sync_vram_dirty_map answer m)

-- The surface, and where `memset` writes which value over how many bytes
unfoldable pub surface_draw_blank : Bool → Surface → Surface × Option (ℕ × ℕ × ℕ)
surface_draw_blank full_update s =
    if not full_update || (s.last_scr_width == 0 || s.last_scr_height == 0) then (s, none) else (
      surface_update s,
      some (
        s.offset,
        (if s.last_depth == 8 then rgb_to_pixel (get_depth_index s) 0 0 0 else 0),
        s.last_scr_width * s.last_scr_height * s.bytes_per_pixel,
      ),
    )

pub data Shown : Type 0 where
  text : Shown
  graphic : List Event → Shown
  blank : Option (ℕ × ℕ × ℕ) → Shown

abbrev pub graphic_of : Option (Surface × Vram × List Event) → Option (Surface × Vram × Shown)
graphic_of none = none
graphic_of (some (s, m, l)) = some (s, m, graphic l)

abbrev pub mode_of : Vga → ℕ
mode_of v = if bits v.ar_index 0x20 then bit_and (reg v.gr 6) 1 else 2

abbrev pub is_mode : ℕ → Option ℕ → Bool
is_mode g none = false
is_mode g (some h) = g == h

unfoldable pub surface_refresh :
    (Bool → Surface → Vram → Surface × Vram)
    → Option (ℕ → Bool)
    → Vga
    → Bool
    → Surface
    → Vram
    → Option (Surface × Vram × Shown)
surface_refresh draw_text answer v full_update s m =
    let mode = mode_of v in
    let full = full_update || not (is_mode mode s.graphic_mode) in
    let s1 = record s { graphic_mode = some mode } in
    if mode == 0
    then some ((draw_text full s1 m).0, (draw_text full s1 m).1, text)
    else if mode == 1
    then graphic_of (surface_draw_graphic answer v full s1 m)
    else some ((surface_draw_blank full s1).0, m, blank (surface_draw_blank full s1).1)

-- Reporting does not move the surface.
report_offset :
    (l : List Event) (s : Surface)
    → ((report l s).offset ≡ s.offset) × ((report l s).start_addr ≡ s.start_addr)
unfolding report surface_update
report_offset [] s = (refl, refl)
report_offset (line y a d ∷ l) s = report_offset l s
report_offset (rectangle y h ∷ l) s = report_offset l (surface_update s)

abbrev pub shown_in_place : Surface → Bool
shown_in_place s = s.offset == s.start_addr * 4 % 2 ^ 32

abbrev AllReported : Surface → Vram → List Event → ℕ → Type 0
AllReported s m l k =
    (is_reported k l ≡ is_updated k l)
    × (is_drawn k l ≡ (not (shown_in_place s) && is_updated k l))
    × (m.page_dirty k ≡ false)

draw_frame-reported :
    (f : Frame) (height : ℕ) (c : Cursor) (s s' : Surface) (m m' : Vram) (l : List Event) (k : ℕ)
    → c.y_start ≡ none
    → f.in_place ≡ shown_in_place s
    → draw_frame f height c s m ≡ some (s', m', l)
    → AllReported s' m' l k
unfolding draw_frame demu_clear_vram_dirty_map
draw_frame-reported f height c s s' m m' l k fresh place e =
    elim (Option-cases (draw_lines m f height 0 c)) [
      | inl n ↦ absurd (ground arith)
      | inr (l2, n) ↦
          let same : l ≡ l2 = ground arith in
          let left : report l2 s ≡ s' = ground arith in
          let at = report_offset l2 s in
          let kept : f.in_place ≡ shown_in_place s' =
            place
            ∙ sym (ap₂ (λ (a b : ℕ). a == b * 4 % 2 ^ 32) at.0 at.1)
            ∙ ap shown_in_place left in
          rw same (
            draw_lines-whole m f height k c l2 fresh n,
            draw_lines-drawn m f height 0 k c l2 n ∙ ap (λ b. not b && is_updated k l2) kept,
            ground arith,
          )
    ]

-- Whatever the registers are, when `surface_draw_graphic` returns, the rectangles that it has
-- reported cover exactly the lines that it has updated, and no page is dirty any more. The updated
-- lines have been drawn, unless the surface is shown in place, where none is.
pub surface_draw_graphic-reported :
    (answer : Option (ℕ → Bool)) (v : Vga) (full : Bool) (s s' : Surface) (m m' : Vram)
    (l : List Event) (k : ℕ)
    → surface_draw_graphic answer v full s m ≡ some (s', m', l)
    → (is_reported k l ≡ is_updated k l)
      × (is_drawn k l ≡ (not (shown_in_place s') && is_updated k l))
      × (m'.page_dirty k ≡ false)
unfolding surface_draw_graphic frame_of
surface_draw_graphic-reported answer v full s s' m m' l k e =
    draw_frame-reported _ _ _ _ s' _ m' l k refl refl e
