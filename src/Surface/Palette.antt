-- ===== src/Surface/Palette.antt =====
-- The palettes of surface.c: `rgb_to_pixel*`, `c6_to_8`, `vgpu_update_palette16` and
-- `vgpu_update_palette256`.
use citrix_vgpu.Prelude.{
  ◌⊎◌, inl, inr, Bool-cases, ℕ, zero, suc, ◌+◌, ◌*◌, ◌/◌, ◌^◌, ◌≡◌, ◌==◌, ◌||◌, not, ltb, leb, ◌&&◌,
  Bool, true, false, arith, refl, bit_and, bit_or, update, if◌then◌else◌,
}
use citrix_vgpu.Vga.{Vga, reg, bits}
use citrix_vgpu.Surface.{Surface, get_depth_index}

unfoldable pub rgb_to_pixel8 : ℕ → ℕ → ℕ → ℕ
rgb_to_pixel8 r g b = bit_or (bit_or (r / 2 ^ 5 * 2 ^ 5) (g / 2 ^ 5 * 2 ^ 2)) (b / 2 ^ 6)

unfoldable pub rgb_to_pixel15 : ℕ → ℕ → ℕ → ℕ
rgb_to_pixel15 r g b = bit_or (bit_or (r / 2 ^ 3 * 2 ^ 10) (g / 2 ^ 3 * 2 ^ 5)) (b / 2 ^ 3)

unfoldable pub rgb_to_pixel16 : ℕ → ℕ → ℕ → ℕ
rgb_to_pixel16 r g b = bit_or (bit_or (r / 2 ^ 3 * 2 ^ 11) (g / 2 ^ 2 * 2 ^ 5)) (b / 2 ^ 3)

unfoldable pub rgb_to_pixel32 : ℕ → ℕ → ℕ → ℕ
rgb_to_pixel32 r g b = bit_or (bit_or (r * 2 ^ 16) (g * 2 ^ 8)) b

unfoldable pub rgb_to_pixel8_dup : ℕ → ℕ → ℕ → ℕ
unfolding rgb_to_pixel8
rgb_to_pixel8_dup r g b =
    let col = rgb_to_pixel8 r g b in
    let twice = bit_or col (col * 2 ^ 8) in bit_or twice (twice * 2 ^ 16)

unfoldable pub rgb_to_pixel15_dup : ℕ → ℕ → ℕ → ℕ
unfolding rgb_to_pixel15
rgb_to_pixel15_dup r g b = let col = rgb_to_pixel15 r g b in bit_or col (col * 2 ^ 16)

unfoldable pub rgb_to_pixel16_dup : ℕ → ℕ → ℕ → ℕ
unfolding rgb_to_pixel16
rgb_to_pixel16_dup r g b = let col = rgb_to_pixel16 r g b in bit_or col (col * 2 ^ 16)

-- `rgb_to_pixel_dup_table[depth_index]`
unfoldable pub rgb_to_pixel : ℕ → ℕ → ℕ → ℕ → ℕ
unfolding rgb_to_pixel8_dup rgb_to_pixel15_dup rgb_to_pixel16_dup rgb_to_pixel32
rgb_to_pixel depth_index r g b =
    if depth_index == 0
    then rgb_to_pixel8_dup r g b
    else if depth_index == 1
    then rgb_to_pixel15_dup r g b
    else if depth_index == 2
    then rgb_to_pixel16_dup r g b
    else rgb_to_pixel32 r g b

-- 6 bits to 8
unfoldable pub c6_to_8 : ℕ → ℕ
c6_to_8 v = bit_or (bit_or (bit_and v 0x3f * 2 ^ 2) (bit_and v 1 * 2 ^ 1)) (bit_and v 1)

-- The colour of entry `i` of the 16 in use
unfoldable pub colour16 : Vga → ℕ → ℕ → ℕ
colour16 v depth_index i =
    let v1 = reg v.ar i in
    let v2 =
      (if bits (reg v.ar 0x10) 0x80
        then bit_or (bit_and (reg v.ar 0x14) 0xf * 2 ^ 4) (bit_and v1 0xf)
        else bit_or (bit_and (reg v.ar 0x14) 0xc * 2 ^ 4) (bit_and v1 0x3f))
      * 3 in
    rgb_to_pixel depth_index (c6_to_8 (reg v.palette v2)) (c6_to_8 (reg v.palette (v2 + 1)))
      (c6_to_8 (reg v.palette (v2 + 2)))

unfoldable pub colour256 : Vga → ℕ → ℕ → ℕ
colour256 v depth_index i =
    let at = λ (k : ℕ). reg v.palette (i * 3 + k) in
    if ltb 0 v.dac_8bit
    then rgb_to_pixel depth_index (at 0) (at 1) (at 2)
    else rgb_to_pixel depth_index (c6_to_8 (at 0)) (c6_to_8 (at 1)) (c6_to_8 (at 2))

-- The loop of both updates: entries left, next entry, whether one has changed, and the palette
unfoldable pub update_entries : (ℕ → ℕ) → ℕ → ℕ → Bool → (ℕ → ℕ) → Bool × (ℕ → ℕ)
update_entries colour zero i full_update palette = (full_update, palette)
update_entries colour (suc n) i full_update palette =
    let col = colour i in
    let changed = not (col == palette i) in
    update_entries colour n (i + 1) (full_update || changed)
      (if changed then update palette i col else palette)

unfoldable pub vgpu_update_palette16 : Vga → Surface → Bool × Surface
vgpu_update_palette16 v s =
    let (changed, palette) =
      update_entries (colour16 v (get_depth_index s)) 16 0 false s.last_palette in
    (changed, record s { last_palette = palette })

unfoldable pub vgpu_update_palette256 : Vga → Surface → Bool × Surface
vgpu_update_palette256 v s =
    let (changed, palette) =
      update_entries (colour256 v (get_depth_index s)) 256 0 false s.last_palette in
    (changed, record s { last_palette = palette })

written :
    (palette : ℕ → ℕ) (i col k : ℕ)
    → (if not (col == palette i) then update palette i col else palette) k
      ≡ (if i == k then col else palette k)
written palette i col k = ground arith

-- After the loop every entry of the range has its colour, and the others are as before.
update_entries_lem :
    (colour : ℕ → ℕ) (n i : ℕ) (full : Bool) (palette : ℕ → ℕ) (k : ℕ)
    → (update_entries colour n i full palette).1 k
      ≡ (if leb i k && ltb k (i + n) then colour k else palette k)
unfolding update_entries
update_entries_lem colour zero i full palette k = ground arith
update_entries_lem colour (suc n) i full palette k =
    let changed = not (colour i == palette i) in
    let rest =
      update_entries_lem colour n (i + 1) (full || changed)
        (if changed then update palette i (colour i) else palette) k in
    ground (arith, rest, written palette i (colour i) k)

update_entries_full :
    (colour : ℕ → ℕ) (n i : ℕ) (full : Bool) (palette : ℕ → ℕ)
    → (update_entries colour n i full palette).0 ≡ false
    → full ≡ false
unfolding update_entries
update_entries_full colour zero i full palette e = e
update_entries_full colour (suc n) i full palette e =
    let changed = not (colour i == palette i) in
    let rest =
      update_entries_full colour n (i + 1) (full || changed)
        (if changed then update palette i (colour i) else palette) e in
    ground (arith, rest)

-- Without a change the palette is the old one.
update_entries_same :
    (colour : ℕ → ℕ) (n i : ℕ) (full : Bool) (palette : ℕ → ℕ) (k : ℕ)
    → (update_entries colour n i full palette).0 ≡ false
    → (update_entries colour n i full palette).1 k ≡ palette k
unfolding update_entries
update_entries_same colour zero i full palette k e = refl
update_entries_same colour (suc n) i full palette k e =
    let changed = not (colour i == palette i) in
    let next = (if changed then update palette i (colour i) else palette) in
    let none_yet = update_entries_full colour n (i + 1) (full || changed) next e in
    let rest = update_entries_same colour n (i + 1) (full || changed) next k e in
    ground (arith, rest, written palette i (colour i) k, none_yet)

-- After `vgpu_update_palette16` each of the 16 entries has the colour of the registers. If it
-- reports no change, each entry of the palette, of any index, is the old one.
pub vgpu_update_palette16_lem :
    (v : Vga) (s : Surface) (k : ℕ)
    → ((vgpu_update_palette16 v s).1.last_palette k
        ≡ (if ltb k 16 then colour16 v (get_depth_index s) k else s.last_palette k))
      × ((vgpu_update_palette16 v s).0 ≡ true
          ⊎ ((vgpu_update_palette16 v s).1.last_palette k ≡ s.last_palette k))
unfolding vgpu_update_palette16
vgpu_update_palette16_lem v s k =
    let colour = colour16 v (get_depth_index s) in
    (
      ground (arith, update_entries_lem colour 16 0 false s.last_palette k),
      elim (Bool-cases ((update_entries colour 16 0 false s.last_palette).0)) [
        | inl e ↦ inl e
        | inr e ↦ inr (update_entries_same colour 16 0 false s.last_palette k e)
      ],
    )
