-- ===== src/Vga/Ports/Dac.antt =====
-- A colour programmed through the DAC ports of device.c, and read back.
use citrix_vgpu.Prelude.{
  ◌∙◌, ap, ℕ, ◌+◌, ◌*◌, ◌%◌, ◌≡◌, ◌<◌, Option, some, List, [], ◌∷◌, arith, refl, length, get_or,
  set, length-set, get_or-set_self, get_or-set_ne, ◌>>=◌, true,
}
use citrix_vgpu.Vga.{Vga, Sized}
use citrix_vgpu.Vga.Banks.{put-inside, get-inside}
use citrix_vgpu.Vga.Ports.{
  copy_colour, port_of, wrong_mode, next_read, read_port, device_vga_port_readb, write_colour,
  write_port, device_vga_port_writeb,
}

-- `out 0x3c8, i; out 0x3c9, r; out 0x3c9, g; out 0x3c9, b`
abbrev pub write_rgb : ℕ → ℕ → ℕ → ℕ → Vga → Option Vga
write_rgb i r g b v = do
  v1 ← device_vga_port_writeb 0x3c8 i v
  v2 ← device_vga_port_writeb 0x3c9 r v1
  v3 ← device_vga_port_writeb 0x3c9 g v2
  device_vga_port_writeb 0x3c9 b v3

-- `out 0x3c7, i`, and three times `in 0x3c9`
abbrev pub read_rgb : ℕ → Vga → Option (ℕ × ℕ × ℕ)
read_rgb i v = do
  v1 ← device_vga_port_writeb 0x3c7 i v
  (r, v2) ← device_vga_port_readb 0x3c9 v1
  (g, v3) ← device_vga_port_readb 0x3c9 v2
  (b, v4) ← device_vga_port_readb 0x3c9 v3
  some (r, g, b)

-- The palette with a colour at index `i`.
abbrev pub with_colour : ℕ → ℕ → ℕ → ℕ → List ℕ → List ℕ
with_colour i r g b p = set (set (set p (i * 3) r) (i * 3 + 1) g) (i * 3 + 2) b

copied :
    (p : List ℕ) (i r g b : ℕ)
    → length p ≡ 768
    → i < 256
    → copy_colour p (i * 3) (r ∷ g ∷ b ∷ []) ≡ some (with_colour i r g b p)
copied p i r g b len h = ground (
  arith,
  put-inside p (i * 3) r,
  put-inside (set p (i * 3) r) (i * 3 + 1) g,
  put-inside (set (set p (i * 3) r) (i * 3 + 1) g) (i * 3 + 2) b,
  length-set p (i * 3) r,
  length-set (set p (i * 3) r) (i * 3 + 1) g,
)

write_rgb_from :
    (i r g b c0 c1 c2 : ℕ) (v : Vga)
    → length v.palette ≡ 768
    → i < 256
    → write_rgb i r g b (record v { dac_cache = c0 ∷ c1 ∷ c2 ∷ [] })
      ≡ some (record v {
        dac_cache = r ∷ g ∷ b ∷ [];
        palette = with_colour i r g b v.palette;
        dac_sub_index = 0;
        dac_write_index = (i + 1) % 256;
        dac_state = 0;
        part1_dirty = true;
        part2_dirty = true;
      })
unfolding device_vga_port_writeb port_of wrong_mode write_port write_colour
write_rgb_from i r g b c0 c1 c2 v len h = rw (copied v.palette i r g b len h)

three : (l : List ℕ) → length l ≡ 3 → (c0 : ℕ) × (c1 : ℕ) × (c2 : ℕ) × (l ≡ c0 ∷ c1 ∷ c2 ∷ [])
three [] h = absurd (omega arith)
three (a ∷ []) h = absurd (omega arith)
three (a ∷ b ∷ []) h = absurd (omega arith)
three (a ∷ b ∷ c ∷ []) h = (a, b, c, refl)
three (a ∷ b ∷ c ∷ d ∷ l) h = absurd (omega arith)

-- Programming colour `i` through the DAC ports succeeds from any state whose arrays have their
-- sizes: the three bytes stand at `3 * i` in the palette, the rest of the palette is as before, the
-- write index moves on by one modulo 256, and both dirty flags are set.
pub write_rgb_lem :
    (i r g b : ℕ) (v : Vga)
    → Sized v
    → i < 256
    → (v' : Vga) × (write_rgb i r g b v ≡ some v')
      × (v'.palette ≡ with_colour i r g b v.palette)
      × (v'.dac_write_index ≡ (i + 1) % 256)
      × (v'.part1_dirty ≡ true)
      × (v'.part2_dirty ≡ true)
write_rgb_lem i r g b v z h =
    let (c0, c1, c2, e) = three v.dac_cache z.cache_size in
    (
      _,
      ap (write_rgb i r g b) (λ j. record v { dac_cache = e j })
          ∙ write_rgb_from i r g b c0 c1 c2 v z.palette_size h,
      refl,
      refl,
      refl,
      refl,
    )

read_rgb_from :
    (i x y z : ℕ) (v : Vga)
    → i < 256
    → length v.palette ≡ 768
    → get_or v.palette (i * 3 + 0) 0 ≡ x
    → get_or v.palette (i * 3 + 1) 0 ≡ y
    → get_or v.palette (i * 3 + 2) 0 ≡ z
    → read_rgb i v ≡ some (x, y, z)
unfolding device_vga_port_writeb device_vga_port_readb port_of wrong_mode write_port read_port
    next_read
read_rgb_from i x y z v h len hx hy hz = rw (
  get-inside v.palette (i * 3 + 0) (omega arith),
  get-inside v.palette (i * 3 + 1) (omega arith),
  get-inside v.palette (i * 3 + 2) (omega arith),
  hx,
  hy,
  hz,
)

length-with_colour : (i r g b : ℕ) (p : List ℕ) → length (with_colour i r g b p) ≡ length p
length-with_colour i r g b p = omega (
  arith,
  length-set p (i * 3) r,
  length-set (set p (i * 3) r) (i * 3 + 1) g,
  length-set (set (set p (i * 3) r) (i * 3 + 1) g) (i * 3 + 2) b,
)

with_colour_lem :
    (i r g b : ℕ) (p : List ℕ)
    → length p ≡ 768
    → i < 256
    → let q = with_colour i r g b p in
      (get_or q (i * 3 + 0) 0 ≡ r) × (get_or q (i * 3 + 1) 0 ≡ g) × (get_or q (i * 3 + 2) 0 ≡ b)
with_colour_lem i r g b p len h =
    let p1 : List ℕ = set p (i * 3) r in
    let p2 : List ℕ = set p1 (i * 3 + 1) g in
    let l1 : length p1 ≡ 768 = length-set p (i * 3) r ∙ len in
    let l2 : length p2 ≡ 768 = length-set p1 (i * 3 + 1) g ∙ l1 in
    (
      get_or-set_ne p2 (i * 3 + 2) (i * 3 + 0) b 0 (omega arith)
          ∙ get_or-set_ne p1 (i * 3 + 1) (i * 3 + 0) g 0 (omega arith)
          ∙ ap (λ (t : ℕ). get_or p1 t 0) (omega arith)
          ∙ get_or-set_self p (i * 3) r 0 (omega arith),
      get_or-set_ne p2 (i * 3 + 2) (i * 3 + 1) b 0 (omega arith)
          ∙ get_or-set_self p1 (i * 3 + 1) g 0 (omega arith),
      get_or-set_self p2 (i * 3 + 2) b 0 (omega arith),
    )

-- In a state whose arrays have their sizes, programming a colour below 256 through the DAC ports
-- and then reading it through them gives the three bytes that were programmed.
pub read_rgb-write_rgb :
    (i r g b : ℕ) (v : Vga)
    → Sized v
    → i < 256
    → (write_rgb i r g b v >>= read_rgb i) ≡ some (r, g, b)
read_rgb-write_rgb i r g b v z h =
    let (v', e, p, _, _, _) = write_rgb_lem i r g b v z h in
    let (x, y, w) = with_colour_lem i r g b v.palette z.palette_size h in
    rw e (
      read_rgb_from i r g b v' h
        (rw p (omega (arith, length-with_colour i r g b v.palette, z.palette_size))) (rw p x)
        (rw p y) (rw p w))
