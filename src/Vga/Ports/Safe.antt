-- ===== src/Vga/Ports/Safe.antt =====
-- The array accesses of the port handlers of device.c.
use citrix_vgpu.Prelude.{
  get_or, true, Option-cases, ◌%◌, ◌&&◌, ℕ, ◌+◌, ◌*◌, ◌≡◌, ◌<◌, some, List, arith, refl, length,
  length-set, bit_and, set, Bool-cases, inl, inr, ◌==◌, ltb, leb, bit_or, bit_xor,
}
use citrix_vgpu.Prelude.Bits.{bit_and-le_right}
use citrix_vgpu.Vga.{clear, bits, Vga, Sized, reg}
use citrix_vgpu.Vga.Banks.{put-inside, get-inside, Within, put_masked-inside, set-Within}
use citrix_vgpu.Vga.Ports.{
  wrong_mode, copy_colour, Port, port_of, attribute, attribute_data, misc, sequencer,
  sequencer_data, dac_read, dac_write, dac_data, feature, misc_read, graphics, graphics_data, crtc,
  crtc_data, status, other, sr_mask, gr_mask, next_read, read_port, device_vga_port_readb,
  attribute_value, write_attribute, write_colour, write_crtc, write_port, device_vga_port_writeb,
}

-- The index registers select a register that exists, and the masked registers are within their
-- masks.
pub record IsValid (v : Vga) : Type 0 where
  pub sized : Sized v
  pub sr_index_in : v.sr_index < 8
  pub gr_index_in : v.gr_index < 16
  pub cr_index_in : v.cr_index < 256
  pub sub_in : v.dac_sub_index < 3
  pub read_in : v.dac_read_index < 256
  pub write_in : v.dac_write_index < 256
  pub sr_within : Within sr_mask v.sr
  pub gr_within : Within gr_mask v.gr

with_sr :
    (v : Vga) (bank : List ℕ)
    → IsValid v
    → length bank ≡ 256
    → Within sr_mask bank
    → IsValid (record v { sr = bank })
with_sr v bank h len w = record {
  sized = ground arith;
  sr_index_in = h.sr_index_in;
  gr_index_in = h.gr_index_in;
  cr_index_in = h.cr_index_in;
  sub_in = h.sub_in;
  read_in = h.read_in;
  write_in = h.write_in;
  sr_within = w;
  gr_within = h.gr_within;
}

with_gr :
    (v : Vga) (bank : List ℕ)
    → IsValid v
    → length bank ≡ 256
    → Within gr_mask bank
    → IsValid (record v { gr = bank })
with_gr v bank h len w = record {
  sized = ground arith;
  sr_index_in = h.sr_index_in;
  gr_index_in = h.gr_index_in;
  cr_index_in = h.cr_index_in;
  sub_in = h.sub_in;
  read_in = h.read_in;
  write_in = h.write_in;
  gr_within = w;
  sr_within = h.sr_within;
}

attribute_value-lt : (index val x : ℕ) → attribute_value index val ≡ some x → index < 21
unfolding attribute_value
attribute_value-lt index val x h = ground arith

-- Port 0x3c0 writes its index register or a register of its bank.
write_attribute_cases :
    (val : ℕ) (v : Vga)
    → IsValid v
    → (ar : List ℕ) × (index : ℕ) × (flip_flop : ℕ) × (write_attribute val v
        ≡ some (record v { ar = ar; ar_index = index; ar_flip_flop = flip_flop }))
      × (length ar ≡ 21)
unfolding write_attribute
write_attribute_cases val v h = elim (Bool-cases (v.ar_flip_flop == 0)) [
  | inl e ↦ (v.ar, bit_and val 0x3f, bit_xor v.ar_flip_flop 1, rw e, h.sized.ar_size)
  | inr e ↦ elim (Option-cases (attribute_value (bit_and v.ar_index 0x1f) val)) [
    | inl n ↦ (v.ar, v.ar_index, bit_xor v.ar_flip_flop 1, ground arith, h.sized.ar_size)
    | inr (x, q) ↦
        let inside : bit_and v.ar_index 0x1f < length v.ar =
          omega (arith, attribute_value-lt (bit_and v.ar_index 0x1f) val x q) in
        (
          set v.ar (bit_and v.ar_index 0x1f) x,
          v.ar_index,
          bit_xor v.ar_flip_flop 1,
          ground (arith, put-inside v.ar (bit_and v.ar_index 0x1f) x inside),
          omega (arith, length-set v.ar (bit_and v.ar_index 0x1f) x),
        )
  ]
]

write_attribute-IsValid :
    (val : ℕ) (v : Vga) → IsValid v → (v' : Vga) × (write_attribute val v ≡ some v') × IsValid v'
write_attribute-IsValid val v h =
    let (ar, index, flip_flop, e, len) = write_attribute_cases val v h in (_, e, ground arith)

copy_colour_lem :
    (palette cache : List ℕ) (i : ℕ)
    → i + 2 < length palette
    → (p : List ℕ) × (copy_colour palette i cache ≡ some p) × (length p ≡ length palette)
copy_colour_lem palette cache i h =
    let p1 : List ℕ = set palette i (reg cache 0) in
    let p2 : List ℕ = set p1 (i + 1) (reg cache 1) in
    (
      set p2 (i + 2) (reg cache 2),
      ground (arith, length-set palette i (reg cache 0), length-set p1 (i + 1) (reg cache 1)),
      omega (
        arith,
        length-set palette i (reg cache 0),
        length-set p1 (i + 1) (reg cache 1),
        length-set p2 (i + 2) (reg cache 2),
      ),
    )

write_colour-IsValid :
    (val : ℕ) (v : Vga) → IsValid v → (v' : Vga) × (write_colour val v ≡ some v') × IsValid v'
unfolding write_colour
write_colour-IsValid val v h = elim (Bool-cases ((v.dac_sub_index + 1) % 256 == 3)) [
  | inl e ↦
      let (p, q, len) =
        copy_colour_lem v.palette (set v.dac_cache v.dac_sub_index val) (v.dac_write_index * 3)
          (omega arith) in
      (
        record v {
          dac_cache = set v.dac_cache v.dac_sub_index val;
          palette = p;
          dac_sub_index = 0;
          dac_write_index = (v.dac_write_index + 1) % 256;
          part2_dirty = true;
        },
        ground (arith, put-inside v.dac_cache v.dac_sub_index val),
        ground (arith, length-set v.dac_cache v.dac_sub_index val),
      )
  | inr e ↦ (
    record v {
      dac_cache = set v.dac_cache v.dac_sub_index val;
      dac_sub_index = (v.dac_sub_index + 1) % 256;
    },
    ground (arith, put-inside v.dac_cache v.dac_sub_index val),
    ground (arith, length-set v.dac_cache v.dac_sub_index val),
  )
]

write_crtc_lem :
    (val : ℕ) (v : Vga)
    → IsValid v
    → (cr : List ℕ) × (write_crtc val v ≡ some cr) × (length cr ≡ 256)
unfolding write_crtc
write_crtc_lem val v h = elim (Bool-cases (bits (reg v.cr 0x11) 0x80 && leb v.cr_index 7)) [
  | inl e ↦ elim (Bool-cases (v.cr_index == 7)) [
    | inl e7 ↦
        let x : ℕ = bit_or (clear (reg v.cr 7) 0x10) (bit_and val 0x10) in
        (set v.cr 7 x, rw (e, e7), omega (arith, length-set v.cr 7 x))
    | inr n7 ↦ (v.cr, rw (e, n7), h.sized.cr_size)
  ]
  | inr n ↦ (
    set v.cr v.cr_index val,
    rw n (put-inside v.cr v.cr_index val (omega arith)),
    omega (arith, length-set v.cr v.cr_index val),
  )
]

write_port-IsValid :
    (p : Port) (val : ℕ) (v : Vga)
    → val < 256
    → IsValid v
    → (v' : Vga) × (write_port p val v ≡ some v') × IsValid v'
unfolding write_port
write_port-IsValid attribute val v b h = write_attribute-IsValid val v h
write_port-IsValid misc val v b h = (_, refl, ground arith)
write_port-IsValid sequencer val v b h = (_, refl, ground (arith, bit_and-le_right val 7))
write_port-IsValid sequencer_data val v b h = (
  record v { sr = set v.sr v.sr_index (bit_and val (get_or sr_mask v.sr_index 0)) },
  ground (arith, put_masked-inside sr_mask v.sr v.sr_index val sr_in (omega arith)),
  with_sr v (set v.sr v.sr_index (bit_and val (get_or sr_mask v.sr_index 0))) h
      (omega (arith, length-set v.sr v.sr_index (bit_and val (get_or sr_mask v.sr_index 0))))
      (set-Within sr_mask v.sr v.sr_index val sr_in (omega arith) h.sr_within),
)
  where
    sr_in : v.sr_index < length sr_mask
    sr_in = unfold sr_mask in omega arith
write_port-IsValid dac_read val v b h = (_, refl, ground arith)
write_port-IsValid dac_write val v b h = (_, refl, ground arith)
write_port-IsValid dac_data val v b h = write_colour-IsValid val v h
write_port-IsValid graphics val v b h = (_, refl, ground (arith, bit_and-le_right val 15))
write_port-IsValid graphics_data val v b h = (
  record v { gr = set v.gr v.gr_index (bit_and val (get_or gr_mask v.gr_index 0)) },
  ground (arith, put_masked-inside gr_mask v.gr v.gr_index val gr_in (omega arith)),
  with_gr v (set v.gr v.gr_index (bit_and val (get_or gr_mask v.gr_index 0))) h
      (omega (arith, length-set v.gr v.gr_index (bit_and val (get_or gr_mask v.gr_index 0))))
      (set-Within gr_mask v.gr v.gr_index val gr_in (omega arith) h.gr_within),
)
  where
    gr_in : v.gr_index < length gr_mask
    gr_in = unfold gr_mask in omega arith
write_port-IsValid crtc val v b h = (_, refl, ground arith)
write_port-IsValid crtc_data val v b h =
    let (cr, e, len) = write_crtc_lem val v h in (record v { cr = cr }, ground arith, ground arith)
write_port-IsValid status val v b h = (_, refl, ground arith)
write_port-IsValid attribute_data val v b h = (v, refl, h)
write_port-IsValid feature val v b h = (v, refl, h)
write_port-IsValid misc_read val v b h = (v, refl, h)
write_port-IsValid other val v b h = (v, refl, h)

-- A byte written to any port address, in a valid state, is handled without an access past the end
-- of an array, and leaves a valid state.
pub device_vga_port_writeb-IsValid :
    (addr val : ℕ) (v : Vga)
    → val < 256
    → IsValid v
    → (v' : Vga) × (device_vga_port_writeb addr val v ≡ some v') × IsValid v'
unfolding device_vga_port_writeb
device_vga_port_writeb-IsValid addr val v b h = elim (Bool-cases (wrong_mode v.msr addr)) [
  | inl e ↦ (v, rw e, h)
  | inr e ↦
      let (v', q, h') =
        write_port-IsValid (port_of addr) val (record v { part1_dirty = true }) b (ground arith) in
      (v', rw e q, h')
]

next_read-IsValid : (v : Vga) → IsValid v → IsValid (next_read v)
unfolding next_read
next_read-IsValid v h = elim (Bool-cases ((v.dac_sub_index + 1) % 256 == 3)) [
  | inl e ↦ ground arith
  | inr e ↦ ground arith
]

read_port-IsValid :
    (p : Port) (v : Vga)
    → IsValid v
    → (x : ℕ) × (v' : Vga) × (read_port p v ≡ some (x, v')) × IsValid v'
unfolding read_port
read_port-IsValid attribute v h = (_, v, refl, h)
read_port-IsValid attribute_data v h = elim (Bool-cases (ltb (bit_and v.ar_index 0x1f) 21)) [
  | inl e ↦ (
    get_or v.ar (bit_and v.ar_index 0x1f) 0,
    v,
    ground (arith, get-inside v.ar (bit_and v.ar_index 0x1f)),
    h,
  )
  | inr e ↦ (0, v, rw e, h)
]
read_port-IsValid misc v h = (v.st00, v, refl, h)
read_port-IsValid sequencer v h = (v.sr_index, v, refl, h)
read_port-IsValid sequencer_data v h =
    (get_or v.sr v.sr_index 0, v, ground (arith, get-inside v.sr v.sr_index), h)
read_port-IsValid dac_read v h = (v.dac_state, v, refl, h)
read_port-IsValid dac_write v h = (v.dac_write_index, v, refl, h)
read_port-IsValid dac_data v h = (
  get_or v.palette (v.dac_read_index * 3 + v.dac_sub_index) 0,
  next_read (record v { part1_dirty = true }),
  ground (arith, get-inside v.palette (v.dac_read_index * 3 + v.dac_sub_index)),
  next_read-IsValid (record v { part1_dirty = true }) (ground arith),
)
read_port-IsValid feature v h = (v.fcr, v, refl, h)
read_port-IsValid misc_read v h = (v.msr, v, refl, h)
read_port-IsValid graphics v h = (v.gr_index, v, refl, h)
read_port-IsValid graphics_data v h =
    (get_or v.gr v.gr_index 0, v, ground (arith, get-inside v.gr v.gr_index), h)
read_port-IsValid crtc v h = (v.cr_index, v, refl, h)
read_port-IsValid crtc_data v h =
    (get_or v.cr v.cr_index 0, v, ground (arith, get-inside v.cr v.cr_index), h)
read_port-IsValid status v h = (_, _, refl, ground arith)
read_port-IsValid other v h = (0, v, refl, h)

-- A byte read from any port address, in a valid state, is handled without an access past the end of
-- an array, and leaves a valid state.
pub device_vga_port_readb-IsValid :
    (addr : ℕ) (v : Vga)
    → IsValid v
    → (x : ℕ) × (v' : Vga) × (device_vga_port_readb addr v ≡ some (x, v')) × IsValid v'
unfolding device_vga_port_readb
device_vga_port_readb-IsValid addr v h = elim (Bool-cases (wrong_mode v.msr addr)) [
  | inl e ↦ (0xff, v, rw e, h)
  | inr e ↦ let (x, v', q, h') = read_port-IsValid (port_of addr) v h in (x, v', rw e q, h')
]
