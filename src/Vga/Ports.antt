-- ===== src/Vga/Ports.antt =====
-- The VGA ports of device.c: `device_vga_port_readb` and `device_vga_port_writeb`.
--
-- `none` is an access past the end of an array. A `switch` on the address is `port_of` and clauses.
pub mod Safe
pub mod Dac
use citrix_vgpu.Prelude.{
  ℕ, suc, ◌+◌, ◌-◌, ◌*◌, ◌%◌, ◌^◌, Bool, true, false, not, ◌&&◌, ◌||◌, Option, none, some, List, [],
  ◌∷◌, bit_and, bit_or, bit_xor, ltb, leb, ◌==◌, if◌then◌else◌, set,
}
use citrix_vgpu.Vga.{Vga, get, put, reg, bits, clear}

-- `__sr_mask`
unfoldable pub sr_mask : List ℕ
sr_mask = 3 ∷ 61 ∷ 15 ∷ 63 ∷ 14 ∷ 0 ∷ 0 ∷ 255 ∷ []

-- `__gr_mask`
unfoldable pub gr_mask : List ℕ
gr_mask = 15 ∷ 15 ∷ 15 ∷ 31 ∷ 3 ∷ 123 ∷ 15 ∷ 15 ∷ 255 ∷ 0 ∷ 0 ∷ 0 ∷ 0 ∷ 0 ∷ 0 ∷ 0 ∷ []

-- The labels of the two `switch` statements on the address.
pub data Port : Type 0 where
  attribute attribute_data misc sequencer sequencer_data dac_read dac_write dac_data feature
        misc_read graphics graphics_data crtc crtc_data status other :
      Port

unfoldable pub port_of : ℕ → Port
port_of addr =
    if addr == 0x3c0
    then attribute
    else if addr == 0x3c1
    then attribute_data
    else if addr == 0x3c2
    then misc
    else if addr == 0x3c4
    then sequencer
    else if addr == 0x3c5
    then sequencer_data
    else if addr == 0x3c7
    then dac_read
    else if addr == 0x3c8
    then dac_write
    else if addr == 0x3c9
    then dac_data
    else if addr == 0x3ca
    then feature
    else if addr == 0x3cc
    then misc_read
    else if addr == 0x3ce
    then graphics
    else if addr == 0x3cf
    then graphics_data
    else if addr == 0x3b4 || addr == 0x3d4
    then crtc
    else if addr == 0x3b5 || addr == 0x3d5
    then crtc_data
    else if addr == 0x3ba || addr == 0x3da
    then status
    else other

-- The ports of the other mode: monochrome ones in colour emulation, colour ones without it.
unfoldable pub wrong_mode : ℕ → ℕ → Bool
wrong_mode msr addr =
    (leb 0x3b0 addr && leb addr 0x3bf && bits msr 1)
    || (leb 0x3d0 addr && leb addr 0x3df && not (bits msr 1))

abbrev pub with_state : Vga → Option ℕ → Option (ℕ × Vga)
with_state v none = none
with_state v (some x) = some (x, v)

-- `if (++vga->dac_sub_index == 3)` of the read.
unfoldable pub next_read : Vga → Vga
next_read v =
    let sub = (v.dac_sub_index + 1) % 256 in
    if sub == 3
    then record v { dac_sub_index = 0; dac_read_index = (v.dac_read_index + 1) % 256 }
    else record v { dac_sub_index = sub }

unfoldable pub read_port : Port → Vga → Option (ℕ × Vga)
read_port attribute v = some (if v.ar_flip_flop == 0 then v.ar_index else 0, v)
read_port attribute_data v =
    let index = bit_and v.ar_index 0x1f in
    if ltb index 21 then with_state v (get v.ar index) else some (0, v)
read_port misc v = some (v.st00, v)
read_port sequencer v = some (v.sr_index, v)
read_port sequencer_data v = with_state v (get v.sr v.sr_index)
read_port dac_read v = some (v.dac_state, v)
read_port dac_write v = some (v.dac_write_index, v)
read_port dac_data v =
    with_state (next_read (record v { part1_dirty = true }))
      (get v.palette (v.dac_read_index * 3 + v.dac_sub_index))
read_port feature v = some (v.fcr, v)
read_port misc_read v = some (v.msr, v)
read_port graphics v = some (v.gr_index, v)
read_port graphics_data v = with_state v (get v.gr v.gr_index)
read_port crtc v = some (v.cr_index, v)
read_port crtc_data v = with_state v (get v.cr v.cr_index)
read_port status v =
    let st01 = bit_xor v.st01 9 in some (st01, record v { st01 = st01; ar_flip_flop = 0 })
read_port other v = some (0, v)

unfoldable pub device_vga_port_readb : ℕ → Vga → Option (ℕ × Vga)
device_vga_port_readb addr v =
    if wrong_mode v.msr addr then some (0xff, v) else read_port (port_of addr) v

-- What the attribute data register keeps of a value; `none` for the `default` of the `switch`.
unfoldable pub attribute_value : ℕ → ℕ → Option ℕ
attribute_value index val =
    if leb index 0x0f
    then some (bit_and val 0x3f)
    else if index == 0x10
    then some (clear val 0x10)
    else if index == 0x11
    then some val
    else if index == 0x12
    then some (clear val 0xc0)
    else if index == 0x13
    then some (clear val 0xf0)
    else if index == 0x14
    then some (clear val 0xf0)
    else none

abbrev pub flip : Vga → Vga
flip v = record v { ar_flip_flop = bit_xor v.ar_flip_flop 1 }

-- Port 0x3c0.
unfoldable pub write_attribute : ℕ → Vga → Option Vga
write_attribute val v =
    let index = bit_and v.ar_index 0x1f in
    if v.ar_flip_flop == 0
    then some (flip (record v { ar_index = bit_and val 0x3f }))
    else elim (attribute_value index val) [
      | none ↦ some (flip v)
      | some x ↦ elim (put v.ar index x) [
        | none ↦ none
        | some ar ↦ some (flip (record v { ar = ar }))
      ]
    ]

-- `memcpy(&vga->palette[i], cache, 3)`
abbrev pub copy_colour : List ℕ → ℕ → List ℕ → Option (List ℕ)
copy_colour palette i cache = elim (put palette i (reg cache 0)) [
  | none ↦ none
  | some p1 ↦ elim (put p1 (i + 1) (reg cache 1)) [
    | none ↦ none
    | some p2 ↦ put p2 (i + 2) (reg cache 2)
  ]
]

-- Port 0x3c9.
unfoldable pub write_colour : ℕ → Vga → Option Vga
write_colour val v = elim (put v.dac_cache v.dac_sub_index val) [
  | none ↦ none
  | some cache ↦
      let sub = (v.dac_sub_index + 1) % 256 in
      if sub == 3
      then elim (copy_colour v.palette (v.dac_write_index * 3) cache) [
        | none ↦ none
        | some palette ↦ some (record v {
          dac_cache = cache;
          palette = palette;
          dac_sub_index = 0;
          dac_write_index = (v.dac_write_index + 1) % 256;
          part2_dirty = true;
        })
      ]
      else some (record v { dac_cache = cache; dac_sub_index = sub })
]

-- `bank[index] = val & masks[index]`
abbrev pub put_masked : List ℕ → List ℕ → ℕ → ℕ → Option (List ℕ)
put_masked masks bank index val = elim (get masks index) [
  | none ↦ none
  | some mask ↦ put bank index (bit_and val mask)
]

-- Ports 0x3b5 and 0x3d5, with the protection of CR0 to CR7.
unfoldable pub write_crtc : ℕ → Vga → Option (List ℕ)
write_crtc val v =
    if bits (reg v.cr 0x11) 0x80 && leb v.cr_index 7
    then (if v.cr_index == 7
        then some (set v.cr 7 (bit_or (clear (reg v.cr 7) 0x10) (bit_and val 0x10)))
        else some v.cr)
    else put v.cr v.cr_index val

unfoldable pub write_port : Port → ℕ → Vga → Option Vga
write_port attribute val v = write_attribute val v
write_port misc val v = some (record v { msr = clear val 0x10 })
write_port sequencer val v = some (record v { sr_index = bit_and val 7 })
write_port sequencer_data val v = elim (put_masked sr_mask v.sr v.sr_index val) [
  | none ↦ none
  | some sr ↦ some (record v { sr = sr })
]
write_port dac_read val v =
    some (record v { dac_read_index = val; dac_sub_index = 0; dac_state = 3 })
write_port dac_write val v =
    some (record v { dac_write_index = val; dac_sub_index = 0; dac_state = 0 })
write_port dac_data val v = write_colour val v
write_port graphics val v = some (record v { gr_index = bit_and val 0x0f })
write_port graphics_data val v = elim (put_masked gr_mask v.gr v.gr_index val) [
  | none ↦ none
  | some gr ↦ some (record v { gr = gr })
]
write_port crtc val v = some (record v { cr_index = val })
write_port crtc_data val v = elim (write_crtc val v) [
  | none ↦ none
  | some cr ↦ some (record v { cr = cr })
]
write_port status val v = some (record v { fcr = bit_and val 0x10 })
write_port attribute_data val v = some v
write_port feature val v = some v
write_port misc_read val v = some v
write_port other val v = some v

unfoldable pub device_vga_port_writeb : ℕ → ℕ → Vga → Option Vga
device_vga_port_writeb addr val v =
    if wrong_mode v.msr addr
    then some v
    else write_port (port_of addr) val (record v { part1_dirty = true })
