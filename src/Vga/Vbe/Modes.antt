-- ===== src/Vga/Vbe/Modes.antt =====
-- The display geometry that the VBE data port of device.c accepts, and the memory it clears.
use citrix_vgpu.Prelude.{
  bit_and, if◌then◌else◌, ◌&&◌, not, ℕ, ◌*◌, ◌/◌, ◌%◌, ◌^◌, ◌≡◌, ◌≤◌, ◌<◌, inl, inr, some, arith,
  refl, length, length-set, set, get_or-set_self, get_or-set_ne, Bool-cases, true, ◌==◌, List,
}
use citrix_vgpu.Vga.{Vga, reg, bits}
use citrix_vgpu.Vga.Vbe.{
  id, xres, yres, bpp, enable, bank, virt_width, virt_height, x_offset, y_offset, video_memory_64k,
  lfb_address_h, lfb_address_l, past, VbeIndex, index_of, write_index, device_vbe_data_write,
  xres_of, bpp_of, clear_size, vram_actual_size, pixel_bytes, known_depth, write_id, write_xres,
  write_yres, write_bpp, write_bank, write_enable, graphics_mode, start_mode,
  device_update_lfb_addr, write_virt_width, write_offset,
}

-- A register array that shows a geometry inside the maxima: a depth of 0 is that of a reset.
pub record Shows (regs : List ℕ) : Type 0 where
  pub size : length regs ≡ 13
  pub width : reg regs 1 ≤ 1024
  pub height : reg regs 2 ≤ 768
  pub depth : reg regs 3 ≤ 32

set_one :
    (regs : List ℕ) (i j x b : ℕ)
    → length regs ≡ 13
    → j < 13
    → (i ≡ j → x ≤ b)
    → reg regs j ≤ b
    → reg (set regs i x) j ≤ b
set_one regs i j x b n h new old = elim (Bool-cases (i == j)) [
  | inl e ↦ ground (arith, get_or-set_self regs i x 0)
  | inr ne ↦ ground (arith, get_or-set_ne regs i j x 0)
]

-- A write inside the maxima
set_any :
    (regs : List ℕ) (i x : ℕ)
    → (i ≡ 1 → x ≤ 1024)
    → (i ≡ 2 → x ≤ 768)
    → (i ≡ 3 → x ≤ 32)
    → Shows regs
    → Shows (set regs i x)
set_any regs i x h1 h2 h3 s = record {
  size = omega (arith, length-set regs i x, s.size);
  width = set_one regs i 1 x 1024 s.size (omega arith) h1 s.width;
  height = set_one regs i 2 x 768 s.size (omega arith) h2 s.height;
  depth = set_one regs i 3 x 32 s.size (omega arith) h3 s.depth;
}

set-Shows : (regs : List ℕ) (i x : ℕ) → 3 < i → Shows regs → Shows (set regs i x)
set-Shows regs i x h s = set_any regs i x (λ e. omega arith) (λ e. omega arith) (λ e. omega arith) s

device_update_lfb_addr-Shows :
    (a : ℕ) (v : Vga) → Shows v.vbe_regs → Shows (device_update_lfb_addr a v).vbe_regs
unfolding device_update_lfb_addr
device_update_lfb_addr-Shows a v s = elim (Bool-cases (v.lfb_addr == a)) [
  | inl e ↦ rw e s
  | inr n ↦ rw n (
      set-Shows _ 10 _ (omega arith)
        (set-Shows _ 12 _ (omega arith) (set-Shows v.vbe_regs 11 _ (omega arith) s)))
]

start_mode-Shows : (a : ℕ) (v : Vga) → Shows v.vbe_regs → Shows (start_mode a v).vbe_regs
unfolding start_mode
start_mode-Shows a v s = set-Shows _ 9 _ (omega arith) (
    set-Shows _ 8 _ (omega arith) (
      set-Shows _ 7 _ (omega arith)
        (set-Shows _ 6 _ (omega arith) (device_update_lfb_addr-Shows a v s))))

line-le : (depth w : ℕ) → depth ≤ 32 → w ≤ 1024 → pixel_bytes depth w ≤ 4096
line-le depth w d h = elim (Bool-cases (depth == 4)) [
  | inl e ↦ ground arith
  | inr n ↦ rw n (grind arith)
]

area-le : (h line : ℕ) → h ≤ 768 → line ≤ 4096 → h * line ≤ vram_actual_size
area-le h line p q = grind arith

-- If the registers show a geometry inside the maxima, clearing the video memory when a mode is
-- switched on stays inside the device's 4 MB.
pub clear_size-le : (a val : ℕ) (v : Vga) → Shows v.vbe_regs → clear_size a val v ≤ vram_actual_size
unfolding clear_size start_mode
clear_size-le a val v s =
    let shown = start_mode-Shows a v s in
    let now = device_update_lfb_addr-Shows a v s in
    let line =
      line-le (bpp_of (device_update_lfb_addr a v)) (xres_of (device_update_lfb_addr a v)) now.depth
        now.width in
    elim (Bool-cases (bits val 1 && not (bits (reg v.vbe_regs 4) 1) && not (bits val 0x80))) [
      | inl e ↦ rw e (area-le _ _ shown.height line)
      | inr n ↦ rw n (omega arith)
    ]

graphics_mode-regs : (line : ℕ) (v : Vga) → (graphics_mode line v).vbe_regs ≡ v.vbe_regs
unfolding graphics_mode
graphics_mode-regs line v = elim (Bool-cases (bpp_of v == 4)) [
  | inl e ↦ rw e refl
  | inr n ↦ rw n refl
]

write_enable-Shows :
    (a val : ℕ) (v : Vga) → Shows v.vbe_regs → Shows (write_enable a val v).vbe_regs
unfolding write_enable
write_enable-Shows a val v s = elim (Bool-cases (bits val 1 && not (bits (reg v.vbe_regs 4) 1))) [
  | inl e ↦
      rw (e, graphics_mode-regs (start_mode a v).vbe_line_offset (start_mode a v))
        (set-Shows (start_mode a v).vbe_regs 4 val (omega arith) (start_mode-Shows a v s))
  | inr n ↦ rw n (set-Shows v.vbe_regs 4 val (omega arith) s)
]

write_virt_width-Shows :
    (val : ℕ) (v v' : Vga) → Shows v.vbe_regs → write_virt_width val v ≡ some v' → Shows v'.vbe_regs
unfolding write_virt_width
write_virt_width-Shows val v v' s e =
    let h : ℕ = vram_actual_size / pixel_bytes (bpp_of v) val in
    ground (
      arith,
      set-Shows (set v.vbe_regs 6 val) 7 (h % 2 ^ 16) (omega arith)
          (set-Shows v.vbe_regs 6 val (omega arith) s),
    )

known_depth-le : (d : ℕ) → known_depth d ≡ true → d ≤ 32
known_depth-le d h = ground arith

write_index-Shows :
    (a : ℕ) (i : VbeIndex) (val : ℕ) (v v' : Vga)
    → Shows v.vbe_regs
    → write_index a i val v ≡ some v'
    → Shows v'.vbe_regs
unfolding write_index write_id write_xres write_yres write_bpp write_bank write_offset
write_index-Shows a id val v v' s e = ground (arith, set_any v.vbe_regs 0 val)
write_index-Shows a xres val v v' s e = ground (arith, set_any v.vbe_regs 1 val)
write_index-Shows a yres val v v' s e = ground (arith, set_any v.vbe_regs 2 val)
write_index-Shows a bpp val v v' s e =
    let depth : ℕ = if val == 0 then 8 else val in
    ground (arith, known_depth-le depth, set_any v.vbe_regs 3 depth)
write_index-Shows a enable val v v' s e = ground (arith, write_enable-Shows a val v s)
write_index-Shows a bank val v v' s e =
    let masked : ℕ = bit_and val (if bpp_of v == 4 then v.vbe_bank_mask / 4 else v.vbe_bank_mask) in
    ground (arith, set-Shows v.vbe_regs 5 masked)
write_index-Shows a virt_width val v v' s e = write_virt_width-Shows val v v' s e
write_index-Shows a virt_height val v v' s e = ground arith
write_index-Shows a x_offset val v v' s e = ground (arith, set-Shows v.vbe_regs 8 val)
write_index-Shows a y_offset val v v' s e = ground (arith, set-Shows v.vbe_regs 9 val)
write_index-Shows a video_memory_64k val v v' s e = ground arith
write_index-Shows a lfb_address_h val v v' s e = ground arith
write_index-Shows a lfb_address_l val v v' s e = ground arith
write_index-Shows a past val v v' s e = ground arith

-- A write to the VBE data port that returns keeps the registers' geometry inside the maxima,
-- whatever index and value the guest writes.
pub device_vbe_data_write-Shows :
    (a val : ℕ) (v v' : Vga)
    → Shows v.vbe_regs
    → device_vbe_data_write a val v ≡ some v'
    → Shows v'.vbe_regs
unfolding device_vbe_data_write
device_vbe_data_write-Shows a val v v' s e =
    ground
      (arith, write_index-Shows a (index_of v.vbe_index) val (record v { part1_dirty = true }) v' s)
