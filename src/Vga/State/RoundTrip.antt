-- ===== src/Vga/State/RoundTrip.antt =====
-- A device that is dumped to the two records of device.c, and read back.
use citrix_vgpu.Prelude.{
  ℕ, zero, suc, ◌+◌, ◌*◌, ◌^◌, ◌≡◌, ◌<◌, refl, ap, ap₂, ◌∙◌, sym, some, List, [], ◌∷◌, ◌++◌, length,
  take, drop, get_or, length-append, arith, true,
}
use mathlib.Core.List.{append-nil}
use citrix_vgpu.Stream.{bytes_le, value_le}
use citrix_vgpu.Stream.Bytes.{
  drop-nil, length-bytes_le, value_le-bytes_le, take-append, drop-append, length-take,
}
use citrix_vgpu.Vga.{Vga, Sized}
use citrix_vgpu.Vga.State.{
  part2_record, joined, words_le, part1_fields, part1_record, part1_size, field, number, some_words,
  read_part1, read_vga,
}

-- The bytes before segment `k`, and the segment
abbrev before : List (List ℕ) → ℕ → ℕ
before [] k = 0
before (s ∷ l) zero = 0
before (s ∷ l) (suc k) = length s + before l k

abbrev segment : List (List ℕ) → ℕ → List ℕ
segment [] k = []
segment (s ∷ l) zero = s
segment (s ∷ l) (suc k) = segment l k

abbrev after : List (List ℕ) → ℕ → List ℕ
after [] k = []
after (s ∷ l) zero = joined l
after (s ∷ l) (suc k) = after l k

drop_plus : (a b : ℕ) (l : List ℕ) → drop (a + b) l ≡ drop b (drop a l)
drop_plus zero b l = ap (λ (t : ℕ). drop t l) (omega arith)
drop_plus (suc a) b [] =
    let e : suc a + b ≡ suc (a + b) = omega arith in
    ap (λ (t : ℕ). drop {A = ℕ} t []) e ∙ sym (drop-nil b)
drop_plus (suc a) b (x ∷ l) =
    let e : suc a + b ≡ suc (a + b) = omega arith in
    ap (λ (t : ℕ). drop t (x ∷ l)) e ∙ drop_plus a b l

-- From its place on, a record is the segment and what follows.
drop-joined :
    (segs : List (List ℕ)) (k : ℕ)
    → drop (before segs k) (joined segs) ≡ segment segs k ++ after segs k
drop-joined [] k = refl
drop-joined (s ∷ l) zero = refl
drop-joined (s ∷ l) (suc k) =
    drop_plus (length s) (before l k) (s ++ joined l)
    ∙ ap (drop (before l k)) (drop-append (length s) s (joined l) refl)
    ∙ drop-joined l k

placed :
    (segs : List (List ℕ)) (k at : ℕ)
    → before segs k ≡ at
    → drop at (joined segs) ≡ segment segs k ++ after segs k
placed segs k at e = ap (λ (t : ℕ). drop t (joined segs)) (sym e) ∙ drop-joined segs k

field_placed :
    (segs : List (List ℕ)) (k at n : ℕ)
    → before segs k ≡ at
    → length (segment segs k) ≡ n
    → field at n (joined segs) ≡ segment segs k
field_placed segs k at n e h =
    ap (take n) (placed segs k at e) ∙ take-append n (segment segs k) (after segs k) h

abbrev pub AllWords : List ℕ → Type 0
AllWords [] = Unit
AllWords (x ∷ l) = (x < 2 ^ 16) × AllWords l

some_words-words_le : (l r : List ℕ) → AllWords l → some_words (length l) (words_le l ++ r) ≡ l
unfolding bytes_le value_le
some_words-words_le [] r h = refl
some_words-words_le (x ∷ l) r h =
    ap₂ (λ (a : ℕ) (t : List ℕ). a ∷ t) (omega (arith, h.0)) (some_words-words_le l r h.1)

length-words_le : (l : List ℕ) → length (words_le l) ≡ 2 * length l
unfolding bytes_le
length-words_le [] = refl
length-words_le (x ∷ l) = omega (arith, length-words_le l)

-- A device whose arrays have their sizes and whose fields fit their C types, as far as the record has
-- them
pub record Storable (v : Vga) : Type 0 where
  pub sized : Sized v
  pub latch_in : v.latch < 2 ^ 32
  pub flip_flop_in : v.ar_flip_flop < 2 ^ 32
  pub bank_in : v.bank_offset < 2 ^ 32
  pub index_in : v.vbe_index < 2 ^ 16
  pub regs_in : AllWords v.vbe_regs
  pub start_in : v.vbe_start_addr < 2 ^ 32
  pub line_in : v.vbe_line_offset < 2 ^ 32
  pub mask_in : v.vbe_bank_mask < 2 ^ 32

-- `w` with the fields that the first record holds taken from `v`
abbrev pub with_part1 : Vga → Vga → Vga
with_part1 v w = record w {
  latch = v.latch;
  sr_index = v.sr_index;
  sr = take 8 v.sr ++ drop 8 w.sr;
  gr_index = v.gr_index;
  gr = take 16 v.gr ++ drop 16 w.gr;
  ar_index = v.ar_index;
  ar = v.ar;
  ar_flip_flop = v.ar_flip_flop;
  cr_index = v.cr_index;
  cr = v.cr;
  msr = v.msr;
  fcr = v.fcr;
  st00 = v.st00;
  st01 = v.st01;
  dac_state = v.dac_state;
  dac_sub_index = v.dac_sub_index;
  dac_read_index = v.dac_read_index;
  dac_write_index = v.dac_write_index;
  dac_cache = v.dac_cache;
  bank_offset = v.bank_offset;
  vbe_index = v.vbe_index;
  vbe_regs = v.vbe_regs;
  vbe_start_addr = v.vbe_start_addr;
  vbe_line_offset = v.vbe_line_offset;
  vbe_bank_mask = v.vbe_bank_mask;
  part1_dirty = true;
}

-- The places of the fields
module _ (v : Vga) (h : Storable v) where
  abbrev segs : List (List ℕ)
  segs = part1_fields v

  sr_len : length (take 8 v.sr) ≡ 8
  sr_len = length-take 8 v.sr (omega (arith, h.sized.sr_size))

  gr_len : length (take 16 v.gr) ≡ 16
  gr_len = length-take 16 v.gr (omega (arith, h.sized.gr_size))

  regs_len : length (words_le v.vbe_regs) ≡ 26
  regs_len = omega (arith, length-words_le v.vbe_regs, h.sized.vbe_size)

  -- Where the segments begin
  begins :
      (before segs 1 ≡ 4)
      × (before segs 2 ≡ 5)
      × (before segs 3 ≡ 13)
      × (before segs 4 ≡ 14)
      × (before segs 5 ≡ 30)
      × (before segs 6 ≡ 31)
      × (before segs 7 ≡ 52)
      × (before segs 8 ≡ 56)
      × (before segs 9 ≡ 57)
      × (before segs 10 ≡ 313)
      × (before segs 11 ≡ 317)
      × (before segs 12 ≡ 321)
      × (before segs 13 ≡ 324)
      × (before segs 14 ≡ 328)
      × (before segs 15 ≡ 330)
      × (before segs 16 ≡ 356)
      × (before segs 17 ≡ 360)
      × (before segs 18 ≡ 364)
      × (before segs 19 ≡ 368)
  unfolding part1_fields bytes_le
  begins =
      omega (arith, sr_len, gr_len, regs_len, h.sized.ar_size, h.sized.cr_size, h.sized.cache_size)

  number_placed :
      (k at n x : ℕ)
      → before segs k ≡ at
      → length (bytes_le n x) ≡ n
      → segment segs k ≡ bytes_le n x
      → x < 256 ^ n
      → number at n (joined segs) ≡ x
  number_placed k at n x e len same small =
      ap value_le (field_placed segs k at n e (ap length same ∙ len) ∙ same)
      ∙ value_le-bytes_le n x small

  byte_placed :
      (k at i : ℕ)
      → before segs k ≡ at
      → get_or (drop at (joined segs)) i 0 ≡ get_or (segment segs k ++ after segs k) i 0
  byte_placed k at i e = ap (λ (t : List ℕ). get_or t i 0) (placed segs k at e)

  words_placed : before segs 15 ≡ 330 → some_words 13 (drop 330 (joined segs)) ≡ v.vbe_regs
  unfolding part1_fields
  words_placed e =
      ap (some_words 13) (placed segs 15 330 e)
      ∙ ap (λ (t : ℕ). some_words t (words_le v.vbe_regs ++ after segs 15)) (sym h.sized.vbe_size)
      ∙ some_words-words_le v.vbe_regs (after segs 15) h.regs_in

  from_record : (w : Vga) → read_part1 (joined segs) w ≡ with_part1 v w
  unfolding read_part1 part1_fields
  from_record w =
      let b = begins in
      λ i. record w {
        latch = (number_placed 0 0 4 v.latch refl (length-bytes_le 4 v.latch) refl h.latch_in) i;
        ar_flip_flop =
            (number_placed 7 52 4 v.ar_flip_flop b.6 (length-bytes_le 4 v.ar_flip_flop) refl
                h.flip_flop_in)
              i;
        bank_offset =
            (number_placed 13 324 4 v.bank_offset b.12 (length-bytes_le 4 v.bank_offset) refl
                h.bank_in)
              i;
        vbe_index =
            (number_placed 14 328 2 v.vbe_index b.13 (length-bytes_le 2 v.vbe_index) refl
                h.index_in)
              i;
        vbe_start_addr =
            (number_placed 16 356 4 v.vbe_start_addr b.15 (length-bytes_le 4 v.vbe_start_addr) refl
                h.start_in)
              i;
        vbe_line_offset =
            (number_placed 17 360 4 v.vbe_line_offset b.16 (length-bytes_le 4 v.vbe_line_offset)
                refl h.line_in)
              i;
        vbe_bank_mask =
            (number_placed 18 364 4 v.vbe_bank_mask b.17 (length-bytes_le 4 v.vbe_bank_mask) refl
                h.mask_in)
              i;
        sr_index = (byte_placed 1 4 0 b.0) i;
        gr_index = (byte_placed 3 13 0 b.2) i;
        ar_index = (byte_placed 5 30 0 b.4) i;
        cr_index = (byte_placed 8 56 0 b.7) i;
        msr = (byte_placed 10 313 0 b.9) i;
        fcr = (byte_placed 10 313 1 b.9) i;
        st00 = (byte_placed 10 313 2 b.9) i;
        st01 = (byte_placed 10 313 3 b.9) i;
        dac_state = (byte_placed 11 317 0 b.10) i;
        dac_sub_index = (byte_placed 11 317 1 b.10) i;
        dac_read_index = (byte_placed 11 317 2 b.10) i;
        dac_write_index = (byte_placed 11 317 3 b.10) i;
        ar = (field_placed segs 6 31 21 b.5 h.sized.ar_size) i;
        cr = (field_placed segs 9 57 256 b.8 h.sized.cr_size) i;
        dac_cache = (field_placed segs 12 321 3 b.11 h.sized.cache_size) i;
        sr = (ap (λ (t : List ℕ). t ++ drop 8 w.sr) (field_placed segs 2 5 8 b.1 sr_len)) i;
        gr = (ap (λ (t : List ℕ). t ++ drop 16 w.gr) (field_placed segs 4 14 16 b.3 gr_len)) i;
        vbe_regs = (words_placed b.14) i;
        part1_dirty = true;
      }

length-joined : (l : List (List ℕ)) → length (joined l) ≡ before l (length l)
length-joined [] = refl
length-joined (s ∷ l) = omega (arith, length-append s (joined l), length-joined l)

pub length-part1 : (v : Vga) → Storable v → length (joined (part1_fields v)) ≡ part1_size
unfolding part1_fields
length-part1 v h = length-joined (part1_fields v) ∙ (begins v h).18

-- `read_vga`, given the records that `dump_vga` makes of a device whose arrays have their sizes and
-- whose fields fit their C types, gives any device the fields of that device: the first record all
-- but the palette, with the first 8 of `sr` and the first 16 of `gr`, the second the palette. It sets
-- the dirty flag of each.
pub read_vga-dump_vga :
    (v w : Vga)
    → Storable v
    → (read_vga (part1_record v) w ≡ some (with_part1 v w))
      × (read_vga (part2_record v) w ≡ some (record w { palette = v.palette; part2_dirty = true }))
unfolding read_vga part1_record part2_record
read_vga-dump_vga v w h = (
  ap some (from_record v h w),
  ap (λ (t : List ℕ). some (record w { palette = t; part2_dirty = true }))
      (ap (take 768) (sym (append-nil v.palette))
        ∙ take-append 768 v.palette [] h.sized.palette_size),
)
