-- ===== src/Vga/State.antt =====
-- `dump_vga` and `read_vga` of device.c: the device in two records of the migration stream.
--
-- The first record holds four runs of consecutive fields of `vga_t`, which is packed; a field stands at
-- the same place in every record. `sr` and `gr` are cut to the registers that exist.
pub mod RoundTrip
pub mod Tests
use citrix_vgpu.Prelude.{
  ℕ, ◌+◌, ◌*◌, ◌/◌, ◌%◌, Bool, true, false, Option, none, some, List, [], ◌∷◌, ◌++◌, take, drop,
  get_or, ◌==◌, if◌then◌else◌,
}
use citrix_vgpu.Stream.{Header, Record, bytes_le, value_le}
use citrix_vgpu.Vga.{Vga}

abbrev pub joined : List (List ℕ) → List ℕ
joined [] = []
joined (s ∷ l) = s ++ joined l

-- An array of `uint16_t` in memory
abbrev pub words_le : List ℕ → List ℕ
words_le [] = []
words_le (x ∷ l) = bytes_le 2 x ++ words_le l

-- `struct VGA_1_s1` to `struct VGA_1_s4`, field by field
unfoldable pub part1_fields : Vga → List (List ℕ)
part1_fields v =
    bytes_le 4 v.latch
    ∷ (v.sr_index ∷ [])
    ∷ take 8 v.sr
    ∷ (v.gr_index ∷ [])
    ∷ take 16 v.gr
    ∷ (v.ar_index ∷ [])
    ∷ v.ar
    ∷ bytes_le 4 v.ar_flip_flop
    ∷ (v.cr_index ∷ [])
    ∷ v.cr
    ∷ (v.msr ∷ v.fcr ∷ v.st00 ∷ v.st01 ∷ [])
    ∷ (v.dac_state ∷ v.dac_sub_index ∷ v.dac_read_index ∷ v.dac_write_index ∷ [])
    ∷ v.dac_cache
    ∷ bytes_le 4 v.bank_offset
    ∷ bytes_le 2 v.vbe_index
    ∷ words_le v.vbe_regs
    ∷ bytes_le 4 v.vbe_start_addr
    ∷ bytes_le 4 v.vbe_line_offset
    ∷ bytes_le 4 v.vbe_bank_mask
    ∷ []

-- VGA_1_s_all_size
abbrev pub part1_size : ℕ
part1_size = 368

-- demu_state_vga
abbrev pub state_vga : ℕ
state_vga = 2

unfoldable pub part1_record : Vga → Record
part1_record v = record {
  header = record { type = state_vga; stype = 1; len = part1_size };
  payload = joined (part1_fields v);
}

unfoldable pub part2_record : Vga → Record
part2_record v = record {
  header = record { type = state_vga; stype = 2; len = 768 };
  payload = v.palette;
}

-- What `malloc` and `write_record` answer for one part
pub record Sending : Type 0 where
  pub malloc_ok : Bool
  pub write_ok : Bool

-- The second half of `dump_vga`: the device, the records written, and whether it returns no error
unfoldable pub dump_part2 : Sending → Vga → Vga × List Record × Bool
dump_part2 s v =
    if v.part2_dirty
    then (if s.malloc_ok
        then (record v { part2_dirty = false }, part2_record v ∷ [], s.write_ok)
        else (v, [], false))
    else (v, [], true)

unfoldable pub dump_vga : Sending → Sending → Vga → Vga × List Record × Bool
dump_vga s1 s2 v =
    if v.part1_dirty
    then (if s1.malloc_ok
        then (let cleared = record v { part1_dirty = false } in
            let (v', l, done) = dump_part2 s2 cleared in
            if s1.write_ok
            then (v', part1_record v ∷ l, done)
            else (cleared, part1_record v ∷ [], false))
        else (v, [], false))
    else dump_part2 s2 v

-- `n` bytes of the record from byte `at` on
abbrev pub field : ℕ → ℕ → List ℕ → List ℕ
field at n l = take n (drop at l)

abbrev pub number : ℕ → ℕ → List ℕ → ℕ
number at n l = value_le (field at n l)

-- `n` words of 16 bits
abbrev pub some_words : ℕ → List ℕ → List ℕ
some_words ℕ.zero l = []
some_words (ℕ.suc n) l = value_le (take 2 l) ∷ some_words n (drop 2 l)

-- The four `memcpy` of the first record
unfoldable pub read_part1 : List ℕ → Vga → Vga
read_part1 l v = record v {
  latch = number 0 4 l;
  sr_index = get_or (drop 4 l) 0 0;
  sr = field 5 8 l ++ drop 8 v.sr;
  gr_index = get_or (drop 13 l) 0 0;
  gr = field 14 16 l ++ drop 16 v.gr;
  ar_index = get_or (drop 30 l) 0 0;
  ar = field 31 21 l;
  ar_flip_flop = number 52 4 l;
  cr_index = get_or (drop 56 l) 0 0;
  cr = field 57 256 l;
  msr = get_or (drop 313 l) 0 0;
  fcr = get_or (drop 313 l) 1 0;
  st00 = get_or (drop 313 l) 2 0;
  st01 = get_or (drop 313 l) 3 0;
  dac_state = get_or (drop 317 l) 0 0;
  dac_sub_index = get_or (drop 317 l) 1 0;
  dac_read_index = get_or (drop 317 l) 2 0;
  dac_write_index = get_or (drop 317 l) 3 0;
  dac_cache = field 321 3 l;
  bank_offset = number 324 4 l;
  vbe_index = number 328 2 l;
  vbe_regs = some_words 13 (drop 330 l);
  vbe_start_addr = number 356 4 l;
  vbe_line_offset = number 360 4 l;
  vbe_bank_mask = number 364 4 l;
  part1_dirty = true;
}

-- `none` is a return of -1.
unfoldable pub read_vga : Record → Vga → Option Vga
read_vga r v =
    if r.header.type == state_vga
    then (if r.header.stype == 1
        then (if r.header.len == part1_size then some (read_part1 r.payload v) else none)
        else if r.header.stype == 2
        then (if r.header.len == 768
            then some (record v { palette = field 0 768 r.payload; part2_dirty = true })
            else none)
        else none)
    else none
