-- ===== src/Restore/Migrate.antt =====
-- The VGA device of device.c sent through the stream of demu.c: `demu_send_state` on one side,
-- `demu_get_state` on the other.
use citrix_vgpu.Prelude.{
  ℕ, ◌^◌, ◌≡◌, ◌<◌, refl, ap, ◌∙◌, Bool, true, List, [], ◌∷◌, ◌++◌, arith, some,
}
use mathlib.Core.List.{append_assoc, append-nil}
use citrix_vgpu.Statefile.{Statefile, is_closed, r_opened, currently_resuming, closestate}
use citrix_vgpu.Stream.{
  Kernel, Record, record_bytes, footer, stream_header, bytes_le, read_number, demu_ident,
  demu_read_header,
}
use citrix_vgpu.Stream.Bytes.{length-bytes_le, value_le-bytes_le}
use citrix_vgpu.Stream.Read.{NoError, do_read-append}
use citrix_vgpu.Stream.Records.{IsRecord}
use citrix_vgpu.Vga.{Vga}
use citrix_vgpu.Vga.State.{read_vga, state_vga, part1_record, part2_record}
use citrix_vgpu.Vga.State.RoundTrip.{Storable, with_part1, read_vga-dump_vga, length-part1}
use citrix_vgpu.Restore.{Device, Processed, go_on, success, process_record, demu_get_state}
use citrix_vgpu.Restore.Whole.{as_read, written, handle_all, AllHandled, readstate-written}

-- The two records of a device
abbrev pub vga_records : Vga → List Record
vga_records v = part1_record v ∷ part2_record v ∷ []

-- The device `w` with the state of `v` that the stream has
abbrev pub restored : Vga → Vga → Vga
restored v w = record (with_part1 v w) { palette = v.palette; part2_dirty = true }

part1-IsRecord : (v : Vga) → Storable v → IsRecord (part1_record v)
unfolding part1_record
part1-IsRecord v h = record {
  fits = record { type_in = omega arith; stype_in = omega arith; len_in = omega arith };
  size = length-part1 v h;
  in_buffer = omega arith;
}

part2-IsRecord : (v : Vga) → Storable v → IsRecord (part2_record v)
unfolding part2_record
part2-IsRecord v h = record {
  fits = record { type_in = omega arith; stype_in = omega arith; len_in = omega arith };
  size = h.sized.palette_size;
  in_buffer = omega arith;
}

as_read-part1 : (v : Vga) → as_read (part1_record v) ≡ part1_record v
unfolding part1_record
as_read-part1 v =
    ap (λ (t : List ℕ). record (part1_record v) { payload = t })
      (append-nil (part1_record v).payload)

as_read-part2 : (v : Vga) → as_read (part2_record v) ≡ part2_record v
unfolding part2_record
as_read-part2 v =
    ap (λ (t : List ℕ). record (part2_record v) { payload = t }) (append-nil v.palette)

processed :
    (plugin_ok : List ℕ → Bool) (r : Record) (v : Vga) (d : Device)
    → r.header.type ≡ state_vga
    → read_vga r d.vga ≡ some v
    → process_record plugin_ok r d ≡ (record d { vga = v }, go_on)
unfolding process_record
processed plugin_ok r v d t e = ground arith

process_part1 :
    (plugin_ok : List ℕ → Bool) (v : Vga) (d : Device)
    → Storable v
    → process_record plugin_ok (as_read (part1_record v)) d
      ≡ (record d { vga = with_part1 v d.vga }, go_on)
unfolding part1_record
process_part1 plugin_ok v d h =
    ap (λ (t : Record). process_record plugin_ok t d) (as_read-part1 v)
    ∙ processed plugin_ok (part1_record v) (with_part1 v d.vga) d refl
        (read_vga-dump_vga v d.vga h).0

process_part2 :
    (plugin_ok : List ℕ → Bool) (v : Vga) (d : Device)
    → Storable v
    → process_record plugin_ok (as_read (part2_record v)) d
      ≡ (record d { vga = record d.vga { palette = v.palette; part2_dirty = true } }, go_on)
unfolding part2_record
process_part2 plugin_ok v d h =
    ap (λ (t : Record). process_record plugin_ok t d) (as_read-part2 v)
    ∙ processed plugin_ok (part2_record v)
        (record d.vga { palette = v.palette; part2_dirty = true }) d refl
        (read_vga-dump_vga v d.vga h).1

-- The records of a device are valid, are handled, and leave the restored device.
records_handled :
    (plugin_ok : List ℕ → Bool) (v : Vga) (d : Device)
    → Storable v
    → AllHandled plugin_ok (vga_records v) d
      × (handle_all plugin_ok (vga_records v) d ≡ record d { vga = restored v d.vga })
records_handled plugin_ok v d h =
    let p1 = process_part1 plugin_ok v d h in
    let d1 : Device = (process_record plugin_ok (as_read (part1_record v)) d).0 in
    let p2 = process_part2 plugin_ok v d1 h in
    (
      (
        part1-IsRecord v h,
        ap (λ (t : Device × Processed). t.1) p1,
        (part2-IsRecord v h, ap (λ (t : Device × Processed). t.1) p2, tt),
      ),
      ap (λ (t : Device × Processed). t.0) p2
          ∙ ap
              (λ (t : Device × Processed). record t.0 {
                vga = record t.0.vga { palette = v.palette; part2_dirty = true };
              })
              p1,
    )

read_number-append :
    (kernel : Kernel) (n x : ℕ) (rest : List ℕ)
    → NoError kernel
    → x < 256 ^ n
    → read_number kernel n (bytes_le n x ++ rest) ≡ some (x, rest)
read_number-append kernel n x rest e h = ground (
  arith,
  do_read-append kernel n (bytes_le n x) rest e (length-bytes_le n x),
  value_le-bytes_le n x h,
)

demu_read_header-stream_header :
    (kernel : Kernel) (rest : List ℕ) (s : Statefile)
    → NoError kernel
    → is_closed s.mode ≡ true
    → demu_read_header kernel (stream_header ++ rest) s ≡ some (record s { mode = r_opened }, rest)
unfolding demu_read_header stream_header
demu_read_header-stream_header kernel rest s e m =
    let a : List ℕ = bytes_le 8 demu_ident in
    let b : List ℕ = bytes_le 4 1 in
    let c : List ℕ = bytes_le 4 0 in
    ap (λ (t : List ℕ). demu_read_header kernel t s)
      (append_assoc (a ++ b) c rest ∙ append_assoc a b (c ++ rest))
    ∙ ground (
      arith,
      read_number-append kernel 8 demu_ident (b ++ (c ++ rest)) e (omega arith),
      read_number-append kernel 4 1 (c ++ rest) e (omega arith),
      read_number-append kernel 4 0 rest e (omega arith),
    )

-- If `read` returns no error, a program that was initialised for a migration, has the descriptor and
-- was told to resume, and that receives the stream of `write_header`, of the two records that
-- `dump_vga` makes of a device, and of the closing record, restores it with success, whatever
-- follows: its device has the fields that the records hold, the palette and the VBE registers of the
-- device that was sent, what it has of the plugin is unchanged, and the stream is closed.
pub demu_get_state-dump_vga :
    (kernel : Kernel) (plugin_ok : List ℕ → Bool) (v : Vga) (rest : List ℕ) (fuel fd : ℕ)
    (s : Statefile) (d : Device)
    → NoError kernel
    → Storable v
    → s.fd ≡ some fd
    → is_closed s.mode ≡ true
    → 2 < fuel
    → demu_get_state true kernel plugin_ok fuel
        (stream_header ++ (written (vga_records v) ++ (record_bytes footer ++ rest)))
        s
        d
      ≡ (
        closestate (record s { resuming = currently_resuming; mode = r_opened }),
        record d { vga = restored v d.vga },
        success,
      )
unfolding demu_get_state
demu_get_state-dump_vga kernel plugin_ok v rest fuel fd s d e h f m n =
    let later : List ℕ = written (vga_records v) ++ (record_bytes footer ++ rest) in
    let resuming : Statefile = record s { resuming = currently_resuming } in
    let (handled, left) = records_handled plugin_ok v d h in
    let header = demu_read_header-stream_header kernel later resuming e m in
    let ends = readstate-written kernel plugin_ok (vga_records v) rest fuel d e handled n in
    ground arith
