-- ===== src/Restore/Whole.antt =====
-- Restores of demu.c from streams that it wrote, and from any bytes.
use citrix_vgpu.Prelude.{
  ℕ, zero, suc, ◌≡◌, ◌<◌, refl, ap, ◌∙◌, Bool, List, [], ◌∷◌, ◌++◌, length, arith,
}
use mathlib.Core.List.{append_assoc}
use citrix_vgpu.Stream.{Kernel, Record, got, read_record, record_bytes, footer}
use citrix_vgpu.Stream.Read.{NoError}
use citrix_vgpu.Stream.Records.{IsRecord, filler, read_record-record_bytes}
use citrix_vgpu.Restore.{Device, go_on, process_record, success, readstate}

-- A record as `read_record` gives it
abbrev pub as_read : Record → Record
as_read r = record { header = r.header; payload = r.payload ++ filler r }

-- The bytes of a list of records
abbrev pub written : List Record → List ℕ
written [] = []
written (r ∷ l) = record_bytes r ++ written l

-- The records of a list, handled in their order, and whether all are valid and none fails
abbrev pub handle_all : (List ℕ → Bool) → List Record → Device → Device
handle_all plugin_ok [] d = d
handle_all plugin_ok (r ∷ l) d = handle_all plugin_ok l (process_record plugin_ok (as_read r) d).0

abbrev pub AllHandled : (List ℕ → Bool) → List Record → Device → Type 0
AllHandled plugin_ok [] d = Unit
AllHandled plugin_ok (r ∷ l) d =
    IsRecord r
    × ((process_record plugin_ok (as_read r) d).1 ≡ go_on)
    × AllHandled plugin_ok l (process_record plugin_ok (as_read r) d).0

footer-IsRecord : IsRecord footer
footer-IsRecord = record {
  fits = record { type_in = omega arith; stype_in = omega arith; len_in = omega arith };
  size = refl;
  in_buffer = omega arith;
}

on_got :
    (kernel : Kernel) (plugin_ok : List ℕ → Bool) (fuel : ℕ) (bytes left : List ℕ) (r : Record)
    (d : Device)
    → read_record kernel bytes ≡ got r left
    → (process_record plugin_ok r d).1 ≡ go_on
    → readstate kernel plugin_ok (suc fuel) bytes d
      ≡ readstate kernel plugin_ok fuel left (process_record plugin_ok r d).0
unfolding readstate
on_got kernel plugin_ok fuel bytes left r d e go = ground arith

on_close :
    (kernel : Kernel) (plugin_ok : List ℕ → Bool) (fuel : ℕ) (bytes left : List ℕ) (d : Device)
    → read_record kernel bytes ≡ got (as_read footer) left
    → readstate kernel plugin_ok (suc fuel) bytes d ≡ (d, success)
unfolding readstate process_record
on_close kernel plugin_ok fuel bytes left d e = ground arith

-- If `read` returns no error, however it cuts the stream, `readstate` of a list of valid records
-- that the handlers accept, closed by the record of `write_footer`, handles these records in their
-- order, each once, and succeeds, whatever follows.
pub readstate-written :
    (kernel : Kernel) (plugin_ok : List ℕ → Bool) (l : List Record) (rest : List ℕ) (fuel : ℕ)
    (d : Device)
    → NoError kernel
    → AllHandled plugin_ok l d
    → length l < fuel
    → readstate kernel plugin_ok fuel (written l ++ (record_bytes footer ++ rest)) d
      ≡ (handle_all plugin_ok l d, success)
readstate-written kernel plugin_ok [] rest zero d h a f = absurd (omega arith)
readstate-written kernel plugin_ok (r ∷ l) rest zero d h a f = absurd (omega arith)
readstate-written kernel plugin_ok [] rest (suc fuel) d h a f =
    on_close kernel plugin_ok fuel (record_bytes footer ++ rest) rest d
      (read_record-record_bytes kernel footer rest h footer-IsRecord)
readstate-written kernel plugin_ok (r ∷ l) rest (suc fuel) d h (v, go, more) f =
    let later : List ℕ = written l ++ (record_bytes footer ++ rest) in
    ap (λ (t : List ℕ). readstate kernel plugin_ok (suc fuel) t d)
      (append_assoc (record_bytes r) (written l) (record_bytes footer ++ rest))
    ∙ on_got kernel plugin_ok fuel (record_bytes r ++ later) later (as_read r) d
        (read_record-record_bytes kernel r later h v) go
    ∙ readstate-written kernel plugin_ok l rest fuel (process_record plugin_ok (as_read r) d).0 h
        more (omega arith)
