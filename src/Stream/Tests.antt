-- ===== src/Stream/Tests.antt =====
-- Streams that are read by three bytes at most at a time.
use citrix_vgpu.Prelude.{
  List, replicate, length, ◌<◌, false, ℕ, ◌≡◌, ◌↔◌, ◌^◌, ◌-◌, refl, arith, true, some, [], ◌∷◌,
  ◌++◌,
}
use citrix_vgpu.Stream.{
  Kernel, Header, Record, got, overrun, read_record, header_bytes, record_bytes,
}
use citrix_vgpu.Stream.Read.{NoError, Fits}
use citrix_vgpu.Stream.Records.{IsRecord, read_record-record_bytes, read_record-overrun_iff, Wraps}
use citrix_vgpu.Stream.Write.{
  submit, finish_current, written_to, write_at, Writer, Answer, do_write, do_writes,
}
use citrix_vgpu.Stream.Write.Flushed.{AtEnd, do_writes_flushed}

abbrev by_threes : Kernel
by_threes count left = some 2

by_threes-NoError : NoError by_threes
by_threes-NoError count left e = cc

-- A record of 5 bytes, which 3 bytes fill up
abbrev five : Record
five = record { header = record { type = 3; stype = 0; len = 5 }; payload = 1 ∷ 2 ∷ 3 ∷ 4 ∷ 5 ∷ [] }

five-IsRecord : IsRecord five
five-IsRecord = record {
  fits = record { type_in = omega arith; stype_in = omega arith; len_in = omega arith };
  size = refl;
  in_buffer = omega arith;
}

read_record-record_bytes_example :
    read_record by_threes (record_bytes five ++ 9 ∷ [])
    ≡ got
        (record { header = five.header; payload = five.payload ++ 0x50 ∷ 0x61 ∷ 0x64 ∷ [] })
        (9 ∷ [])
read_record-record_bytes_example =
    read_record-record_bytes by_threes five (9 ∷ []) by_threes-NoError five-IsRecord

abbrev huge : Header
huge = record { type = 3; stype = 0; len = 2 ^ 32 - 8 }

huge-Fits : Fits huge
huge-Fits = record { type_in = omega arith; stype_in = omega arith; len_in = omega arith }

abbrev many : List ℕ
many = replicate 9000 7

read_record-overrun_iff_example :
    (read_record by_threes (header_bytes huge ++ many) ≡ overrun)
    ↔ (Wraps (2 ^ 32 - 8) × (8184 < length (many)))
read_record-overrun_iff_example =
    read_record-overrun_iff by_threes huge (many) by_threes-NoError huge-Fits

-- Two writes to descriptor 7, and the flush
abbrev idle : Writer
idle = record {
  cb_fd = 0;
  cb_buf = [];
  cb_offset = 0;
  fd = 7;
  offset = some 0;
  migrate_abort = false;
  content = [];
}

abbrev wrote : ℕ → Answer
wrote n = record { suspend_ok = true; returned = some n; submit_ok = true }

abbrev second_submitted : Writer
second_submitted = record idle {
  cb_fd = 7;
  cb_buf = 3 ∷ [];
  cb_offset = 2;
  offset = some 3;
  content = 1 ∷ 2 ∷ [];
}

abbrev flushed : Writer
flushed = record second_submitted {
  cb_fd = 0;
  cb_buf = [];
  cb_offset = 0;
  content = 1 ∷ 2 ∷ 3 ∷ [];
}

idle-AtEnd : AtEnd idle
idle-AtEnd o e = (ground arith, λ z. absurd (omega (arith, z)))

do_writes_flushed_example : flushed.content ≡ 1 ∷ 2 ∷ 3 ∷ []
unfolding do_writes do_write finish_current submit written_to write_at
do_writes_flushed_example =
    do_writes_flushed ((wrote 0, 1 ∷ 2 ∷ []) ∷ (wrote 2, 3 ∷ []) ∷ []) (wrote 1) idle
      second_submitted flushed (omega arith) idle-AtEnd refl refl
