-- ===== src/Stream/Dump/Phase.antt =====
-- The calls of `do_vmiop_dump` of demu.c in one phase of a migration.
use citrix_vgpu.Prelude.{
  ℕ, ◌+◌, ◌%◌, ◌^◌, ◌≡◌, refl, false, true, List, [], ◌∷◌, length, arith, ap, ◌∙◌, Option, none,
  some,
}
use citrix_vgpu.Statefile.{Rc, null}
use citrix_vgpu.Stream.{Record}
use citrix_vgpu.Stream.Dump.{Stats, given, plugin_record, count_sent, do_vmiop_dump, finish_phase}

-- A piece of data of the plugin, which is not empty, and how much is left then
abbrev pub Chunk : Type 0
Chunk = ℕ × List ℕ × ℕ

abbrev pub chunk_bytes : Chunk → List ℕ
chunk_bytes (b, l, left) = b ∷ l

abbrev pub chunk_left : Chunk → ℕ
chunk_left (b, l, left) = left

abbrev pub with_record : Option Record → List Record → List Record
with_record none l = l
with_record (some r) l = r ∷ l

-- The calls while the plugin gives data, and the one in which it gives none
unfoldable pub phase : List Chunk → ℕ → Stats → Stats × List Record × Rc
phase [] left s =
    let (s', r, rc) = do_vmiop_dump false true (given [] left) true s in (s', with_record r [], rc)
phase (c ∷ l) left s =
    let (s', r, rc) = do_vmiop_dump false true (given (chunk_bytes c) (chunk_left c)) true s in
    let (s'', rs, rc') = phase l left s' in (s'', with_record r rs, rc')

abbrev pub records_of : List Chunk → List Record
records_of [] = []
records_of (c ∷ l) = plugin_record (chunk_bytes c) ∷ records_of l

abbrev pub bytes_of : List Chunk → ℕ
bytes_of [] = 0
bytes_of (c ∷ l) = length (chunk_bytes c) + bytes_of l

sent-count_sent : (n left : ℕ) (s : Stats) → (count_sent n left s).sent ≡ (s.sent + n) % 2 ^ 64
unfolding count_sent
sent-count_sent n left s = ground arith

finish_phase-count_sent :
    (left : ℕ) (s : Stats)
    → finish_phase (count_sent 0 left s) ≡ record {
      sent = (s.sent + 0) % 2 ^ 64;
      remaining = left;
      total_sent = 0;
      times_sent = 0;
      rtotal_sent = 0;
      rtimes_sent = 0;
    }
unfolding count_sent
finish_phase-count_sent left s = ground arith

-- A phase sends one record for each piece of the plugin's data, in order, and no other; the last call
-- returns 0 and clears the counters of the phase. `sent` has grown by the bytes of all the pieces,
-- modulo 2^64, and `remaining` is what the plugin said last.
pub phase_lem :
    (l : List Chunk) (left : ℕ) (s : Stats)
    → ((phase l left s).1 ≡ records_of l)
      × ((phase l left s).2 ≡ null)
      × ((phase l left s).0 ≡ record {
        sent = (s.sent + bytes_of l) % 2 ^ 64;
        remaining = left;
        total_sent = 0;
        times_sent = 0;
        rtotal_sent = 0;
        rtimes_sent = 0;
      })
unfolding phase do_vmiop_dump
phase_lem [] left s = (refl, refl, finish_phase-count_sent left s)
phase_lem ((b, bytes, more) ∷ l) left s =
    let s' : Stats = count_sent (length (b ∷ bytes)) more s in
    let (r, rc, ih) = phase_lem l left s' in
    let one = sent-count_sent (length (b ∷ bytes)) more s in
    (ap (λ (t : List Record). plugin_record (b ∷ bytes) ∷ t) r, rc, ih ∙ ground arith)
