-- ===== src/Restore/Plugin.antt =====
-- The data of the plugin sent by `do_vmiop_dump` of demu.c and taken by `read_vmiope`.
use citrix_vgpu.Prelude.{
  sym, leb, length-append, ◌%◌, ◌^◌, suc, ℕ, ◌≡◌, ◌≤◌, ◌<◌, refl, ap, ◌∙◌, Bool, true, List, [],
  ◌∷◌, ◌++◌, length, take, arith, take-length-append,
}
use mathlib.Core.List.{append_assoc, append-nil}
use citrix_vgpu.Stream.{Kernel, Record, record_bytes, footer}
use citrix_vgpu.Stream.Read.{NoError}
use citrix_vgpu.Stream.Records.{IsRecord, filler}
use citrix_vgpu.Stream.Dump.{Stats, plugin_record}
use citrix_vgpu.Stream.Dump.Phase.{Chunk, chunk_bytes, records_of, phase, phase_lem}
use citrix_vgpu.Restore.{Device, Processed, go_on, success, process_record, read_vmiope, readstate}
use citrix_vgpu.Restore.Whole.{as_read, written, handle_all, AllHandled, readstate-written}

-- The pieces as the plugin gets them
abbrev pub pieces : List Chunk → List (List ℕ)
pieces [] = []
pieces (c ∷ l) = chunk_bytes c ∷ pieces l

-- Each piece fits the buffer, as the plugin was told, and is accepted on the other side.
abbrev pub AllTaken : (List ℕ → Bool) → List Chunk → Type 0
AllTaken plugin_ok [] = Unit
AllTaken plugin_ok (c ∷ l) =
    (length (chunk_bytes c) ≤ 8184) × (plugin_ok (chunk_bytes c) ≡ true) × AllTaken plugin_ok l

length-records_of : (l : List Chunk) → length (records_of l) ≡ length l
length-records_of [] = refl
length-records_of (c ∷ l) = ap suc (length-records_of l)

module _ (plugin_ok : List ℕ → Bool) where
  plugin_record-IsRecord : (bytes : List ℕ) → length bytes ≤ 8184 → IsRecord (plugin_record bytes)
  unfolding plugin_record
  plugin_record-IsRecord bytes h = record {
    fits = record { type_in = omega arith; stype_in = omega arith; len_in = omega arith };
    size = omega arith;
    in_buffer = omega arith;
  }

  process_plugin_record :
      (bytes : List ℕ) (d : Device)
      → length bytes ≤ 8184
      → plugin_ok bytes ≡ true
      → process_record plugin_ok (as_read (plugin_record bytes)) d
        ≡ (record d { plugin = d.plugin ++ (bytes ∷ []) }, go_on)
  unfolding process_record read_vmiope plugin_record
  process_plugin_record bytes d h ok =
      let more : List ℕ = filler (plugin_record bytes) in
      let small : length bytes % 2 ^ 32 ≡ length bytes = omega arith in
      let taken : take (length bytes % 2 ^ 32) (bytes ++ more) ≡ bytes =
        ap (λ (t : ℕ). take t (bytes ++ more)) small ∙ take-length-append bytes more in
      let enough : leb (length bytes % 2 ^ 32) (length (bytes ++ more)) ≡ true =
        ground (arith, length-append bytes more) in
      rw enough (rw taken (rw ok refl))

  pieces_handled :
      (l : List Chunk) (d : Device)
      → AllTaken plugin_ok l
      → AllHandled plugin_ok (records_of l) d
        × (handle_all plugin_ok (records_of l) d ≡ record d { plugin = d.plugin ++ pieces l })
  pieces_handled [] d h =
      (tt, ap (λ (t : List (List ℕ)). record d { plugin = t }) (sym (append-nil d.plugin)))
  pieces_handled (c ∷ l) d (fits, ok, h) =
      let p = process_plugin_record (chunk_bytes c) d fits ok in
      let d' : Device = (process_record plugin_ok (as_read (plugin_record (chunk_bytes c))) d).0 in
      let (all, left) = pieces_handled l d' h in
      (
        (plugin_record-IsRecord (chunk_bytes c) fits, ap (λ (t : Device × Processed). t.1) p, all),
        left
            ∙ ap (λ (t : Device × Processed). record t.0 { plugin = t.0.plugin ++ pieces l }) p
            ∙ ap (λ (t : List (List ℕ)). record d { plugin = t })
                (append_assoc d.plugin (chunk_bytes c ∷ []) (pieces l)),
      )

  -- If `read` returns no error, the records of a phase, closed by the record of `write_footer`, are
  -- restored with success: the plugin is given exactly the pieces of data that the plugin on the other
  -- side gave, in their order, and nothing else changes. Each piece is one that fits MAX_REC_DATA_SIZE
  -- and that the plugin accepts.
  pub readstate-phase :
      (kernel : Kernel) (l : List Chunk) (left fuel : ℕ) (s : Stats) (rest : List ℕ) (d : Device)
      → NoError kernel
      → AllTaken plugin_ok l
      → length l < fuel
      → readstate kernel plugin_ok fuel
          (written (phase l left s).1 ++ (record_bytes footer ++ rest))
          d
        ≡ (record d { plugin = d.plugin ++ pieces l }, success)
  readstate-phase kernel l left fuel s rest d e h f =
      let (handled, result) = pieces_handled l d h in
      ap
        (λ (t : List Record).
          readstate kernel plugin_ok fuel (written t ++ (record_bytes footer ++ rest)) d)
        (phase_lem l left s).0
      ∙ readstate-written kernel plugin_ok (records_of l) rest fuel d e handled
          (omega (arith, length-records_of l))
      ∙ ap (λ (t : Device). (t, success)) result
