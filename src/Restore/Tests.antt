-- ===== src/Restore/Tests.antt =====
-- Restores from streams that are read by three bytes at most at a time.
use citrix_vgpu.Prelude.{
  ℕ, ◌≡◌, ◌≢◌, refl, arith, Bool, true, false, some, none, List, [], ◌∷◌, ◌++◌, set, replicate,
}
use citrix_vgpu.Statefile.{Statefile, Mode, Resuming, closestate}
use citrix_vgpu.Stream.{Kernel, record_bytes, footer, stream_header}
use citrix_vgpu.Stream.Read.{NoError}
use citrix_vgpu.Vga.State.Tests.{sized_device, other, other-Storable}
use citrix_vgpu.Restore.{Device, success, running, readstate, demu_get_state}
use citrix_vgpu.Restore.Whole.{written}
use citrix_vgpu.Restore.Ends.{readstate_ends}
use citrix_vgpu.Stream.Dump.{Stats}
use citrix_vgpu.Stream.Dump.Phase.{Chunk, phase}
use citrix_vgpu.Restore.Plugin.{readstate-phase}
use citrix_vgpu.Restore.Migrate.{vga_records, demu_get_state-dump_vga}

abbrev by_threes : Kernel
by_threes count left = some 2

by_threes-NoError : NoError by_threes
by_threes-NoError count left e = cc

abbrev accepts : List ℕ → Bool
accepts l = true

abbrev fresh : Device
fresh = record { vga = sized_device; state_dirty = true; plugin = [] }

readstate_ends_example : (readstate by_threes accepts 4 (1 ∷ 2 ∷ 3 ∷ []) fresh).1 ≢ running
readstate_ends_example = readstate_ends by_threes accepts 4 (1 ∷ 2 ∷ 3 ∷ []) fresh (omega arith)

-- The descriptor of the stream has come.
abbrev waiting : Statefile
waiting = record {
  mode = Mode.closed;
  fd = some 5;
  offset = none;
  migrate_abort = false;
  resuming = Resuming.resume_when_ready;
  state_dirty = true;
  vga_dirty = true;
  closed_fds = [];
}

demu_get_state-dump_vga_example :
    demu_get_state true by_threes accepts 3
      (stream_header ++ (written (vga_records other) ++ (record_bytes footer ++ [])))
      waiting
      fresh
    ≡ (
      record waiting {
        mode = Mode.not_ready;
        fd = none;
        resuming = Resuming.currently_resuming;
        closed_fds = 5 ∷ [];
      },
      record fresh {
        vga = record sized_device {
          msr = 0x67;
          palette = set (replicate 768 0) 5 63;
          part1_dirty = true;
          part2_dirty = true;
        };
      },
      success,
    )
unfolding closestate
demu_get_state-dump_vga_example =
    demu_get_state-dump_vga by_threes accepts other [] 3 5 waiting fresh by_threes-NoError
      other-Storable refl refl (omega arith)

-- Two pieces of data of the plugin
abbrev chunks : List Chunk
chunks = (1, 2 ∷ 3 ∷ [], 4) ∷ (9, [], 0) ∷ []

abbrev no_counts : Stats
no_counts = record {
  sent = 0;
  remaining = 0;
  total_sent = 0;
  times_sent = 0;
  rtotal_sent = 0;
  rtimes_sent = 0;
}

readstate-phase_example :
    readstate by_threes accepts 3
      (written (phase chunks 0 no_counts).1 ++ (record_bytes footer ++ []))
      fresh
    ≡ (record fresh { plugin = (1 ∷ 2 ∷ 3 ∷ []) ∷ (9 ∷ []) ∷ [] }, success)
readstate-phase_example =
    readstate-phase accepts by_threes chunks 0 3 no_counts [] fresh by_threes-NoError
      (omega arith, refl, (omega arith, refl, tt)) (omega arith)
