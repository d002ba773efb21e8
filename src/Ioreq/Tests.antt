-- ===== src/Ioreq/Tests.antt =====
-- The requests of a guest on concrete inputs.
use citrix_vgpu.Prelude.{
  ℕ, ◌≡◌, ◌+◌, ◌-◌, ◌^◌, ◌==◌, refl, arith, true, false, Option, some, none, List, [], ◌∷◌,
  if◌then◌else◌,
}
use citrix_vgpu.Space.{Space, demu_find_space}
use citrix_vgpu.Registry.{Demu, demu_find_memory_space}
use citrix_vgpu.Io.{IoOps, demu_io_write, io_write_loop}
use citrix_vgpu.Mapcache.{at_start}
use citrix_vgpu.Ioreq.{Request, RequestType, Machine, demu_handle_ioreq}
use citrix_vgpu.Ioreq.Ring.{Slot, demu_poll_buffered_iopage, next_request, request_of}
use citrix_vgpu.Ioreq.Ring.Order.{demu_poll_buffered_iopage_lem, Holds, Batches}
use citrix_vgpu.Ioreq.Address.{demu_handle_ioreq-addresses}

-- A ring of 8 slots, with an 8-byte request that runs over its end and a 4-byte one behind it
abbrev slot : ℕ → Slot
slot n =
    if n == 7
    then record { size = 3; addr = 160; payload = 5; is_read = false; type = RequestType.copy }
    else if n == 0
    then record { size = 3; addr = 160; payload = 1; is_read = false; type = RequestType.copy }
    else record { size = 2; addr = 200; payload = 9; is_read = false; type = RequestType.pio }

abbrev first : Request
first = record {
  addr = 160;
  payload = 2 ^ 32 + 5;
  count = 1;
  size = 8;
  is_read = false;
  df = true;
  data_is_ptr = false;
  type = RequestType.copy;
}

abbrev second : Request
second = record {
  addr = 200;
  payload = 9;
  count = 1;
  size = 4;
  is_read = false;
  df = true;
  data_is_ptr = false;
  type = RequestType.pio;
}

-- Keeps the data of the requests, the last first
abbrev keep : Request → List ℕ → Option (List ℕ)
keep r l = some (r.payload ∷ l)

held : Holds 8 slot 10 7 (first ∷ second ∷ [])
unfolding next_request request_of
held =
    Holds.two_slots 7 (second ∷ []) (omega arith) refl
      (Holds.one_slot 9 [] (omega arith) (omega arith) Holds.empty)

demu_poll_buffered_iopage_lem_example :
    demu_poll_buffered_iopage keep 8 5 ((10, slot) ∷ (10, slot) ∷ []) 7 []
    ≡ some (10, 9 ∷ (2 ^ 32 + 5) ∷ [])
demu_poll_buffered_iopage_lem_example =
    demu_poll_buffered_iopage_lem keep 8 5 ((10, slot) ∷ (10, slot) ∷ []) 7 10 (first ∷ second ∷ [])
      []
      (Batches.batch 7 10 10 slot ((10, slot) ∷ []) (first ∷ second ∷ []) [] (first ∷ second ∷ [])
        (omega arith) held (Batches.caught_up 10 10 slot [] refl) refl)
      (omega arith)

-- Records the address of each write of 4 bytes, the last first.
abbrev recorder : IoOps (List ℕ)
recorder = record {
  readb = none;
  readw = none;
  readl = none;
  writeb = none;
  writew = none;
  writel = some (λ a x l. some (a ∷ l));
}

abbrev frame_buffer : Space (IoOps (List ℕ))
frame_buffer = record { start = 0; end = 2 ^ 40; ops = recorder; io_init = true }

abbrev devices : Demu (IoOps (List ℕ))
devices = record {
  memory = frame_buffer ∷ [];
  port = [];
  pci_config = [];
  io_up = true;
  bus = 0;
  device = 0;
  function = 0;
  calls = [];
}

-- Two units of 4 bytes, downwards
abbrev downwards : Request
downwards = record {
  addr = 4096;
  payload = 7;
  count = 2;
  size = 4;
  is_read = false;
  df = true;
  data_is_ptr = false;
  type = RequestType.copy;
}

abbrev machine : List ℕ → Machine (List ℕ)
machine l = record { dev = l; memory = record { cache = at_start; byte = λ a. 0; modified = [] } }

demu_handle_ioreq-addresses_example :
    demu_handle_ioreq (λ pfn. none) devices downwards (machine [])
    ≡ some (record downwards { addr = 2 ^ 33 + 4096 - 8 }, machine ((2 ^ 32 + 4092) ∷ 4096 ∷ []))
unfolding demu_find_memory_space demu_find_space demu_io_write io_write_loop
demu_handle_ioreq-addresses_example =
    demu_handle_ioreq-addresses (λ pfn. none) devices frame_buffer downwards (machine []) refl refl
      refl refl (omega arith) (omega arith) (omega arith)
