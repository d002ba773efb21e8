-- ===== src/Ioreq.antt =====
-- The requests of a guest that Xen forwards: `demu_handle_io`, `demu_handle_ioreq` and the polling of
-- the two pages of requests in demu.c.
--
-- `S` is the state that the callbacks of the spaces work on. `map_page` is what
-- `demu_map_guest_pages` returns for one page. `none` is a failed assertion, a call through NULL, or a
-- copy of more bytes than the variable `data` has. The fields of a request have the widths of Xen's
-- public header.
pub mod Guest
pub mod Ring
pub mod Poll
pub mod Address
mod Tests
use citrix_vgpu.Prelude.{
  ℕ, zero, suc, ◌+◌, ◌-◌, ◌*◌, ◌/◌, ◌%◌, ◌^◌, Bool, true, false, Option, none, some, if◌then◌else◌,
  ◌==◌, ltb, ◌>>=◌,
}
use citrix_vgpu.Space.{Space}
use citrix_vgpu.Registry.{
  Demu, demu_find_port_space, demu_find_memory_space, demu_find_pci_config_space,
}
use citrix_vgpu.Io.{IoOps, demu_io_read, demu_io_write}
use citrix_vgpu.Mapcache.{mapcache_invalidate}
use citrix_vgpu.Ioreq.Guest.{Memory, copy_to_guest, copy_from_guest}

-- `ioreq->type`
pub data RequestType : Type 0 where
  pio copy pci_config timeoffset invalidate unknown : RequestType

-- `ioreq_t`, less its state
pub record Request : Type 0 where
  pub addr : ℕ  -- uint64_t
  pub payload : ℕ  -- `data`, a uint64_t
  pub count : ℕ  -- uint32_t
  pub size : ℕ  -- uint32_t
  pub is_read : Bool  -- `dir` is IOREQ_READ
  pub df : Bool
  pub data_is_ptr : Bool
  pub type : RequestType

-- What a request changes besides itself
pub record Machine (S : Type 0) : Type 0 where
  pub dev : S
  pub memory : Memory

-- `sign * i * ioreq->size`: the product is a `uint32_t`.
abbrev pub offset : Bool → ℕ → ℕ → ℕ
offset df i size = if df then (2 ^ 32 - i * size % 2 ^ 32) % 2 ^ 32 else i * size % 2 ^ 32

-- `ioreq->addr += sign * ioreq->size`
abbrev pub step_addr : Bool → Request → Request
step_addr is_mmio r =
    if is_mmio then record r { addr = (r.addr + offset r.df 1 r.size) % 2 ^ 64 } else r

-- `ioreq->data + (sign * i * ioreq->size)`
abbrev pub data_addr : ℕ → Request → ℕ
data_addr i r = (r.payload + offset r.df i r.size) % 2 ^ 64

module _ {S : Type 0} (map_page : ℕ → Option ℕ) where
  -- One round of the loop of a read
  unfoldable pub read_round :
      IoOps S → Bool → ℕ → Request → Machine S → Option (Request × Machine S)
  read_round ops is_mmio i r m = demu_io_read ops r.addr r.size m.dev >>= λ (x, dev).
      if r.data_is_ptr
      then (copy_to_guest map_page (data_addr i r) r.size x m.memory >>= λ memory.
          some (step_addr is_mmio r, record { dev = dev; memory = memory }))
      else some
          (step_addr is_mmio (record r { payload = x }), record { dev = dev; memory = m.memory })

  -- One round of the loop of a write
  unfoldable pub write_round :
      IoOps S → Bool → ℕ → Request → Machine S → Option (Request × Machine S)
  write_round ops is_mmio i r m =
      if r.data_is_ptr
      then (do
        (x, memory) ← copy_from_guest map_page (data_addr i r) r.size m.memory
        dev ← demu_io_write ops r.addr r.size x m.dev
        some (step_addr is_mmio r, record { dev = dev; memory = memory }))
      else do
        dev ← demu_io_write ops r.addr r.size r.payload m.dev
        some (step_addr is_mmio r, record { dev = dev; memory = m.memory })

  -- The loop from round `i` on, with the rounds left
  unfoldable pub rounds :
      IoOps S → Bool → ℕ → ℕ → Request → Machine S → Option (Request × Machine S)
  rounds ops is_mmio zero i r m = some (r, m)
  rounds ops is_mmio (suc n) i r m =
      elim (if r.is_read then read_round ops is_mmio i r m else write_round ops is_mmio i r m) [
        | none ↦ none
        | some (r', m') ↦ rounds ops is_mmio n (suc i) r' m'
      ]

  unfoldable pub demu_handle_io :
      Option (Space (IoOps S)) → Request → Bool → Machine S → Option (Request × Machine S)
  demu_handle_io none r is_mmio m = some (r, m)
  demu_handle_io (some space) r is_mmio m = rounds space.ops is_mmio r.count 0 r m

  unfoldable pub demu_handle_ioreq :
      Demu (IoOps S) → Request → Machine S → Option (Request × Machine S)
  demu_handle_ioreq d r m = elim r.type [
    | pio ↦ demu_handle_io (demu_find_port_space d r.addr) r false m
    | copy ↦ demu_handle_io (demu_find_memory_space d r.addr) r true m
    | pci_config ↦
        demu_handle_io (demu_find_pci_config_space d (r.addr / 2 ^ 32))
          (record r { addr = r.addr % 2 ^ 32 }) false m
    | timeoffset ↦ some (r, m)
    | invalidate ↦
        some
          (r, record m { memory = record m.memory { cache = mapcache_invalidate m.memory.cache } })
    | unknown ↦ some (r, m)
  ]

-- STATE_IOREQ_READY, STATE_IOREQ_INPROCESS, STATE_IORESP_READY, STATE_IOREQ_NONE
pub data SlotState : Type 0 where
  ready in_process response_ready unused : SlotState

-- `vcpu_ioreq[i]`
pub record Vcpu : Type 0 where
  pub request : Request
  pub state : SlotState

abbrev pub is_ready : SlotState → Bool
is_ready ready = true
is_ready _ = false

-- `demu_poll_shared_iopage`: the slot, the machine, and whether Xen is notified
module _ {S : Type 0} (map_page : ℕ → Option ℕ) where
  unfoldable pub demu_poll_shared_iopage :
      Demu (IoOps S) → Vcpu → Machine S → Option (Vcpu × Machine S × Bool)
  demu_poll_shared_iopage d u m =
      if is_ready u.state
      then (demu_handle_ioreq map_page d u.request m >>= λ (r, m').
          some (record { request = r; state = response_ready }, m', true))
      else some (u, m, false)
