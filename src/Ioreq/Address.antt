-- ===== src/Ioreq/Address.antt =====
-- The addresses that `demu_handle_io` of demu.c gives to the callbacks for a request of several units.
use citrix_vgpu.Prelude.{
  ap, ◌∙◌, if◌then◌else◌, ◌-◌, ◌<◌, inr, inl, Option-cases, ℕ, zero, suc, ◌+◌, ◌*◌, ◌%◌, ◌^◌, ◌≡◌,
  Option, some, List, [], ◌∷◌, ◌>>=◌, arith,
}
use citrix_vgpu.Ioreq.{
  copy, demu_find_memory_space, Space, Demu, demu_handle_io, demu_handle_ioreq, step_addr, offset,
  true, false, write_round, rounds, demu_io_write, IoOps, Request, Machine,
}

-- The addresses of `n` units, the first at `a`, each `off` above the one before
abbrev pub addresses : ℕ → ℕ → ℕ → List ℕ
addresses a off zero = []
addresses a off (suc n) = a % 2 ^ 64 ∷ addresses (a + off) off n

module _ {S : Type 0} (ops : IoOps S) (size x : ℕ) where
  -- The same value written at each address
  abbrev pub write_each : List ℕ → S → Option S
  write_each [] dev = some dev
  write_each (a ∷ l) dev = demu_io_write ops a size x dev >>= write_each l

module _ {S : Type 0} (map_page : ℕ → Option ℕ) (ops : IoOps S) where
  rounds_write :
      (n i a : ℕ) (r : Request) (m : Machine S)
      → r.is_read ≡ false
      → r.data_is_ptr ≡ false
      → r.addr ≡ a % 2 ^ 64
      → rounds map_page ops true n i r m ≡ (
          write_each ops r.size r.payload (addresses a (offset r.df 1 r.size) n) m.dev >>= λ dev.
          some
            (record r { addr = (a + n * offset r.df 1 r.size) % 2 ^ 64 }, record m { dev = dev }))
  unfolding rounds write_round
  rounds_write zero i a r m w v e = ground arith
  rounds_write (suc n) i a r m w v e =
      elim (Option-cases (demu_io_write ops r.addr r.size r.payload m.dev)) [
        | inl f ↦ ground arith
        | inr (dev, f) ↦ ground (
          arith,
          rounds_write n (suc i) (a + offset r.df 1 r.size) (step_addr true r)
              (record m { dev = dev }) w v (omega arith),
        )
      ]

copied :
    {S : Type 0} (map_page : ℕ → Option ℕ) (d : Demu (IoOps S)) (r : Request) (m : Machine S)
    → r.type ≡ copy
    → demu_handle_ioreq map_page d r m
      ≡ demu_handle_io map_page (demu_find_memory_space d r.addr) r true m
unfolding demu_handle_ioreq
copied map_page d r m t = ground arith

-- A write of `count` units to a registered memory space writes the request's data at `count`
-- addresses, each one `offset` above the one before, modulo 2^64, in this order; the request's
-- address ends behind the last, and a fault of any unit is the fault of the request. The offset is
-- the size when `df` is clear. When it is set, it is 2^32 less the size, and not 2^64 less the size:
-- the addresses go up.
pub demu_handle_ioreq-addresses :
    {S : Type 0} (map_page : ℕ → Option ℕ) (d : Demu (IoOps S)) (space : Space (IoOps S))
    (r : Request) (m : Machine S)
    → demu_find_memory_space d r.addr ≡ some space
    → r.type ≡ copy
    → r.is_read ≡ false
    → r.data_is_ptr ≡ false
    → r.addr < 2 ^ 64
    → r.size < 2 ^ 32
    → 0 < r.size
    → let off = if r.df then 2 ^ 32 - r.size else r.size in
      demu_handle_ioreq map_page d r m ≡ (
        write_each space.ops r.size r.payload (addresses r.addr off r.count) m.dev >>= λ dev.
        some (record r { addr = (r.addr + r.count * off) % 2 ^ 64 }, record m { dev = dev }))
unfolding demu_handle_ioreq demu_handle_io
demu_handle_ioreq-addresses map_page d space r m found t w v a s z =
    let off : offset r.df 1 r.size ≡ (if r.df then 2 ^ 32 - r.size else r.size) = ground arith in
    let all = rounds_write map_page space.ops r.count 0 r.addr r m w v (omega arith) in
    copied map_page d r m t ∙ ap (λ t. demu_handle_io map_page t r true m) found ∙ rw (← off) all
