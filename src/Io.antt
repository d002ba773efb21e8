-- ===== src/Io.antt =====
-- `demu_io_read` and `demu_io_write` of demu.c: an access of 1, 2, 4 or 8 bytes made of the widest
-- calls that a space's `io_ops_t` has.
--
-- `S` is the state that the callbacks work on. A callback that aborts, and a call through a NULL
-- pointer, is `none`.
pub mod Keeps
pub mod Read
mod Tests
use citrix_vgpu.Prelude.{
  ℕ, zero, suc, ◌+◌, ◌-◌, ◌*◌, ◌/◌, ◌%◌, ◌^◌, bit_or, Option, none, some, ◌==◌, if◌then◌else◌,
}

-- `io_ops_t`; `none` is a NULL pointer.
pub record IoOps (S : Type 0) : Type 0 where
  pub readb : Option (ℕ → S → Option (ℕ × S))
  pub readw : Option (ℕ → S → Option (ℕ × S))
  pub readl : Option (ℕ → S → Option (ℕ × S))
  pub writeb : Option (ℕ → ℕ → S → Option S)
  pub writew : Option (ℕ → ℕ → S → Option S)
  pub writel : Option (ℕ → ℕ → S → Option S)

module _ {S : Type 0} where
  abbrev pub call_read : Option (ℕ → S → Option (ℕ × S)) → ℕ → S → Option (ℕ × S)
  call_read none addr s = none
  call_read (some fn) addr s = fn addr s

  abbrev pub call_write : Option (ℕ → ℕ → S → Option S) → ℕ → ℕ → S → Option S
  call_write none addr val s = none
  call_write (some fn) addr val s = fn addr val s

  -- `DEMU_IO_READ`: the rounds left, `_size`, `_addr`, `_shift`, `_val`.
  unfoldable pub io_read_loop :
      Option (ℕ → S → Option (ℕ × S)) → ℕ → ℕ → ℕ → ℕ → ℕ → S → Option (ℕ × S)
  io_read_loop fn zero size addr shift val s = some (val, s)
  io_read_loop fn (suc n) size addr shift val s = elim (call_read fn addr s) [
    | none ↦ none
    | some (v, s') ↦
        io_read_loop fn n size ((addr + size) % 2 ^ 64) (shift + 8 * size)
          (bit_or val (v * 2 ^ shift % 2 ^ 64)) s'
  ]

  -- `DEMU_IO_WRITE`; the value is cut to the parameter's width.
  unfoldable pub io_write_loop : Option (ℕ → ℕ → S → Option S) → ℕ → ℕ → ℕ → ℕ → ℕ → S → Option S
  io_write_loop fn zero size addr shift val s = some s
  io_write_loop fn (suc n) size addr shift val s =
      elim (call_write fn addr (val / 2 ^ shift % 2 ^ (8 * size)) s) [
        | none ↦ none
        | some s' ↦ io_write_loop fn n size ((addr + size) % 2 ^ 64) (shift + 8 * size) val s'
      ]

  -- The cases 2, 4 and 8 of the `switch`: the widest callback that is not NULL and not wider than
  -- the access, at most 4 bytes.
  abbrev pub read_wide : IoOps S → ℕ → ℕ → S → Option (ℕ × S)
  read_wide ops size addr s =
      if size == 2
      then elim ops.readw [
        | none ↦ io_read_loop ops.readb 2 1 addr 0 0 s
        | some fn ↦ io_read_loop (some fn) 1 2 addr 0 0 s
      ]
      else elim ops.readl [
        | none ↦ elim ops.readw [
          | none ↦ io_read_loop ops.readb size 1 addr 0 0 s
          | some fn ↦ io_read_loop (some fn) (size / 2) 2 addr 0 0 s
        ]
        | some fn ↦ io_read_loop (some fn) (size / 4) 4 addr 0 0 s
      ]

  unfoldable pub demu_io_read : IoOps S → ℕ → ℕ → S → Option (ℕ × S)
  demu_io_read ops addr size s =
      if size == 1
      then call_read ops.readb addr s
      else if size == 2
      then read_wide ops 2 addr s
      else if size == 4
      then read_wide ops 4 addr s
      else if size == 8
      then read_wide ops 8 addr s
      else some (2 ^ 64 - 1, s)

  abbrev pub write_wide : IoOps S → ℕ → ℕ → ℕ → S → Option S
  write_wide ops size addr val s =
      if size == 2
      then elim ops.writew [
        | none ↦ io_write_loop ops.writeb 2 1 addr 0 val s
        | some fn ↦ io_write_loop (some fn) 1 2 addr 0 val s
      ]
      else elim ops.writel [
        | none ↦ elim ops.writew [
          | none ↦ io_write_loop ops.writeb size 1 addr 0 val s
          | some fn ↦ io_write_loop (some fn) (size / 2) 2 addr 0 val s
        ]
        | some fn ↦ io_write_loop (some fn) (size / 4) 4 addr 0 val s
      ]

  unfoldable pub demu_io_write : IoOps S → ℕ → ℕ → ℕ → S → Option S
  demu_io_write ops addr size val s =
      if size == 1
      then call_write ops.writeb addr (val % 256) s
      else if size == 2
      then write_wide ops 2 addr val s
      else if size == 4
      then write_wide ops 4 addr val s
      else if size == 8
      then write_wide ops 8 addr val s
      else some s
