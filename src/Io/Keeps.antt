-- ===== src/Io/Keeps.antt =====
-- What every callback of a device keeps, an access of any size keeps.
use citrix_vgpu.Prelude.{
  ℕ, zero, suc, ◌+◌, ◌*◌, ◌%◌, ◌/◌, ◌^◌, ◌≡◌, ◌==◌, Option, some, arith, inl, inr, Bool-cases,
  Option-cases, bit_or,
}
use mathlib.Core.Path.{subst}
use citrix_vgpu.Io.{
  IoOps, call_read, call_write, io_read_loop, io_write_loop, demu_io_read, demu_io_write,
}

module _ {S : Type 0} (P : S → Type 0) where
  abbrev pub KeepsRead : Option (ℕ → S → Option (ℕ × S)) → Type 0
  KeepsRead fn = (a v : ℕ) (s s' : S) → call_read fn a s ≡ some (v, s') → P s → P s'

  abbrev pub KeepsWrite : Option (ℕ → ℕ → S → Option S) → Type 0
  KeepsWrite fn = (a v : ℕ) (s s' : S) → call_write fn a v s ≡ some s' → P s → P s'

  io_read_loop-KeepsRead :
      (fn : Option (ℕ → S → Option (ℕ × S))) (n size a shift val v : ℕ) (s s' : S)
      → KeepsRead fn
      → io_read_loop fn n size a shift val s ≡ some (v, s')
      → P s
      → P s'
  unfolding io_read_loop
  io_read_loop-KeepsRead fn zero size a shift val v s s' keeps e p = subst P (ground arith) p
  io_read_loop-KeepsRead fn (suc n) size a shift val v s s' keeps e p =
      elim (Option-cases (call_read fn a s)) [
        | inl m ↦ absurd (ground arith)
        | inr ((u, t), m) ↦
            io_read_loop-KeepsRead fn n size ((a + size) % 2 ^ 64) (shift + 8 * size)
              (bit_or val (u * 2 ^ shift % 2 ^ 64)) v t s' keeps (ground arith) (keeps a u s t m p)
      ]

  io_write_loop-KeepsWrite :
      (fn : Option (ℕ → ℕ → S → Option S)) (n size a shift val : ℕ) (s s' : S)
      → KeepsWrite fn
      → io_write_loop fn n size a shift val s ≡ some s'
      → P s
      → P s'
  unfolding io_write_loop
  io_write_loop-KeepsWrite fn zero size a shift val s s' keeps e p = subst P (ground arith) p
  io_write_loop-KeepsWrite fn (suc n) size a shift val s s' keeps e p =
      elim (Option-cases (call_write fn a (val / 2 ^ shift % 2 ^ (8 * size)) s)) [
        | inl m ↦ absurd (ground arith)
        | inr (t, m) ↦
            io_write_loop-KeepsWrite fn n size ((a + size) % 2 ^ 64) (shift + 8 * size) val t s'
              keeps (ground arith) (keeps a (val / 2 ^ shift % 2 ^ (8 * size)) s t m p)
      ]

  -- A device with all three callbacks, as those of vmiop-env.c are.
  module _ (readb readw readl : ℕ → S → Option (ℕ × S))
      (writeb writew writel : ℕ → ℕ → S → Option S) where
    abbrev all_ops : IoOps S
    all_ops = record {
      readb = some readb;
      readw = some readw;
      readl = some readl;
      writeb = some writeb;
      writew = some writew;
      writel = some writel;
    }

    pub demu_io_read-KeepsRead :
        (a size v : ℕ) (s s' : S)
        → KeepsRead (some readb)
        → KeepsRead (some readw)
        → KeepsRead (some readl)
        → demu_io_read all_ops a size s ≡ some (v, s')
        → P s
        → P s'
    unfolding demu_io_read
    demu_io_read-KeepsRead a size v s s' kb kw kl e p = elim (Bool-cases (size == 1)) [
      | inl one ↦ kb a v s s' (ground arith) p
      | inr n1 ↦ elim (Bool-cases (size == 2)) [
        | inl two ↦ io_read_loop-KeepsRead (some readw) 1 2 a 0 0 v s s' kw (ground arith) p
        | inr n2 ↦ elim (Bool-cases (size == 4)) [
          | inl four ↦
              io_read_loop-KeepsRead (some readl) (4 / 4) 4 a 0 0 v s s' kl (ground arith) p
          | inr n4 ↦ elim (Bool-cases (size == 8)) [
            | inl eight ↦
                io_read_loop-KeepsRead (some readl) (8 / 4) 4 a 0 0 v s s' kl (ground arith) p
            | inr n8 ↦ subst P (ground arith) p
          ]
        ]
      ]
    ]

    pub demu_io_write-KeepsWrite :
        (a size val : ℕ) (s s' : S)
        → KeepsWrite (some writeb)
        → KeepsWrite (some writew)
        → KeepsWrite (some writel)
        → demu_io_write all_ops a size val s ≡ some s'
        → P s
        → P s'
    unfolding demu_io_write
    demu_io_write-KeepsWrite a size val s s' kb kw kl e p = elim (Bool-cases (size == 1)) [
      | inl one ↦ kb a (val % 256) s s' (ground arith) p
      | inr n1 ↦ elim (Bool-cases (size == 2)) [
        | inl two ↦ io_write_loop-KeepsWrite (some writew) 1 2 a 0 val s s' kw (ground arith) p
        | inr n2 ↦ elim (Bool-cases (size == 4)) [
          | inl four ↦
              io_write_loop-KeepsWrite (some writel) (4 / 4) 4 a 0 val s s' kl (ground arith) p
          | inr n4 ↦ elim (Bool-cases (size == 8)) [
            | inl eight ↦
                io_write_loop-KeepsWrite (some writel) (8 / 4) 4 a 0 val s s' kl (ground arith) p
            | inr n8 ↦ subst P (ground arith) p
          ]
        ]
      ]
    ]
