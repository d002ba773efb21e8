-- ===== src/Io/Tests.antt =====
-- A read of two bytes from a small memory with byte callbacks.
use citrix_vgpu.Prelude.{ℕ, ◌≡◌, ◌%◌, refl, some, none, arith, inl, inr, update}
use citrix_vgpu.Io.{IoOps, demu_io_read}
use citrix_vgpu.Io.Read.{ReadsBytes, demu_io_read_lem}

abbrev Bytes : Type 0
Bytes = ℕ → ℕ

abbrev peek : Bytes → ℕ → ℕ
peek s a = s a % 256

abbrev memory_ops : IoOps Bytes
memory_ops = record {
  readb = some (λ a s. some (peek s a, s));
  readw = none;
  readl = none;
  writeb = some (λ a v s. some (update s a v));
  writew = none;
  writel = none;
}

memory_reads : ReadsBytes memory_ops peek
memory_reads = record {
  byte = λ s a. omega arith;
  readb = λ s a. refl;
  readw = λ fn e s a. cc;
  readl = λ fn e s a. cc;
}

abbrev counting : Bytes
counting a = a

demu_io_read_lem_example : demu_io_read memory_ops 3 2 counting ≡ some (1027, counting)
demu_io_read_lem_example =
    demu_io_read_lem memory_ops peek memory_reads counting 2 3 (inr (inl refl)) (omega arith)
