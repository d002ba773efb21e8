-- ===== src/Io/Read.antt =====
-- A device of bytes reads the same through callbacks of every width: little-endian.
use native.Mathlib.Nat.{mod-eq_of_lt, add_assoc}
use citrix_vgpu.Prelude.{
  inr, inl, Option-cases, ◌∙◌, ℕ, zero, suc, ◌+◌, ◌*◌, ◌%◌, ◌^◌, ◌≤◌, ◌<◌, ◌≡◌, Option, some, arith,
  bit_or, ap, ◌⊎◌,
}
use citrix_vgpu.Prelude.Bits.{pow-add, pow_pos, pow_mono, shifted-lt, bit_or_shifted}
use citrix_vgpu.Io.{IoOps, call_read, io_read_loop, demu_io_read}

-- The number whose digits to the base 2 ^ (8 * w) are `word a`, `word (a + w)`, and so on.
abbrev pub words : (ℕ → ℕ) → ℕ → ℕ → ℕ → ℕ
words word w zero a = 0
words word w (suc n) a = word a + 2 ^ (8 * w) * words word w n (a + w)

-- The sizes that the `switch` of `demu_io_read` knows.
abbrev pub IsAccess : ℕ → Type 0
IsAccess size = (size ≡ 1) ⊎ (size ≡ 2) ⊎ (size ≡ 4) ⊎ (size ≡ 8)

words_once : (word : ℕ → ℕ) (w a : ℕ) → words word w 1 a ≡ word a
words_once word w a = omega arith

pairs : (word : ℕ → ℕ) (a : ℕ) → words (words word 1 2) 2 2 a ≡ words word 1 4 a
pairs word a = simp (add_assoc) (omega arith)

four_pairs : (word : ℕ → ℕ) (a : ℕ) → words (words word 1 2) 2 4 a ≡ words word 1 8 a
four_pairs word a = simp (add_assoc) (omega arith)

two_quads : (word : ℕ → ℕ) (a : ℕ) → words (words word 1 4) 4 2 a ≡ words word 1 8 a
two_quads word a = simp (add_assoc) (omega arith)

module _ {S : Type 0} where
  io_read_loop-suc :
      (fn : Option (ℕ → S → Option (ℕ × S))) (n w a shift val v : ℕ) (s s' : S)
      → call_read fn a s ≡ some (v, s')
      → io_read_loop fn (suc n) w a shift val s
        ≡ io_read_loop fn n w
            ((a + w) % 2 ^ 64)
            (shift + 8 * w)
            (bit_or val (v * 2 ^ shift % 2 ^ 64))
            s'
  unfolding io_read_loop
  io_read_loop-suc fn n w a shift val v s s' e = ground arith

  io_read_loop_lem :
      (fn : Option (ℕ → S → Option (ℕ × S))) (word : ℕ → ℕ) (w : ℕ) (s : S)
      → ((a : ℕ) → word a < 2 ^ (8 * w))
      → ((a : ℕ) → call_read fn a s ≡ some (word a, s))
      → (n a shift val : ℕ) → val < 2 ^ shift
      → shift + n * (8 * w) ≤ 64
      → a + n * w < 2 ^ 64
      → io_read_loop fn n w a shift val s ≡ some (val + 2 ^ shift * words word w n a, s)
  io_read_loop_lem fn word w s small reads zero a shift val hv hs ha =
      unfold io_read_loop in ap (λ (t : ℕ). some (t, s)) (omega arith)
  io_read_loop_lem fn word w s small reads (suc n) a shift val hv hs ha =
      rw
        (
          io_read_loop-suc fn n w a shift val (word a) s s (reads a),
          next,
          cut,
          bit_or_shifted shift (word a) val hv,
        )
        (io_read_loop_lem fn word w s small reads n (a + w) (shift + 8 * w)
            (val + word a * 2 ^ shift) (shifted-lt shift (8 * w) (word a) val hv (small a))
            (omega arith) (omega arith)
          ∙ ap (λ t. some (t, s)) regroup)
    where
      above : 0 + word a * 2 ^ shift < 2 ^ (shift + 8 * w)
      above = shifted-lt shift (8 * w) (word a) 0 (pow_pos shift) (small a)

      next : (a + w) % 2 ^ 64 ≡ a + w
      next = mod-eq_of_lt (omega arith)

      cut : word a * 2 ^ shift % 2 ^ 64 ≡ word a * 2 ^ shift
      cut = mod-eq_of_lt (omega (arith, above, pow_mono (shift + 8 * w) 64 (omega arith)))

      regroup :
          val + word a * 2 ^ shift + 2 ^ (shift + 8 * w) * words word w n (a + w)
          ≡ val + 2 ^ shift * (word a + 2 ^ (8 * w) * words word w n (a + w))
      regroup = rw (pow-add shift (8 * w)) (omega arith)

  -- The callbacks read the byte `peek s a` at each address `a`, a wider one the bytes from `a` on,
  -- and leave the state as it is.
  pub record ReadsBytes (ops : IoOps S) (peek : S → ℕ → ℕ) : Type 0 where
    pub byte : (s : S) (a : ℕ) → peek s a < 256
    pub readb : (s : S) (a : ℕ) → call_read ops.readb a s ≡ some (peek s a, s)
    pub readw :
        (fn : ℕ → S → Option (ℕ × S))
        → ops.readw ≡ some fn
        → (s : S) (a : ℕ) → fn a s ≡ some (words (peek s) 1 2 a, s)
    pub readl :
        (fn : ℕ → S → Option (ℕ × S))
        → ops.readl ≡ some fn
        → (s : S) (a : ℕ) → fn a s ≡ some (words (peek s) 1 4 a, s)

  module _ (ops : IoOps S) (peek : S → ℕ → ℕ) (r : ReadsBytes ops peek) (s : S) where
    pair-lt : (a : ℕ) → words (peek s) 1 2 a < 2 ^ (8 * 2)
    pair-lt a = omega (arith, r.byte s a, r.byte s (a + 1))

    quad-lt : (a : ℕ) → words (peek s) 1 4 a < 2 ^ (8 * 4)
    quad-lt a =
        omega (arith, r.byte s a, r.byte s (a + 1), r.byte s (a + 1 + 1), r.byte s (a + 1 + 1 + 1))

    by_bytes :
        (n a : ℕ)
        → n ≤ 8
        → a + n < 2 ^ 64
        → io_read_loop ops.readb n 1 a 0 0 s ≡ some (words (peek s) 1 n a, s)
    by_bytes n a hn ha =
        io_read_loop_lem ops.readb (peek s) 1 s (r.byte s) (r.readb s) n a 0 0 (omega arith)
          (omega arith) (omega arith)
        ∙ ap (λ (t : ℕ). some (t, s)) (omega arith)

    by_pairs :
        (fn : ℕ → S → Option (ℕ × S)) (n a : ℕ)
        → ops.readw ≡ some fn
        → n ≤ 4
        → a + n * 2 < 2 ^ 64
        → io_read_loop (some fn) n 2 a 0 0 s ≡ some (words (words (peek s) 1 2) 2 n a, s)
    by_pairs fn n a e hn ha =
        io_read_loop_lem (some fn) (words (peek s) 1 2) 2 s pair-lt (r.readw fn e s) n a 0 0
          (omega arith) (omega arith) (omega arith)
        ∙ ap (λ (t : ℕ). some (t, s)) (omega arith)

    by_quads :
        (fn : ℕ → S → Option (ℕ × S)) (n a : ℕ)
        → ops.readl ≡ some fn
        → n ≤ 2
        → a + n * 4 < 2 ^ 64
        → io_read_loop (some fn) n 4 a 0 0 s ≡ some (words (words (peek s) 1 4) 4 n a, s)
    by_quads fn n a e hn ha =
        io_read_loop_lem (some fn) (words (peek s) 1 4) 4 s quad-lt (r.readl fn e s) n a 0 0
          (omega arith) (omega arith) (omega arith)
        ∙ ap (λ (t : ℕ). some (t, s)) (omega arith)

    read_two : (a : ℕ) → a + 2 < 2 ^ 64 → demu_io_read ops a 2 s ≡ some (words (peek s) 1 2 a, s)
    unfolding demu_io_read
    read_two a h = elim (Option-cases ops.readw) [
      | inl n ↦ ground (arith, by_bytes 2 a)
      | inr (fn, e) ↦ ground (arith, by_pairs fn 1 a e, words_once (words (peek s) 1 2) 2 a)
    ]

    read_four : (a : ℕ) → a + 4 < 2 ^ 64 → demu_io_read ops a 4 s ≡ some (words (peek s) 1 4 a, s)
    unfolding demu_io_read
    read_four a h = elim (Option-cases ops.readl) [
      | inl n ↦ elim (Option-cases ops.readw) [
        | inl n' ↦ ground (arith, by_bytes 4 a)
        | inr (fn, e) ↦ ground (arith, by_pairs fn 2 a e, pairs (peek s) a)
      ]
      | inr (fn, e) ↦ ground (arith, by_quads fn 1 a e, words_once (words (peek s) 1 4) 4 a)
    ]

    read_eight : (a : ℕ) → a + 8 < 2 ^ 64 → demu_io_read ops a 8 s ≡ some (words (peek s) 1 8 a, s)
    unfolding demu_io_read
    read_eight a h = elim (Option-cases ops.readl) [
      | inl n ↦ elim (Option-cases ops.readw) [
        | inl n' ↦ ground (arith, by_bytes 8 a)
        | inr (fn, e) ↦ ground (arith, by_pairs fn 4 a e, four_pairs (peek s) a)
      ]
      | inr (fn, e) ↦ ground (arith, by_quads fn 2 a e, two_quads (peek s) a)
    ]

    -- `demu_io_read` of 1, 2, 4 or 8 bytes gives the bytes from the address on, the lowest first,
    -- and leaves the state as it is, whichever of the wider callbacks the space has. The callbacks
    -- agree on the bytes, and the access must not reach the end of the 64-bit addresses.
    pub demu_io_read_lem :
        (size a : ℕ)
        → IsAccess size
        → a + size < 2 ^ 64
        → demu_io_read ops a size s ≡ some (words (peek s) 1 size a, s)
    demu_io_read_lem size a (inl e) h =
        rw e (unfold demu_io_read in r.readb s a ∙ ap (λ (t : ℕ). some (t, s)) (omega arith))
    demu_io_read_lem size a (inr (inl e)) h = rw e (read_two a (omega arith))
    demu_io_read_lem size a (inr (inr (inl e))) h = rw e (read_four a (omega arith))
    demu_io_read_lem size a (inr (inr (inr e))) h = rw e (read_eight a (omega arith))
