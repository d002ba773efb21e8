-- ===== src/Prelude/Bits.antt =====
-- Bounds and sums of the bitwise operations at variables, by induction on the halves of a number.
use Prim.Native.Nat.{
  ℕ, zero, suc, ◌+◌, ◌-◌, ◌*◌, ◌/◌, ◌%◌, ◌^◌, ◌≤◌, ◌<◌, min, max, bit_and, bit_or, digits, bitwise,
  bit_and-bitwise, bit_or-bitwise,
}
use mathlib.Core.Path.{◌≡◌, refl, ap, ◌∙◌}
use native.Mathlib.Nat.{pow-suc, add-zero, add-suc}
use native.Mathlib.Omega.{arith}
use citrix_vgpu.Prelude.Tests.{◌==◌, Bool-cases}
use mathlib.Core.Logic.{inl, inr}

-- What holds of 0, and of a positive number when it holds of its half, holds of every number.
halves_below {ℓ} :
    (P : ℕ → Type ℓ) → P 0 → ((a : ℕ) → P (suc a / 2) → P (suc a)) → (bound a : ℕ) → a ≤ bound → P a
halves_below P base up bound zero h = base
halves_below P base up zero (suc a) h = absurd (omega arith)
halves_below P base up (suc bound) (suc a) h =
    up a (halves_below P base up bound (suc a / 2) (omega arith))

halves {ℓ} : (P : ℕ → Type ℓ) → P 0 → ((a : ℕ) → P (suc a / 2) → P (suc a)) → (a : ℕ) → P a
halves P base up a = halves_below P base up a a (omega arith)

module _ (z : ℕ → ℕ) (f : ℕ → ℕ → ℕ) where
  -- One digit more than the number has changes nothing.
  one_more : (a n b : ℕ) → a ≤ n → digits z f (suc n) a b ≡ digits z f n a b
  one_more = halves (λ a. (n b : ℕ) → a ≤ n → digits z f (suc n) a b ≡ digits z f n a b) at_zero up
    where
      at_zero : (n b : ℕ) → 0 ≤ n → digits z f (suc n) 0 b ≡ digits z f n 0 b
      at_zero zero b h = refl
      at_zero (suc n) b h = refl

      up :
          (a : ℕ)
          → ((n b : ℕ)
              → suc a / 2 ≤ n
              → digits z f (suc n) (suc a / 2) b ≡ digits z f n (suc a / 2) b)
          → (n b : ℕ) → suc a ≤ n
          → digits z f (suc n) (suc a) b ≡ digits z f n (suc a) b
      up a ih zero b h = absurd (omega arith)
      up a ih (suc n) b h =
          ap (λ (t : ℕ). t * 2 + f (suc a % 2) (b % 2)) (ih n (b / 2) (omega arith))

  many_more : (m n a b : ℕ) → a ≤ n → n ≤ m → digits z f m a b ≡ digits z f n a b
  many_more zero zero a b p q = refl
  many_more zero (suc n) a b p q = absurd (omega arith)
  many_more (suc m) n a b p q = elim (Bool-cases (n == suc m)) [
    | inl e ↦ let same : suc m ≡ n = ground arith in ap (λ (t : ℕ). digits z f t a b) same
    | inr ne ↦ one_more a m b (ground arith) ∙ many_more m n a b p (ground arith)
  ]

  lowest :
      (a b : ℕ)
      → bitwise z f (suc a) b ≡ bitwise z f (suc a / 2) (b / 2) * 2 + f (suc a % 2) (b % 2)
  lowest a b =
      ap (λ (t : ℕ). t * 2 + f (suc a % 2) (b % 2))
        (many_more a (suc a / 2) (suc a / 2) (b / 2) (omega arith) (omega arith))

and_lowest :
    (a b : ℕ) → bit_and (suc a) b ≡ bit_and (suc a / 2) (b / 2) * 2 + min (suc a % 2) (b % 2)
and_lowest a b =
    omega (
      arith,
      lowest (λ y. 0) min a b,
      bit_and-bitwise (suc a) b,
      bit_and-bitwise (suc a / 2) (b / 2),
    )

or_lowest : (a b : ℕ) → bit_or (suc a) b ≡ bit_or (suc a / 2) (b / 2) * 2 + max (suc a % 2) (b % 2)
or_lowest a b =
    omega
      (arith, lowest (λ y. y) max a b, bit_or-bitwise (suc a) b, bit_or-bitwise (suc a / 2) (b / 2))

-- A mask bounds what passes it.
pub bit_and-le_right : (a b : ℕ) → bit_and a b ≤ b
bit_and-le_right =
    halves (λ a. (b : ℕ) → bit_and a b ≤ b) (λ b. omega (arith, bit_and-bitwise 0 b))
      (λ a ih b. omega (arith, and_lowest a b, ih (b / 2)))

pub le-bit_or : (a b : ℕ) → a ≤ bit_or a b
le-bit_or =
    halves (λ a. (b : ℕ) → a ≤ bit_or a b) (λ b. omega arith)
      (λ a ih b. omega (arith, or_lowest a b, ih (b / 2)))

or_step : (a b : ℕ) → bit_or a b ≡ bit_or (a / 2) (b / 2) * 2 + max (a % 2) (b % 2)
or_step zero b = omega (arith, bit_or-bitwise 0 b, bit_or-bitwise 0 (b / 2))
or_step (suc a) b = or_lowest a b

mul-pow-suc : (q k : ℕ) → q * 2 ^ suc k ≡ 2 * (q * 2 ^ k)
mul-pow-suc q k = omega (arith, ap (λ (t : ℕ). q * t) (pow-suc 2 k))

-- `r | (q << k)` is a sum when `r` fits `k` bits.
pub bit_or_shifted : (k q r : ℕ) → r < 2 ^ k → bit_or r (q * 2 ^ k) ≡ r + q * 2 ^ k
bit_or_shifted zero q r h =
    let e : r ≡ 0 = omega (arith, h) in
    omega (arith, ap (λ (t : ℕ). bit_or t (q * 1)) e, bit_or-bitwise 0 (q * 1))
bit_or_shifted (suc k) q r h = ground (
  arith,
  or_step r (q * 2 ^ suc k),
  mul-pow-suc q k,
  pow-suc 2 k,
  bit_or_shifted k q (r / 2) (omega (arith, pow-suc 2 k)),
)

pub pow-add : (k j : ℕ) → 2 ^ (k + j) ≡ 2 ^ k * 2 ^ j
pow-add k zero = rw add-zero (omega arith)
pow-add k (suc j) = rw (add-suc, pow-suc 2 (k + j), pow-suc 2 j, pow-add k j) (omega arith)

pub pow_pos : (k : ℕ) → 0 < 2 ^ k
pow_pos zero = omega arith
pow_pos (suc k) = rw (pow-suc 2 k) (omega (arith, pow_pos k))

-- A field of `j` bits, shifted by `k`, ends below bit `k + j`.
pub shifted-lt : (k j v r : ℕ) → r < 2 ^ k → v < 2 ^ j → r + v * 2 ^ k < 2 ^ (k + j)
shifted-lt k j v r hr hv = rw (pow-add k j) (grind arith)

pub pow_mono : (k j : ℕ) → k ≤ j → 2 ^ k ≤ 2 ^ j
pow_mono k j h =
    let e : j ≡ k + (j - k) = omega arith in rw (e, pow-add k (j - k)) (grind (arith, pow_pos))
