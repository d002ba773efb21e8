-- ===== src/Stream/Bytes.antt =====
-- Numbers as bytes, and lists cut in two.
use citrix_vgpu.Prelude.{
  drop-length-append, take-length-append, ℕ, zero, suc, ◌-◌, ◌/◌, ◌^◌, ◌≡◌, ◌≤◌, ◌<◌, refl, ap, ◌∙◌,
  List, [], ◌∷◌, ◌++◌, length, take, drop, arith,
}
use native.Mathlib.Nat.{pow-suc}
use citrix_vgpu.Stream.{bytes_le, value_le}

pub length-bytes_le : (n x : ℕ) → length (bytes_le n x) ≡ n
unfolding bytes_le
length-bytes_le zero x = refl
length-bytes_le (suc n) x = ap suc (length-bytes_le n (x / 256))

-- A number that fits its bytes comes back from them.
pub value_le-bytes_le : (n x : ℕ) → x < 256 ^ n → value_le (bytes_le n x) ≡ x
unfolding bytes_le value_le
value_le-bytes_le zero x h = omega arith
value_le-bytes_le (suc n) x h =
    omega (arith, value_le-bytes_le n (x / 256) (omega (arith, pow-suc 256 n)))

pub take-append : (n : ℕ) (l r : List ℕ) → length l ≡ n → take n (l ++ r) ≡ l
take-append n l r h = rw⁻¹ h (take-length-append l r)

pub drop-append : (n : ℕ) (l r : List ℕ) → length l ≡ n → drop n (l ++ r) ≡ r
drop-append n l r h = rw⁻¹ h (drop-length-append l r)

pub take-nil : (n : ℕ) → take {A = ℕ} n [] ≡ []
take-nil zero = refl
take-nil (suc n) = refl

pub drop-nil : (n : ℕ) → drop {A = ℕ} n [] ≡ []
drop-nil zero = refl
drop-nil (suc n) = refl

-- Taking `r` and then the rest of `n` is taking `n`.
pub take-take-drop : (r n : ℕ) (l : List ℕ) → r ≤ n → take r l ++ take (n - r) (drop r l) ≡ take n l
take-take-drop zero n l h = ap (λ (t : ℕ). take t l) (omega arith)
take-take-drop (suc r) zero l h = absurd (omega arith)
take-take-drop (suc r) (suc n) [] h = take-nil (suc n - suc r)
take-take-drop (suc r) (suc n) (x ∷ l) h =
    ap (λ (t : List ℕ). x ∷ t)
      (ap (λ (t : ℕ). take r l ++ take t (drop r l)) (omega arith)
        ∙ take-take-drop r n l (omega arith))

pub drop-drop : (r n : ℕ) (l : List ℕ) → r ≤ n → drop (n - r) (drop r l) ≡ drop n l
drop-drop zero n l h = ap (λ (t : ℕ). drop t l) (omega arith)
drop-drop (suc r) zero l h = absurd (omega arith)
drop-drop (suc r) (suc n) [] h = drop-nil (suc n - suc r)
drop-drop (suc r) (suc n) (x ∷ l) h =
    ap (λ (t : ℕ). drop t (drop r l)) (omega arith) ∙ drop-drop r n l (omega arith)

pub length-drop : (n : ℕ) (l : List ℕ) → length (drop n l) ≡ length l - n
length-drop zero l = omega arith
length-drop (suc n) [] = omega arith
length-drop (suc n) (x ∷ l) = omega (arith, length-drop n l)

pub length-take : (n : ℕ) (l : List ℕ) → n ≤ length l → length (take n l) ≡ n
length-take zero l h = refl
length-take (suc n) [] h = absurd (omega arith)
length-take (suc n) (x ∷ l) h = ap suc (length-take n l (omega arith))
