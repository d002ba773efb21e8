-- ===== src/Vga/Banks.antt =====
-- Lemmas on register banks: accesses inside them, and registers that stay within their masks.
use citrix_vgpu.Prelude.{
  ℕ, ◌≡◌, ◌≤◌, ◌<◌, some, List, arith, refl, length, get_or, set, get_or-set_self, get_or-set_ne,
  bit_and, ◌==◌, Bool-cases, inl, inr,
}
use citrix_vgpu.Prelude.Bits.{bit_and-le_right}
use citrix_vgpu.Vga.{get, put, reg}
use citrix_vgpu.Vga.Ports.{put_masked}

pub put-inside : (bank : List ℕ) (i x : ℕ) → i < length bank → put bank i x ≡ some (set bank i x)
put-inside bank i x h = ground arith

pub get-inside : (bank : List ℕ) (i : ℕ) → i < length bank → get bank i ≡ some (get_or bank i 0)
get-inside bank i h = ground arith

-- Each register is at most its mask; where there is no mask, at most 255.
abbrev pub Within : List ℕ → List ℕ → Type 0
Within masks bank = (j : ℕ) → reg bank j ≤ get_or masks j 255

get_or-any : (l : List ℕ) (i d e : ℕ) → i < length l → get_or l i d ≡ get_or l i e
get_or-any l i d e h = go l i h
  where
    go : (l : List ℕ) (i : ℕ) → i < length l → get_or l i d ≡ get_or l i e
    go List.[] i h = absurd (omega arith)
    go (List.◌∷◌ x l) ℕ.zero h = refl
    go (List.◌∷◌ x l) (ℕ.suc i) h = go l i (omega arith)

pub put_masked-inside :
    (masks bank : List ℕ) (i val : ℕ)
    → i < length masks
    → i < length bank
    → put_masked masks bank i val ≡ some (set bank i (bit_and val (get_or masks i 0)))
put_masked-inside masks bank i val hm hb = ground arith

pub set-Within :
    (masks bank : List ℕ) (i val : ℕ)
    → i < length masks
    → i < length bank
    → Within masks bank
    → Within masks (set bank i (bit_and val (get_or masks i 0)))
set-Within masks bank i val hm hb w j = elim (Bool-cases (i == j)) [
  | inl e ↦ ground (
    arith,
    get_or-set_self bank i (bit_and val (get_or masks i 0)) 0 hb,
    bit_and-le_right val (get_or masks i 0),
    get_or-any masks i 0 255 hm,
  )
  | inr ne ↦ ground (arith, get_or-set_ne bank i j (bit_and val (get_or masks i 0)) 0, w j)
]
