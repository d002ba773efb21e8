-- ===== src/Env/Links/Chain.antt =====
-- Which list a head and the pointers of its nodes stand for, what changes spare it, and insertion.
use citrix_vgpu.Prelude.{
  if◌then◌else◌, zero, suc, ◌<◌, ◌∷◌, ◌==◌, ◌≡◌, ◌∙◌, ◌||◌, [], arith, update, refl, true, some,
  false, none, Bool, List, Option, ℕ,
}
use citrix_vgpu.Env.Links.{list_apply, Links, list_insert, set_next, set_prev}

abbrev pub has : ℕ → List ℕ → Bool
has a [] = false
has a (x ∷ l) = (a == x) || has a l

-- From `h`, whose predecessor is `p`, the pointers lead through the distinct nodes `l` and back.
abbrev pub Chain : Links → Option ℕ → Option ℕ → List ℕ → Type 0
Chain s p h [] = h ≡ none
Chain s p h (x ∷ l) =
    (h ≡ some x) × (s.prev x ≡ p) × (has x l ≡ false) × Chain s (some x) (s.next x) l

-- The two stores hold the same pointers at every node that is not in `l`.
abbrev pub SameOutside : List ℕ → Links → Links → Type 0
SameOutside l s t = (a : ℕ) → has a l ≡ false → (t.next a ≡ s.next a) × (t.prev a ≡ s.prev a)

abbrev pub Apart : List ℕ → List ℕ → Type 0
Apart l m = (a : ℕ) → has a l ≡ true → has a m ≡ false

-- A list survives every change at other nodes.
pub Chain-frame :
    (s t : Links) (p h : Option ℕ) (l : List ℕ)
    → Chain s p h l
    → ((a : ℕ) → has a l ≡ true → (t.next a ≡ s.next a) × (t.prev a ≡ s.prev a))
    → Chain t p h l
Chain-frame s t p h [] c same = c
Chain-frame s t p h (x ∷ l) c same =
    let here = same x (ground arith) in
    let rest = Chain-frame s t (some x) (s.next x) l c.3 (λ a m. same a (ground arith)) in
    (c.0, here.1 ∙ c.1, c.2, rw here.0 rest)

-- Inserting a node puts it first, if it is not in the list and its own `prev` is NULL.
pub list_insert-Chain :
    (x : ℕ) (h : Option ℕ) (l : List ℕ) (s : Links)
    → Chain s none h l
    → has x l ≡ false
    → s.prev x ≡ none
    → Chain ((list_insert x h s).1) none ((list_insert x h s).0) (x ∷ l)
unfolding list_insert set_next set_prev
list_insert-Chain x none [] s c out e = ground arith
list_insert-Chain x none (y ∷ l) s c out e = cc
list_insert-Chain x (some k) [] s c out e = cc
list_insert-Chain x (some k) (y ∷ l) s c out e =
    let same =
      Chain-frame s ((list_insert x (some k) s).1) (some y) (s.next y) l c.3
        (λ a m. (ground arith, ground arith)) in
    let kept : update s.next x (some k) y ≡ s.next y = ground arith in
    (refl, ground arith, out, (ground arith, ground arith, c.2, rw kept same))

-- It changes the pointers of that node and of the old head only.
pub list_insert-SameOutside :
    (x : ℕ) (h : Option ℕ) (l : List ℕ) (s : Links)
    → Chain s none h l
    → SameOutside (x ∷ l) s ((list_insert x h s).1)
unfolding list_insert set_next set_prev
list_insert-SameOutside x none l s c = λ a out. ground arith
list_insert-SameOutside x (some k) [] s c = cc
list_insert-SameOutside x (some k) (y ∷ l) s c = λ a out. ground arith

abbrev pub count : List ℕ → ℕ
count [] = 0
count (x ∷ l) = suc (count l)

-- The first node of a list that a test accepts
unfoldable pub first : (ℕ → Bool) → List ℕ → Option ℕ
first f [] = none
first f (x ∷ l) = if f x then some x else first f l

-- With fuel for more nodes than the list has, `vmiope_list_apply` stops at the first that it
-- accepts.
pub list_apply-Chain :
    (n : ℕ) (p h : Option ℕ) (l : List ℕ) (f : ℕ → Bool) (s : Links)
    → Chain s p h l
    → count l < n
    → list_apply n h f s ≡ first f l
unfolding list_apply first
list_apply-Chain zero p h l f s c lt = absurd (omega arith)
list_apply-Chain (suc n) p h [] f s c lt = rw c refl
list_apply-Chain (suc n) p h (x ∷ l) f s c lt =
    let rest = list_apply-Chain n (some x) (s.next x) l f s c.3 (omega arith) in
    rw c.0 (ground (arith, rest))

pub first_same :
    (f g : ℕ → Bool) (l : List ℕ) → ((a : ℕ) → has a l ≡ true → f a ≡ g a) → first f l ≡ first g l
unfolding first
first_same f g [] same = refl
first_same f g (x ∷ l) same =
    let rest = first_same f g l (λ a m. same a (ground arith)) in
    ground (arith, same x (ground arith), rest)
