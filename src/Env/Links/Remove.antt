-- ===== src/Env/Links/Remove.antt =====
-- `vmiope_list_remove` takes one node out of a list and leaves the order of the others.
use citrix_vgpu.Prelude.{
  refl, sym, ◌∙◌, none, ◌==◌, ◌≡◌, ◌≢◌, inl, inr, [], arith, Bool-cases, true, some, ℕ, List, ◌∷◌,
  if◌then◌else◌, false, Option,
}
use citrix_vgpu.Env.Links.{Links, detach, set_next, set_prev, list_remove, head_without}
use citrix_vgpu.Env.Links.Chain.{Chain-frame, has, Chain, SameOutside}

-- The list without the first `x`
unfoldable pub erase : ℕ → List ℕ → List ℕ
erase x [] = []
erase x (y ∷ l) = let rest = y ∷ erase x l in if x == y then l else rest

-- A pointer that leads to a node of `l`, or NULL
abbrev pub Into : Option ℕ → List ℕ → Type 0
Into o l = (a : ℕ) → o ≡ some a → has a l ≡ true

-- The pointers of a node stay within the list.
next-Into :
    (x : ℕ) (s : Links) (p h : Option ℕ) (l : List ℕ)
    → Chain s p h l
    → has x l ≡ true
    → Into (s.next x) l
next-Into x s p h [] c m = cc
next-Into x s p h (y ∷ []) c m = ground arith
next-Into x s p h (y ∷ z ∷ l) c m =
    let rest = next-Into x s (some y) (s.next y) (z ∷ l) c.3 in
    elim (Bool-cases (x == y)) [
      | inl e ↦ λ a ea. ground arith
      | inr e ↦ λ a ea. ground (arith, rest (ground arith) a ea)
    ]

prev-Into :
    (x q : ℕ) (s : Links) (p h : Option ℕ) (l : List ℕ)
    → Chain s p h (q ∷ l)
    → has x l ≡ true
    → Into (s.prev x) (q ∷ l)
prev-Into x q s p h [] c m = cc
prev-Into x q s p h (y ∷ l) c m = elim (Bool-cases (x == y)) [
  | inl e ↦ λ a ea. ground arith
  | inr e ↦ λ a ea. ground (arith, prev-Into x y s (some q) (s.next q) l c.3 (ground arith) a ea)
]

-- `detach` changes only the node and those that its pointers lead to.
detach_next : (x a : ℕ) (s : Links) → x ≢ a → s.prev x ≢ some a → (detach x s).next a ≡ s.next a
unfolding detach set_next set_prev
detach_next x a s ne np = ground arith

detach_prev : (x a : ℕ) (s : Links) → x ≢ a → s.next x ≢ some a → (detach x s).prev a ≡ s.prev a
unfolding detach set_next set_prev
detach_prev x a s ne nn = ground arith

has-ne : (x q : ℕ) (l : List ℕ) → has x l ≡ true → has q l ≡ false → x ≢ q
has-ne x q l m out e = cc

pub has-erase : (x q : ℕ) (l : List ℕ) → has q l ≡ false → has q (erase x l) ≡ false
unfolding erase
has-erase x q [] out = refl
has-erase x q (y ∷ l) out = ground (arith, has-erase x q l)

-- The pointers around a node that stands second.
detach_second_next :
    (x q : ℕ) (s : Links) → s.prev x ≡ some q → x ≢ q → (detach x s).next q ≡ s.next x
unfolding detach set_next set_prev
detach_second_next x q s e ne = ground arith

detach_second_prev :
    (x n : ℕ) (s : Links) → s.next x ≡ some n → x ≢ n → (detach x s).prev n ≡ s.prev x
unfolding detach set_next set_prev
detach_second_prev x n s e ne = ground arith

detach_rest :
    (x : ℕ) (s : Links) (p h : Option ℕ) (r : List ℕ)
    → Chain s p h (x ∷ r)
    → ((a : ℕ) → has a r ≡ true → s.prev x ≢ some a)
    → Chain (detach x s) p (s.next x) r
detach_rest x s p h [] c apart = c.3
detach_rest x s p h (n ∷ r) c apart =
    let ne = has-ne n x (n ∷ r) (ground arith) c.2 in
    let n_prev = detach_second_prev x n s c.3.0 (λ z. ne (sym z)) ∙ c.1 in
    let n_next = detach_next x n s (λ z. ne (sym z)) (apart n (ground arith)) in
    (
      c.3.0,
      n_prev,
      c.3.2,
      rw n_next (
          Chain-frame s (detach x s) (some n) (s.next n) r c.3.3 λ a m. (
            detach_next x a s (λ z. has-ne a x (n ∷ r) (ground arith) c.2 (sym z))
                (apart a (ground arith)),
            detach_prev x a s (λ z. has-ne a x (n ∷ r) (ground arith) c.2 (sym z))
                (λ z. has-ne a n r m c.3.2 (ground arith)),
          )),
    )

-- Behind the first node, whatever stands before it.
detach-Chain :
    (x q : ℕ) (s : Links) (p h : Option ℕ) (l : List ℕ)
    → Chain s p h (q ∷ l)
    → has x l ≡ true
    → Chain (detach x s) p h (q ∷ erase x l)
unfolding erase
detach-Chain x q s p h [] c m = cc
detach-Chain x q s p h (y ∷ r) c m =
    let ne = has-ne x q (y ∷ r) m c.2 in
    let into_next = next-Into x s (some q) (s.next q) (y ∷ r) c.3 m in
    let q_prev : (detach x s).prev q ≡ p =
      detach_prev x q s ne (λ z. has-ne q q (y ∷ r) (into_next q z) c.2 refl) ∙ c.1 in
    elim (Bool-cases (x == y)) [
      | inl e ↦
          let same : x ≡ y = ground arith in
          let q_next : (detach x s).next q ≡ s.next x =
            detach_second_next x q s (ground arith) ne in
          let c' : Chain s (some q) (s.next q) (x ∷ r) = rw same c.3 in
          rw e (
            c.0,
            q_prev,
            ground arith,
            rw q_next (
                detach_rest x s (some q) (s.next q) r c'
                  (λ a ma z. has-ne a q (y ∷ r) (ground arith) c.2 (ground arith))),
          )
      | inr e ↦
          let m' : has x r ≡ true = ground arith in
          let into_prev = prev-Into x y s (some q) (s.next q) r c.3 m' in
          let q_next : (detach x s).next q ≡ s.next q =
            detach_next x q s ne (λ z. has-ne q q (y ∷ r) (into_prev q z) c.2 refl) in
          let rest = detach-Chain x y s (some q) (s.next q) r c.3 m' in
          let out = has-erase x q (y ∷ r) c.2 in rw e (c.0, q_prev, (ground arith), rw q_next rest)
    ]

prev-some :
    (x q : ℕ) (s : Links) (p h : Option ℕ) (l : List ℕ)
    → Chain s p h (q ∷ l)
    → has x l ≡ true
    → (z : ℕ) × (s.prev x ≡ some z)
prev-some x q s p h [] c m = cc
prev-some x q s p h (y ∷ l) c m = elim (Bool-cases (x == y)) [
  | inl e ↦ (q, ground arith)
  | inr e ↦ prev-some x y s (some q) (s.next q) l c.3 (ground arith)
]

pub erase_hit : (x y : ℕ) (r : List ℕ) → (x == y) ≡ true → erase x (y ∷ r) ≡ r
unfolding erase
erase_hit x y r e = ground arith

erase_miss : (x y : ℕ) (r : List ℕ) → (x == y) ≡ false → erase x (y ∷ r) ≡ y ∷ erase x r
unfolding erase
erase_miss x y r e = ground arith

head_kept : (o a h : Option ℕ) (z : ℕ) → o ≡ some z → head_without o a h ≡ h
head_kept o a h z e = ground arith

-- Removing a node of a list gives the list without it.
pub list_remove-Chain :
    (x : ℕ) (h : Option ℕ) (l : List ℕ) (s : Links)
    → Chain s none h l
    → has x l ≡ true
    → Chain ((list_remove x h s).1) none ((list_remove x h s).0) (erase x l)
unfolding list_remove
list_remove-Chain x h [] s c m = cc
list_remove-Chain x h (y ∷ r) s c m = elim (Bool-cases (x == y)) [
  | inl e ↦
      let same : x ≡ y = ground arith in
      let c' : Chain s none h (x ∷ r) = rw same c in
      rw (erase_hit x y r e, c'.1) (detach_rest x s none h r c' (λ a ma. ground (arith, c'.1)))
  | inr e ↦
      let m' : has x r ≡ true = ground arith in
      let z = prev-some x y s none h r c m' in
      rw (erase_miss x y r e, head_kept (s.prev x) (s.next x) h z.0 z.1)
        (detach-Chain x y s none h r c m')
]

-- The pointers of the node are NULL afterwards.
pub list_remove_cleared :
    (x : ℕ) (h : Option ℕ) (s : Links)
    → ((list_remove x h s).1.next x ≡ none) × ((list_remove x h s).1.prev x ≡ none)
unfolding list_remove detach set_next set_prev
list_remove_cleared x h s = ground arith

-- Only nodes of the list change.
pub list_remove-SameOutside :
    (x : ℕ) (h : Option ℕ) (l : List ℕ) (s : Links)
    → Chain s none h l
    → has x l ≡ true
    → SameOutside l s ((list_remove x h s).1)
unfolding list_remove
list_remove-SameOutside x h [] s c m = cc
list_remove-SameOutside x h (y ∷ r) s c m = λ a out.
    let ne = has-ne x a (y ∷ r) m out in
    let into_next = next-Into x s none h (y ∷ r) c m in
    (
      detach_next x a s ne (λ z. elim (Bool-cases (x == y)) [
        | inl e ↦ ground arith
        | inr e ↦ has-ne a a (y ∷ r) (prev-Into x y s none h r c (ground arith) a z) out refl
      ]),
      detach_prev x a s ne (λ z. has-ne a a (y ∷ r) (into_next a z) out refl),
    )

-- The node is not in what is left.
pub erase_gone :
    (x : ℕ) (s : Links) (p h : Option ℕ) (l : List ℕ) → Chain s p h l → has x (erase x l) ≡ false
unfolding erase
erase_gone x s p h [] c = refl
erase_gone x s p h (y ∷ l) c = ground (arith, erase_gone x s (some y) (s.next y) l c.3)
