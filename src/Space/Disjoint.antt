-- ===== src/Space/Disjoint.antt =====
-- Lists of spaces that do not overlap: the invariant under which the registry is a map from
-- addresses to spaces.
use citrix_vgpu.Prelude.{
  ℕ, ◌≤◌, ◌<◌, ◌≡◌, refl, Bool, false, ◌&&◌, Option, none, some, List, [], ◌∷◌, arith, leb,
  if◌then◌else◌, ◌⊎◌, ◌==◌, ◌≢◌, Bool-cases, Option-cases, sym, inl, inr,
}
use citrix_vgpu.Space.{Space, contains, demu_find_space, demu_register_space, demu_deregister_space}
use citrix_vgpu.Space.Find.{Covers}

module _ {Ops : Type 0} where
  abbrev pub Apart : Space Ops → Space Ops → Type 0
  Apart s t = (s.end < t.start) ⊎ (t.end < s.start)

  abbrev pub All {ℓ} : (Space Ops → Type ℓ) → List (Space Ops) → Type ℓ
  All P [] = Unit
  All P (s ∷ l) = P s × All P l

  -- Every space has an address, and no two share one.
  abbrev pub Disjoint : List (Space Ops) → Type 0
  Disjoint [] = Unit
  Disjoint (s ∷ l) = (s.start ≤ s.end) × All (Apart s) l × Disjoint l

  -- No space of the list lies within `start` to `end`.
  abbrev pub NoneInside : ℕ → ℕ → List (Space Ops) → Type 0
  NoneInside start end = All (λ s. (s.start < start) ⊎ (end < s.end))

  register-Apart :
      (l : List (Space Ops)) (start end : ℕ) (new : Space Ops)
      → new.start ≡ start
      → new.end ≡ end
      → start ≤ end
      → Disjoint l
      → demu_find_space l start ≡ none
      → demu_find_space l end ≡ none
      → NoneInside start end l
      → All (Apart new) l
  unfolding demu_find_space
  register-Apart [] start end new es ee le d hs he n = tt
  register-Apart (s ∷ l) start end new es ee le d hs he n =
      ground (arith, register-Apart l start end new es ee le)

  -- A successful `demu_register_space` keeps a list disjoint, if no space of it lies inside the new
  -- range, whose start is not above its end.
  pub demu_register_space-Disjoint :
      (ok : Bool) (l : List (Space Ops)) (start end : ℕ) (ops : Ops) {l' : List (Space Ops)}
      → start ≤ end
      → Disjoint l
      → NoneInside start end l
      → demu_register_space ok l start end ops ≡ some l'
      → Disjoint l'
  unfolding demu_register_space
  demu_register_space-Disjoint ok l start end ops le d n h = ground (
    arith,
    register-Apart l start end (record { start = start; end = end; ops = ops; io_init = false })
        refl refl le d,
  )

  find-Apart :
      (l : List (Space Ops)) (s : Space Ops) (a : ℕ)
      → All (Apart s) l
      → Covers s a
      → demu_find_space l a ≡ none
  unfolding demu_find_space
  find-Apart [] s a ap c = refl
  find-Apart (t ∷ l) s a ap c = ground (arith, find-Apart l s a)

  keep_look :
      (s t : Space Ops) (start a e : ℕ) (o o' : Option (Space Ops))
      → o' ≡ (if leb start a && leb a e then none else o)
      → t.start ≡ start
      → t.end ≡ e
      → Apart s t
      → (if contains s a then some s else o')
        ≡ (if leb start a && leb a e then none else if contains s a then some s else o)
  keep_look s t start a e o o' look es ee ap = ground arith

  -- What `demu_deregister_space` did at the head of a list.
  deregister_cases :
      (s : Space Ops) (l : List (Space Ops)) (start e : ℕ) (l' : List (Space Ops))
      → demu_deregister_space (s ∷ l) start ≡ some (e, l')
      → ((start ≡ s.start) × (e ≡ s.end) × (l' ≡ l))
        ⊎ ((r : List (Space Ops)) × (start ≢ s.start)
            × (demu_deregister_space l start ≡ some (e, r))
            × (l' ≡ s ∷ r))
  unfolding demu_deregister_space
  deregister_cases s l start e l' h = elim (Bool-cases (start == s.start)) [
    | inl same ↦ inl (ground arith, ground arith, ground arith)
    | inr other ↦ elim (Option-cases (demu_deregister_space l start)) [
      | inl n ↦ absurd (ground arith)
      | inr (r, q) ↦ inr (r.1, ground arith, ground arith, ground arith)
    ]
  ]

  deregister_All {ℓ} :
      (P : Space Ops → Type ℓ) (l : List (Space Ops)) (start e : ℕ) (l' : List (Space Ops))
      → All P l
      → demu_deregister_space l start ≡ some (e, l')
      → ((t : Space Ops) × (t.start ≡ start) × (t.end ≡ e) × P t) × All P l'
  unfolding demu_deregister_space
  deregister_All P [] start e l' p h = absurd (cc)
  deregister_All P (s ∷ l) start e l' p h = elim (deregister_cases s l start e l' h) [
    | inl (es, ee, el) ↦ ((s, sym es, sym ee, p.0), rw el p.1)
    | inr (r, ne, q, el) ↦
        let (t, rest) = deregister_All P l start e r p.1 q in (t, rw el (p.0, rest))
  ]

  -- In a disjoint list `demu_deregister_space` takes out the addresses of one space, which begins
  -- at `start`, leaves every other lookup as it was, and keeps the list disjoint.
  pub demu_find_space-demu_deregister_space :
      (l : List (Space Ops)) (start e : ℕ) (l' : List (Space Ops))
      → Disjoint l
      → demu_deregister_space l start ≡ some (e, l')
      → ((a : ℕ)
          → demu_find_space l' a ≡ (if leb start a && leb a e then none else demu_find_space l a))
        × Disjoint l'
  unfolding demu_find_space
  demu_find_space-demu_deregister_space [] start e l' d h =
      absurd (unfold demu_deregister_space in cc)
  demu_find_space-demu_deregister_space (s ∷ l) start e l' d h =
      elim (deregister_cases s l start e l' h) [
        | inl (es, ee, el) ↦ (λ a. ground (arith, find-Apart l s a d.1), rw el d.2)
        | inr (r, ne, q, el) ↦
            let (look, dis) = demu_find_space-demu_deregister_space l start e r d.2 q in
            let (t, ap) = deregister_All (Apart s) l start e r d.1 q in
            (λ a. rw el (keep_look s t.0 start a e _ _ (look a) t.1 t.2 t.3), rw el (d.0, ap, dis))
      ]

  -- A space that begins in the list is taken out: `assert(false)` is not reached.
  pub demu_deregister_space_total :
      (l : List (Space Ops)) (a : ℕ) (s : Space Ops)
      → demu_find_space l a ≡ some s
      → demu_deregister_space l s.start ≢ none
  unfolding demu_find_space demu_deregister_space
  demu_deregister_space_total [] a s f = cc
  demu_deregister_space_total (t ∷ l) a s f = ground (arith, demu_deregister_space_total l a s)

  none_starts :
      (l : List (Space Ops)) (s : Space Ops) (start : ℕ)
      → All (Apart s) l
      → Disjoint l
      → Covers s start
      → demu_deregister_space l start ≡ none
  unfolding demu_deregister_space
  none_starts [] s start ap d c = refl
  none_starts (t ∷ l) s start ap d c = ground (arith, none_starts l s start)

  -- In a disjoint list, only the space that covers `start` can begin there.
  pub demu_deregister_space_inside :
      (l : List (Space Ops)) (start : ℕ) (s : Space Ops)
      → Disjoint l
      → demu_find_space l start ≡ some s
      → s.start ≢ start
      → demu_deregister_space l start ≡ none
  unfolding demu_find_space demu_deregister_space
  demu_deregister_space_inside [] start s d f ne = refl
  demu_deregister_space_inside (t ∷ l) start s d f ne =
      ground (arith, none_starts l t start d.1 d.2, demu_deregister_space_inside l start s d.2)
