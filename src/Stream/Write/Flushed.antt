-- ===== src/Stream/Write/Flushed.antt =====
-- What a file or socket holds after calls of `do_write` that succeed.
use mathlib.Core.Path.{subst}
use mathlib.Core.List.{append_assoc, append-nil}
use citrix_vgpu.Prelude.{
  ap₂, ap, zero, suc, refl, Option-cases, ◌≤◌, ◌⊎◌, inr, inl, Bool-cases, ◌∙◌, sym, arith, ◌≡◌, ◌≢◌,
  ℕ, ◌+◌, Bool, true, Option, none, some, List, [], ◌∷◌, ◌++◌, length, take, drop, length-append,
  ◌-◌, ◌==◌,
}
use citrix_vgpu.Stream.Write.{
  Writer, Answer, write_at, written_to, finish_current, submit, do_write, do_writes, all_of,
  under_way,
}

-- The file ends where the next write goes, or the one under way; nothing is asked of a socket.
abbrev pub AtEnd : Writer → Type 0
AtEnd w =
    (o : ℕ)
    → w.offset ≡ some o
    → (o ≡ length w.content + length (under_way w))
      × (w.cb_fd ≡ w.fd → w.cb_offset ≡ length w.content)

drop_all : (l : List ℕ) (n : ℕ) → length l ≤ n → drop n l ≡ []
drop_all [] zero h = refl
drop_all [] (suc n) h = refl
drop_all (x ∷ l) zero h = absurd (omega arith)
drop_all (x ∷ l) (suc n) h = drop_all l n (omega arith)

take_all : (l : List ℕ) → take (length l) l ≡ l
take_all [] = refl
take_all (x ∷ l) = ap (λ t. x ∷ t) (take_all l)

write_at_end : (buf file : List ℕ) → write_at (length file) buf file ≡ file ++ buf
unfolding write_at
write_at_end buf file =
    let gap : length file - length file ≡ 0 = omega arith in
    rw (take_all file, gap, drop_all file (length file + length buf) (omega arith), append-nil buf)
      refl

written_end :
    (w : Writer) (buf : List ℕ) → AtEnd w → w.cb_fd ≡ w.fd → written_to w buf ≡ w.content ++ buf
unfolding written_to
written_end w buf at same = elim (Option-cases w.offset) [
  | inl e ↦ ground arith
  | inr (o, e) ↦ ground (arith, (at o e).1 same, write_at_end buf w.content)
]

abbrev finished : Writer → Writer
finished w = record w { cb_fd = 0; cb_buf = []; cb_offset = 0; content = written_to w w.cb_buf }

finish_current_cases :
    (a : Answer) (w w1 : Writer)
    → finish_current a w ≡ (w1, true)
    → ((w.cb_fd ≡ w.fd) × (finished w ≡ w1)) ⊎ ((w.cb_fd ≢ w.fd) × (w ≡ w1))
unfolding finish_current
finish_current_cases a w w1 h = elim (Bool-cases (w.cb_fd == w.fd)) [
  | inl same ↦ elim (Option-cases a.returned) [
    | inl r ↦ absurd (ground arith)
    | inr (n, r) ↦ inl (ground arith)
  ]
  | inr other ↦ inr (ground arith)
]

-- What a call finds once the write before it is done
abbrev Flushed : Writer → Writer → Type 0
Flushed w w1 =
    (w1.content ≡ w.content ++ under_way w)
    × (w1.cb_fd ≢ w1.fd)
    × (w1.fd ≡ w.fd)
    × ((o : ℕ) → w1.offset ≡ some o → o ≡ length w1.content)

finish_current_done :
    (a : Answer) (w w1 : Writer)
    → w.fd ≢ 0
    → AtEnd w
    → finish_current a w ≡ (w1, true)
    → Flushed w w1
finish_current_done a w w1 n at h = elim (finish_current_cases a w w1 h) [
  | inl (same, e) ↦
      let grown = written_end w w.cb_buf at same in
      subst (Flushed w) e (
        ground arith,
        (λ z. n (sym z)),
        refl,
        (λ o f. ground (arith, (at o f).0, length-append w.content w.cb_buf)),
      )
  | inr (other, e) ↦
      subst (Flushed w) e
        (ground (arith, append-nil w.content), other, refl, (λ o f. ground (arith, (at o f).0)))
]

-- What a submission leaves
abbrev Sent : List ℕ → Writer → Writer → Type 0
Sent buf w w1 = (w1.content ≡ w.content) × (under_way w1 ≡ buf) × (w1.fd ≡ w.fd) × AtEnd w1

abbrev submitted : List ℕ → ℕ → Option ℕ → Writer → Writer
submitted buf place next w = record w {
  cb_fd = w.fd;
  cb_buf = buf;
  cb_offset = place;
  offset = next;
}

submit_done :
    (ok : Bool) (buf : List ℕ) (w w1 : Writer)
    → ((o : ℕ) → w.offset ≡ some o → o ≡ length w.content)
    → submit ok buf w ≡ (w1, true)
    → Sent buf w w1
unfolding submit
submit_done ok buf w w1 at h = elim (Option-cases w.offset) [
  | inl e ↦
      let same : submitted buf 0 none w ≡ w1 = ground arith in
      subst (Sent buf w) same (refl, ground arith, refl, λ o f. absurd (ground arith))
  | inr (o, e) ↦
      let same : submitted buf o (some (o + length buf)) w ≡ w1 = ground arith in
      let here = at o e in
      subst (Sent buf w) same (refl, ground arith, refl, λ o' f. (ground (arith, here), λ z. here))
]

-- A call that returns 0 has finished the write before it, and its own bytes are under way.
abbrev Written : List ℕ → Writer → Writer → Type 0
Written buf w w' =
    (w'.content ≡ w.content ++ under_way w) × (under_way w' ≡ buf) × (w'.fd ≡ w.fd) × AtEnd w'

empty_call : (w w1 : Writer) → Flushed w w1 → Written [] w w1
empty_call w w1 f =
    (f.0, ground (arith, f.1), f.2, λ o e. (ground (arith, f.1, f.3 o e), λ z. absurd (f.1 z)))

data_call : (buf : List ℕ) (w w1 w' : Writer) → Flushed w w1 → Sent buf w1 w' → Written buf w w'
data_call buf w w1 w' f s = (s.0 ∙ f.0, s.1, s.2 ∙ f.2, s.3)

goes_on :
    (a : Answer) (b : ℕ) (l : List ℕ) (w w' : Writer)
    → (finish_current a w).1 ≡ true
    → do_write a (b ∷ l) w ≡ (w', true)
    → submit a.submit_ok (b ∷ l) (finish_current a w).0 ≡ (w', true)
unfolding do_write
goes_on a b l w w' e h = ground arith

ends_here :
    (a : Answer) (w w' : Writer)
    → (finish_current a w).1 ≡ true
    → do_write a [] w ≡ (w', true)
    → (finish_current a w).0 ≡ w'
unfolding do_write
ends_here a w w' e h = ground arith

on_true :
    (a : Answer) (buf : List ℕ) (w w' : Writer)
    → do_write a buf w ≡ (w', true)
    → (finish_current a w).1 ≡ true
unfolding do_write
on_true a buf w w' h = ground arith

do_write_done :
    (a : Answer) (buf : List ℕ) (w w' : Writer)
    → w.fd ≢ 0
    → AtEnd w
    → do_write a buf w ≡ (w', true)
    → Written buf w w'
do_write_done a buf w w' n at h =
    let w1 = (finish_current a w).0 in
    let on = on_true a buf w w' h in
    let f = finish_current_done a w w1 n at (ap (λ (t : Bool). (w1, t)) on) in go buf w1 refl f on h
  where
    go :
        (buf : List ℕ) (w1 : Writer)
        → (finish_current a w).0 ≡ w1
        → Flushed w w1
        → (finish_current a w).1 ≡ true
        → do_write a buf w ≡ (w', true)
        → Written buf w w'
    go [] w1 same f on h =
        subst (Written [] w) (sym same ∙ ends_here a w w' on h) (empty_call w w1 f)
    go (b ∷ l) w1 same f on h = data_call (b ∷ l) w w1 w' f (
        submit_done a.submit_ok (b ∷ l) w1 w' f.3
          (ap (submit a.submit_ok (b ∷ l)) (sym same) ∙ goes_on a b l w w' on h))

under_way_lem :
    (l : List (Answer × List ℕ)) (w w' : Writer)
    → w.fd ≢ 0
    → AtEnd w
    → do_writes l w ≡ (w', true)
    → (w'.content ++ under_way w' ≡ (w.content ++ under_way w) ++ all_of l)
      × (w'.fd ≡ w.fd)
      × AtEnd w'
unfolding do_writes
under_way_lem [] w w' n at h =
    let same : w ≡ w' = ground arith in
    subst
      (λ v. (v.content ++ under_way v ≡ (w.content ++ under_way w) ++ []) × (v.fd ≡ w.fd) × AtEnd v)
      same (sym (append-nil (w.content ++ under_way w)), refl, at)
under_way_lem ((a, buf) ∷ l) w w' n at h =
    let (w1, done) = do_write a buf w in
    elim (Bool-cases done) [
      | inl e ↦
          let (c, u, f, at1) =
            do_write_done a buf w w1 n at (ap (λ (t : Bool). ((do_write a buf w).0, t)) e) in
          let (ih, same, at') = under_way_lem l w1 w' (λ z. n (sym f ∙ z)) at1 (ground arith) in
          (
            ih
                ∙ ap (λ (t : List ℕ). t ++ all_of l) (ap₂ (λ (x y : List ℕ). x ++ y) c u)
                ∙ append_assoc (w.content ++ under_way w) buf (all_of l),
            same ∙ f,
            at',
          )
      | inr e ↦ absurd (ground arith)
    ]

-- If a sequence of calls of `do_write` and the final one without data, the flush of `write_footer`,
-- all return 0, then the file or the socket holds what it held at their start, with what was under way
-- then, and after it the bytes of every call, in order, each once. The descriptor is not 0, which the
-- idle `current_cb` holds, and a file ends where its next write goes.
pub do_writes_flushed :
    (l : List (Answer × List ℕ)) (a : Answer) (w w1 w2 : Writer)
    → w.fd ≢ 0
    → AtEnd w
    → do_writes l w ≡ (w1, true)
    → do_write a [] w1 ≡ (w2, true)
    → w2.content ≡ (w.content ++ under_way w) ++ all_of l
do_writes_flushed l a w w1 w2 n at h f =
    let (c, same, at1) = under_way_lem l w w1 n at h in
    (do_write_done a [] w1 w2 (λ e. n (sym same ∙ e)) at1 f).0 ∙ c
