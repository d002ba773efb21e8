-- ===== src/Log/Last.antt =====
-- What `demu_dump_context` of demu.c writes after some messages.
use citrix_vgpu.Prelude.{
  sym, ℕ, zero, suc, ◌+◌, ◌-◌, ◌%◌, ◌≡◌, ◌<◌, ◌≤◌, refl, ap, ◌∙◌, false, List, [], ◌∷◌, ltb, ◌==◌,
  if◌then◌else◌, length, take, min, arith,
}
use mathlib.Core.Path.{subst}
use citrix_vgpu.Log.{Ring, max_spam, demu_log_context, dump_loop, demu_dump_context, update_at}

-- The place before a place
abbrev before : ℕ → ℕ
before pos = (if pos == 0 then max_spam else pos) - 1

-- The places `n` back from `pos` do not reach `i`.
abbrev Misses : ℕ → ℕ → ℕ → Type 0
Misses zero pos i = Unit
Misses (suc n) pos i = ((before pos == i) ≡ false) × Misses n (before pos) i

misses : (n d i pos : ℕ) → i < 6 → pos ≡ (i + 6 - d) % 6 → d + n ≤ 5 → Misses n pos i
misses zero d i pos b e h = tt
misses (suc n) d i pos b e h =
    (ground arith, misses n (d + 1) i (before pos) b (ground arith) (omega arith))

module _ {Msg : Type 0} where
  -- The messages logged, the last first
  unfoldable pub log_all : List Msg → Ring Msg → Ring Msg
  log_all [] r = r
  log_all (msg ∷ l) r = demu_log_context msg (log_all l r)

  -- `n` places back from `pos` stand the first `n` messages of `l`.
  abbrev Keeps : ℕ → ℕ → (ℕ → Msg) → List Msg → Type 0
  Keeps zero pos buff l = Unit
  Keeps (suc n) pos buff [] = ⊥
  Keeps (suc n) pos buff (msg ∷ l) = (buff (before pos) ≡ msg) × Keeps n (before pos) buff l

  Keeps-update_at :
      (n pos i : ℕ) (msg : Msg) (buff : ℕ → Msg) (l : List Msg)
      → Misses n pos i
      → Keeps n pos buff l
      → Keeps n pos (update_at buff i msg) l
  Keeps-update_at zero pos i msg buff l m k = tt
  Keeps-update_at (suc n) pos i msg buff [] m k = k
  Keeps-update_at (suc n) pos i msg buff (x ∷ l) (e, m) (k, ks) =
      (rw e k, Keeps-update_at n (before pos) i msg buff l m ks)

  dump_loop-Keeps :
      (n pos : ℕ) (buff : ℕ → Msg) (l : List Msg)
      → Keeps n pos buff l
      → dump_loop n pos buff ≡ take n l
  unfolding dump_loop
  dump_loop-Keeps zero pos buff l k = refl
  dump_loop-Keeps (suc n) pos buff [] k = absurd k
  dump_loop-Keeps (suc n) pos buff (msg ∷ l) (e, k) =
      rw e (ap (λ (t : List Msg). msg ∷ t) (dump_loop-Keeps n (before pos) buff l k))

  none_kept : (n pos : ℕ) (buff : ℕ → Msg) → n ≡ 0 → Keeps n pos buff []
  none_kept zero pos buff e = tt
  none_kept (suc n) pos buff e = absurd (omega arith)

  take_short : (n m : ℕ) (l : List Msg) → n ≡ min m (length l) → take n l ≡ take m l
  take_short zero zero l e = refl
  take_short zero (suc m) [] e = refl
  take_short zero (suc m) (x ∷ l) e = absurd (omega arith)
  take_short (suc n) m [] e = absurd (omega arith)
  take_short (suc n) zero (x ∷ l) e = absurd (omega arith)
  take_short (suc n) (suc m) (x ∷ l) e =
      ap (λ (t : List Msg). x ∷ t) (take_short n m l (omega arith))

  -- The ring after the messages `l`
  record Logged (l : List Msg) (r : Ring Msg) : Type 0 where
    in_ring : r.pos < 6
    sized : r.size ≡ min 7 (length l)
    kept : (n : ℕ) → n ≤ 6 → n ≤ length l → Keeps n r.pos r.buff l

  next_Keeps :
      (n pos pos' : ℕ) (msg : Msg) (buff : ℕ → Msg) (l : List Msg)
      → pos < 6
      → n ≤ 5
      → before pos' ≡ pos
      → Keeps n pos buff l
      → Keeps (suc n) pos' (update_at buff pos msg) (msg ∷ l)
  next_Keeps n pos pos' msg buff l b small e k =
      let here : update_at buff pos msg pos ≡ msg = ground arith in
      let behind =
        Keeps-update_at n pos pos msg buff l (misses n 0 pos pos b (omega arith) (omega arith)) k in
      subst (λ (t : ℕ). (update_at buff pos msg t ≡ msg) × Keeps n t (update_at buff pos msg) l)
        (sym e) (here, behind)

  log_kept :
      (l : List Msg) (msg : Msg) (r : Ring Msg) (n : ℕ)
      → Logged l r
      → n ≤ 6
      → n ≤ suc (length l)
      → Keeps n (demu_log_context msg r).pos (demu_log_context msg r).buff (msg ∷ l)
  unfolding demu_log_context
  log_kept l msg r zero h a b = tt
  log_kept l msg r (suc n) h a b =
      next_Keeps n r.pos (if r.pos + 1 == max_spam then 0 else r.pos + 1) msg r.buff l h.in_ring
        (omega arith) (let p = h.in_ring in ground arith) (h.kept n (omega arith) (omega arith))

  demu_log_context-Logged :
      (l : List Msg) (msg : Msg) (r : Ring Msg)
      → Logged l r
      → Logged (msg ∷ l) (demu_log_context msg r)
  unfolding demu_log_context
  demu_log_context-Logged l msg r h = record {
    in_ring = ground arith;
    sized = ground arith;
    kept = λ n a b. log_kept l msg r n h a b;
  }

  log_all-Logged : (l : List Msg) (r : Ring Msg) → r.pos < 6 → r.size ≡ 0 → Logged l (log_all l r)
  unfolding log_all
  log_all-Logged [] r b z = record {
    in_ring = b;
    sized = omega arith;
    kept = λ n a c. none_kept n r.pos r.buff (omega arith);
  }
  log_all-Logged (msg ∷ l) r b z =
      demu_log_context-Logged l msg (log_all l r) (log_all-Logged l r b z)

  -- After any number of messages to a ring that is empty, `demu_dump_context` writes the last six of
  -- them, or all if there are fewer, the last first, "..." before them exactly when there were more
  -- than six, and leaves an empty ring.
  pub demu_dump_context-log_all :
      (l : List Msg) (r : Ring Msg)
      → r.pos < 6
      → r.size ≡ 0
      → ((demu_dump_context (log_all l r)).0 ≡ ltb 6 (length l))
        × ((demu_dump_context (log_all l r)).1 ≡ take 6 l)
        × ((demu_dump_context (log_all l r)).2.size ≡ 0)
  unfolding demu_dump_context
  demu_dump_context-log_all l r b z =
      let h = log_all-Logged l r b z in
      let n : ℕ = min 6 (length l) in
      let k = h.kept n (omega arith) (omega arith) in
      let count : (if ltb max_spam (log_all l r).size
            then (log_all l r).size - 1
            else (log_all l r).size)
          ≡ n =
        ground (arith, h.sized) in
      (
        ground (arith, h.sized),
        ap (λ (t : ℕ). dump_loop t (log_all l r).pos (log_all l r).buff) count
            ∙ dump_loop-Keeps n (log_all l r).pos (log_all l r).buff l k
            ∙ take_short n 6 l refl,
        refl,
      )
