-- ===== src/Control/Loop.antt =====
-- `migrate_loop` of control.c, run by the thread of a `migrate_live` or `migrate_nonlive` command.
--
-- The loop shares its state with the handlers. What a round finds (the semaphore, the sign of what
-- `demu_migrate` returns) is therefore a `Round` of a script. `none` is a loop that has not ended: the
-- script ends too early, or `sem_wait` waits for a post that does not come.
pub mod Done
use citrix_vgpu.Prelude.{
  Bool-cases, Option-cases, ℕ, ◌≡◌, Bool, true, false, Option, none, some, List, [], ◌∷◌,
  if◌then◌else◌, not, ◌==◌, ◌⊎◌, ◌≢◌, arith, inl, inr, refl,
}
use citrix_vgpu.Statefile.{
  not_ready, Rc, minus, null, plus, demu_migrate_cleanup, demu_finish_migrate,
}
use citrix_vgpu.Control.{Statefile, Control, report_completed}

pub record Round : Type 0 where
  pub semaphore : Option ℕ  -- what `sem_getvalue` gives, `none` for an error
  pub migrate : Rc  -- the first `demu_migrate` of the round
  pub wait : Option Bool  -- whether `sem_wait` returns no error, `none` if it does not return
  pub again : Rc  -- the second `demu_migrate`

-- A call of `demu_migrate`: whether `stopped` was set, and what it returned.
abbrev pub Call : Type 0
Call = Bool × Rc

-- `stopped` after the `sem_getvalue` of a round; `none` for the `break`.
abbrev pub read_stopped : Bool → Round → Option Bool
read_stopped true rd = some true
read_stopped false rd = elim rd.semaphore [ none ↦ none | some n ↦ some (not (n == 0)) ]

-- How a round ends: by leaving the loop with `r`, or with `stopped` for the next round, and with
-- the calls made; or it does not end, in `sem_wait`.
pub data RoundEnd : Type 0 where
  leave : Rc → List Call → RoundEnd
  stay : Bool → List Call → RoundEnd
  waits : RoundEnd

abbrev pub after_call : Bool → Rc → List Call → RoundEnd
after_call stopped minus calls = leave minus calls
after_call stopped null calls = leave null calls
after_call stopped plus calls = stay stopped calls

-- A round after its `sem_getvalue`.
unfoldable pub round_from : Option Bool → Round → RoundEnd
round_from none rd = leave minus []
round_from (some true) rd = after_call true rd.migrate ((true, rd.migrate) ∷ [])
round_from (some false) rd = elim rd.migrate [
  | minus ↦ leave minus ((false, minus) ∷ [])
  | plus ↦ stay false ((false, plus) ∷ [])
  | null ↦ elim rd.wait [
    | none ↦ waits
    | some true ↦ after_call true rd.again ((true, rd.again) ∷ (false, null) ∷ [])
    | some false ↦ leave minus ((false, null) ∷ [])
  ]
]

unfoldable pub one_round : Bool → Round → RoundEnd
unfolding round_from
one_round before rd = round_from (read_stopped before rd) rd

-- The `while (r > 0)`: `r` at its end, and the calls of the last round, the last one first.
unfoldable pub rounds : Bool → List Round → Option (Rc × List Call)
rounds stopped [] = none
rounds stopped (rd ∷ rest) = elim (one_round stopped rd) [
  | leave r calls ↦ some (r, calls)
  | stay stopped' calls ↦ rounds stopped' rest
  | waits ↦ none
]

-- `live` and the results of `demu_start_migrate` and of `write_footer` in `demu_finish_migrate`.
unfoldable pub migrate_loop : Bool → Bool → Bool → List Round → Control → Option Control
migrate_loop live start_ok footer_ok script c =
    if start_ok
    then elim (rounds (not live) script) [
      | none ↦ none
      | some (minus, calls) ↦
          some (report_completed false (record c { file = demu_migrate_cleanup c.file }))
      | some (_, calls) ↦
          let (f, done) = demu_finish_migrate footer_ok c.file in
          some (report_completed done (record c { file = demu_migrate_cleanup f }))
    ]
    else some (report_completed false (record c { file = demu_migrate_cleanup c.file }))

abbrev pub last_call : List Call → Option Call
last_call [] = none
last_call (x ∷ xs) = some x

-- A round leaves with 0 only after a call that returned 0 once `stopped` was set, and never with a
-- positive result.
abbrev LeavesWell : RoundEnd → Type 0
LeavesWell (leave r calls) = (r ≢ plus) × (r ≡ null → last_call calls ≡ some (true, null))
LeavesWell (stay stopped calls) = Unit {0}
LeavesWell waits = Unit {0}

round_from-LeavesWell :
    (o : Option Bool) (m : Rc) (w : Option Bool) (a : Rc) (sem : Option ℕ)
    → LeavesWell (round_from o (record { semaphore = sem; migrate = m; wait = w; again = a }))
unfolding round_from
round_from-LeavesWell none m w a sem = (λ e. cc, λ e. cc)
round_from-LeavesWell (some true) minus w a sem = (λ e. cc, λ e. cc)
round_from-LeavesWell (some true) null w a sem = (λ e. cc, λ e. refl)
round_from-LeavesWell (some true) plus w a sem = tt
round_from-LeavesWell (some false) minus w a sem = (λ e. cc, λ e. cc)
round_from-LeavesWell (some false) plus w a sem = tt
round_from-LeavesWell (some false) null none a sem = tt
round_from-LeavesWell (some false) null (some false) a sem = (λ e. cc, λ e. cc)
round_from-LeavesWell (some false) null (some true) minus sem = (λ e. cc, λ e. cc)
round_from-LeavesWell (some false) null (some true) null sem = (λ e. cc, λ e. refl)
round_from-LeavesWell (some false) null (some true) plus sem = tt

one_round-LeavesWell : (stopped : Bool) (rd : Round) → LeavesWell (one_round stopped rd)
unfolding one_round
one_round-LeavesWell stopped rd =
    round_from-LeavesWell (read_stopped stopped rd) rd.migrate rd.wait rd.again rd.semaphore

RoundEnd-cases :
    (e : RoundEnd)
    → ((r : Rc) × (calls : List Call) × (e ≡ leave r calls))
      ⊎ ((st : Bool) × (calls : List Call) × (e ≡ stay st calls))
      ⊎ (e ≡ waits)
RoundEnd-cases (leave r calls) = inl (r, calls, refl)
RoundEnd-cases (stay st calls) = inr (inl (st, calls, refl))
RoundEnd-cases waits = inr (inr refl)

-- The loop never ends with a positive result, and it ends with 0 only if its last call of
-- `demu_migrate` returned 0 and was made after the pause was seen.
pub rounds_after_pause :
    (stopped : Bool) (script : List Round) (r : Rc) (calls : List Call)
    → rounds stopped script ≡ some (r, calls)
    → (r ≢ plus) × (r ≡ null → last_call calls ≡ some (true, null))
unfolding rounds
rounds_after_pause stopped [] r calls h = absurd (cc)
rounds_after_pause stopped (rd ∷ rest) r calls h = elim (RoundEnd-cases (one_round stopped rd)) [
  | inl (r', cs, e) ↦
      let w : LeavesWell (leave r' cs) = rw e at (one_round-LeavesWell stopped rd) in
      ground (arith, w.0, w.1)
  | inr (inl (st, cs, e)) ↦ rounds_after_pause st rest r calls (ground arith)
  | inr (inr e) ↦ absurd (ground arith)
]

-- A script in which some round has no call that asks for another round, and no `sem_wait` of a live
-- migration up to then waits for ever.
abbrev pub HasLast : Bool → List Round → Type 0
HasLast live [] = ⊥
HasLast live (rd ∷ rest) =
    (live ≡ true → rd.wait ≢ none) × (((rd.migrate ≢ plus) × (rd.again ≢ plus)) ⊎ HasLast live rest)

one_round_last :
    (stopped : Bool) (rd : Round) (st : Bool) (calls : List Call)
    → rd.migrate ≢ plus
    → rd.again ≢ plus
    → one_round stopped rd ≢ stay st calls
unfolding one_round round_from
one_round_last stopped rd st calls m a e = ground arith

-- Only a round that has not seen the pause waits.
one_round_waits :
    (stopped : Bool) (rd : Round)
    → one_round stopped rd ≡ waits
    → (stopped ≡ false) × (rd.wait ≡ none)
unfolding one_round round_from
one_round_waits stopped rd e = ground arith

-- The pause, once seen, stays.
one_round_stays :
    (stopped : Bool) (rd : Round) (st : Bool) (calls : List Call)
    → one_round stopped rd ≡ stay st calls
    → st ≡ false
    → stopped ≡ false
unfolding one_round round_from
one_round_stays true rd st calls e f = absurd (ground arith)
one_round_stays false rd st calls e f = refl

rounds_last :
    (live stopped : Bool) (script : List Round)
    → (stopped ≡ false → live ≡ true)
    → HasLast live script
    → (r : Rc) × (calls : List Call) × (rounds stopped script ≡ some (r, calls))
unfolding rounds
rounds_last live stopped [] s h = absurd h
rounds_last live stopped (rd ∷ rest) s h = elim (RoundEnd-cases (one_round stopped rd)) [
  | inl (r, cs, e) ↦ (r, cs, ground arith)
  | inr (inl (st, cs, e)) ↦ elim h.1 [
    | inl (m, a) ↦ absurd (one_round_last stopped rd st cs m a e)
    | inr later ↦
        let kept : st ≡ false → live ≡ true = λ f. s (one_round_stays stopped rd st cs e f) in
        let (r, cs', e') = rounds_last live st rest kept later in (r, cs', ground arith)
  ]
  | inr (inr e) ↦ let (n, w) = one_round_waits stopped rd e in absurd (h.0 (s n) w)
]

-- The loop ends, by the first round, at the latest, in which no call of `demu_migrate` returns a
-- positive number, if the script has one and, in a live migration, `sem_wait` returns in the rounds
-- up to then. A non-live migration needs nothing of `sem_wait`.
pub rounds_end :
    (live : Bool) (script : List Round)
    → HasLast live script
    → (r : Rc) × (calls : List Call) × (rounds (not live) script ≡ some (r, calls))
rounds_end live script h = rounds_last live (not live) script (λ e. ground arith) h
