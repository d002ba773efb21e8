-- ===== src/Stream/Write.antt =====
-- `do_write` of demu.c: at most one asynchronous write is under way, and each call first waits for
-- the one before.
--
-- `content` is what the file holds, or what has gone through the socket; `offset` is
-- `statefile_offset`, `none` for a socket, on which `aio_offset` has no effect. A write has happened
-- when `aio_return` says so.
pub mod Flushed
use mathlib.Core.Path.{subst}
use mathlib.Core.List.{append_assoc, append-nil}
use citrix_vgpu.Prelude.{
  ap₂, ap, zero, suc, refl, Option-cases, ◌≤◌, ◌⊎◌, inr, inl, Bool-cases, ◌∙◌, sym, arith, ◌≡◌, ◌≢◌,
  ℕ, ◌+◌, Bool, true, false, Option, none, some, List, [], ◌∷◌, ◌++◌, length, take, drop, replicate,
  length-append, ◌-◌, ◌==◌, if◌then◌else◌,
}

-- The static `current_cb`, and the fields of `demu_state` that take part
pub record Writer : Type 0 where
  pub cb_fd : ℕ
  pub cb_buf : List ℕ
  pub cb_offset : ℕ
  pub fd : ℕ
  pub offset : Option ℕ
  pub migrate_abort : Bool
  pub content : List ℕ

-- What the kernel answers in one call: `aio_suspend` returns no error; what `aio_return` returns,
-- `none` for an error; `aio_write` returns no error.
pub record Answer : Type 0 where
  pub suspend_ok : Bool
  pub returned : Option ℕ
  pub submit_ok : Bool

-- A buffer written at a place of a file, which zeros fill up to there.
unfoldable pub write_at : ℕ → List ℕ → List ℕ → List ℕ
write_at o buf file =
    take o file ++ (replicate (o - length file) 0 ++ (buf ++ drop (o + length buf) file))

-- What the bytes of `current_cb` do
unfoldable pub written_to : Writer → List ℕ → List ℕ
written_to w buf = elim w.offset [
  | none ↦ w.content ++ buf
  | some o ↦ write_at w.cb_offset buf w.content
]

-- The part of `do_write` for a write that is under way, and whether the call goes on.
unfoldable pub finish_current : Answer → Writer → Writer × Bool
finish_current a w =
    if w.cb_fd == w.fd
    then (if a.suspend_ok
        then elim a.returned [
          | none ↦ (w, false)
          | some n ↦
              if n == length w.cb_buf
              then (
                record w { cb_fd = 0; cb_buf = []; cb_offset = 0; content = written_to w w.cb_buf },
                true,
              )
              else (record w { content = written_to w (take n w.cb_buf) }, false)
        ]
        else (w, false))
    else (w, true)

-- The submission of a buffer of `length buf` bytes
unfoldable pub submit : Bool → List ℕ → Writer → Writer × Bool
submit submit_ok buf w =
    let w' = record w {
      cb_fd = w.fd;
      cb_buf = buf;
      cb_offset = elim w.offset [ none ↦ 0 | some o ↦ o ];
    } in
    if submit_ok
    then (
      record w' { offset = elim w.offset [ none ↦ none | some o ↦ some (o + length buf) ] },
      true,
    )
    else (w', false)

abbrev pub is_empty : List ℕ → Bool
is_empty [] = true
is_empty (b ∷ l) = false

-- `true` is a return of 0.
unfoldable pub do_write : Answer → List ℕ → Writer → Writer × Bool
do_write a buf w =
    let (w1, on) = finish_current a w in
    if on
    then (if is_empty buf
        then (w1, true)
        else if w1.migrate_abort
        then (w1, false)
        else submit a.submit_ok buf w1)
    else (w1, false)

-- Calls of `do_write`, each with its answers, up to the first that fails
unfoldable pub do_writes : List (Answer × List ℕ) → Writer → Writer × Bool
do_writes [] w = (w, true)
do_writes ((a, buf) ∷ l) w =
    let (w1, done) = do_write a buf w in
    let rest = do_writes l w1 in if done then rest else (w1, false)

abbrev pub all_of : List (Answer × List ℕ) → List ℕ
all_of [] = []
all_of ((a, buf) ∷ l) = buf ++ all_of l

-- The bytes that are under way
abbrev pub under_way : Writer → List ℕ
under_way w = if w.cb_fd == w.fd then w.cb_buf else []
