-- ===== src/Control/Loop/Done.antt =====
-- What `migrate_loop` of control.c has done when it ends: the events, the stream, the outcome.
use citrix_vgpu.Prelude.{
  ℕ, suc, ◌≡◌, Bool, true, false, none, some, List, [], ◌∷◌, if◌then◌else◌, not, ◌==◌, ◌&&◌, ◌||◌,
  ◌⊎◌,
}
use citrix_vgpu.Statefile.{not_ready, null}
use citrix_vgpu.Control.{Statefile, Control, Message, completed, same_client}
use citrix_vgpu.Control.Loop.{Round, Call, rounds, last_call}

-- Whether a message is the completion event to a client with an outcome
abbrev pub is_event : ℕ → Bool → Message → Bool
is_event n ok (completed (some m) done) = n == m && (if done then ok else not ok)
is_event n ok _ = false

abbrev pub events : ℕ → Bool → List Message → ℕ
events n ok [] = 0
events n ok (m ∷ l) = let rest = events n ok l in if is_event n ok m then suc rest else rest

-- The clients that wait for the end of a migration: the one that started it, and the one that asked
-- for its progress.
abbrev pub awaits : ℕ → Control → Bool
awaits n c = same_client (some n) c.initiator_cli || same_client (some n) c.progress_cli

-- The completion events have been sent with the outcome `ok`: each client that waits has got one more,
-- and no client one with the other outcome. Apart from this only the stream has changed, and it is
-- closed.
pub record IsReported (ok : Bool) (c c' : Control) : Type 0 where
  pub told :
      (n : ℕ)
      → events n ok c'.sent ≡ (if awaits n c then suc (events n ok c.sent) else events n ok c.sent)
  pub no_other : (n : ℕ) → events n (not ok) c'.sent ≡ events n (not ok) c.sent
  pub same : c' ≡ record c { file = c'.file; sent = c'.sent }
  pub closed : (c'.file.mode ≡ not_ready) × (c'.file.fd ≡ none)

-- What a finished `migrate_loop` has done. A success meets its conditions.
pub record LoopDone (live start_ok footer_ok : Bool) (script : List Round) (c c' : Control)
    : Type 0 where
  pub ok : Bool
  pub reported : IsReported ok c c'
  pub outcome :
      (ok ≡ false)
      ⊎ ((start_ok ≡ true)
          × (footer_ok ≡ true)
          × ((calls : List Call) × (rounds (not live) script ≡ some (null, calls))
              × (last_call calls ≡ some (true, null))))
