-- ===== src/Startup/Triples.antt =====
-- Conditions before and after the parts of `demu_initialize` of demu.c.
use citrix_vgpu.Startup.{Daemon, Outcome, success, failure, waiting, Act, and_then, ◌>>◌}

-- A part ends well with `Q`, or stops with `T`; no assertion fails.
pub data Good (T Q : Daemon → Type 0) : Daemon × Outcome → Type 0 where
  done : (d : Daemon) → Q d → Good T Q (d, success)
  failed : (d : Daemon) → T d → Good T Q (d, failure)
  waits : (d : Daemon) → T d → Good T Q (d, waiting)

-- Where `P` holds, the part `m` ends well with `Q`, or stops with `T`.
pub record Runs (T P Q : Daemon → Type 0) (m : Act) : Type 0 where
  pub run : (d : Daemon) → P d → Good T Q (m d)

module _ {T : Daemon → Type 0} where
  pub Good-and_then :
      {P Q : Daemon → Type 0} {x : Daemon × Outcome} {k : Act}
      → Good T P x
      → Runs T P Q k
      → Good T Q (and_then x k)
  unfolding and_then
  Good-and_then (done d p) h = h.run d p
  Good-and_then (failed d t) h = failed d t
  Good-and_then (waits d t) h = waits d t

  -- One part after another
  infixr 20 ◌⨾◌
  pub ◌⨾◌ :
      {P Q R : Daemon → Type 0} {m k : Act} → Runs T P Q m → Runs T Q R k → Runs T P R (m >> k)
  unfolding ◌>>◌
  f ⨾ g = record { run = λ d p. Good-and_then (f.run d p) g }
