-- ===== src/Ioreq/Poll.antt =====
-- `demu_poll_iopages` of demu.c: the page that a port of the event channel stands for.
--
-- `poll_buffered` and `poll_shared` are the two functions of the parent and of Ring. `pending` is what
-- `xc_evtchn_pending` returns, as the `uint32_t` in which the code keeps it.
use citrix_vgpu.Prelude.{
  ap, ℕ, zero, suc, ◌+◌, ◌≡◌, ◌≢◌, refl, Bool, true, Option, some, List, [], ◌∷◌, ◌==◌,
  if◌then◌else◌, ◌>>=◌, arith, Option-cases, inl, inr,
}

module _ {M : Type 0} (poll_buffered : M → Option M) (poll_shared : ℕ → M → Option M) where
  -- The loop over the VCPUs from `i` on, with their local ports
  unfoldable pub poll_ports : ℕ → ℕ → List ℕ → M → Option M
  poll_ports port i [] m = some m
  poll_ports port i (q ∷ l) m =
      (if port == q then poll_shared i m else some m) >>= poll_ports port (suc i) l

  unfoldable pub demu_poll_iopages : Bool → ℕ → ℕ → List ℕ → M → Option M
  demu_poll_iopages initialized pending buf_port ports m =
      if initialized
      then (if pending == buf_port then poll_buffered m else poll_ports pending 0 ports m)
      else some m

  -- A port that is not in the list
  abbrev Absent : ℕ → List ℕ → Type 0
  Absent port [] = Unit
  Absent port (q ∷ l) = (port ≢ q) × Absent port l

  -- The port of VCPU `k` stands once in the list.
  abbrev pub Once : ℕ → ℕ → List ℕ → Type 0
  Once port k [] = ⊥
  Once port zero (q ∷ l) = (port ≡ q) × Absent port l
  Once port (suc k) (q ∷ l) = (port ≢ q) × Once port k l

  poll_ports-Absent :
      (port i : ℕ) (l : List ℕ) (m : M) → Absent port l → poll_ports port i l m ≡ some m
  unfolding poll_ports
  poll_ports-Absent port i [] m a = refl
  poll_ports-Absent port i (q ∷ l) m (n, a) = ground (arith, poll_ports-Absent port (suc i) l m a)

  poll_ports-Once :
      (port k i : ℕ) (l : List ℕ) (m : M)
      → Once port k l
      → poll_ports port i l m ≡ poll_shared (i + k) m
  unfolding poll_ports
  poll_ports-Once port k i [] m o = absurd o
  poll_ports-Once port zero i (q ∷ l) m (e, a) =
      let zero_right : i + 0 ≡ i = omega arith in
      elim (Option-cases (poll_shared i m)) [
        | inl f ↦ ground (arith, ap (λ (t : ℕ). poll_shared t m) zero_right)
        | inr (m', f) ↦ ground (
          arith,
          ap (λ (t : ℕ). poll_shared t m) zero_right,
          poll_ports-Absent port (suc i) l m' a,
        )
      ]
  poll_ports-Once port (suc k) i (q ∷ l) m (n, o) =
      ground (arith, poll_ports-Once port k (suc i) l m o)

  -- If the pending port is that of one VCPU and not the one of the buffered requests, that VCPU's
  -- request alone is polled.
  pub demu_poll_iopages-poll_shared :
      (port k buf_port : ℕ) (ports : List ℕ) (m : M)
      → port ≢ buf_port
      → Once port k ports
      → demu_poll_iopages true port buf_port ports m ≡ poll_shared k m
  unfolding demu_poll_iopages
  demu_poll_iopages-poll_shared port k buf_port ports m n o =
      ground (arith, poll_ports-Once port k 0 ports m o)
