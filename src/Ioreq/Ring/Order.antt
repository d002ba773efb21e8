-- ===== src/Ioreq/Ring/Order.antt =====
-- The requests that a ring holds, and the order in which they are handled.
use citrix_vgpu.Prelude.{
  bit_or, ◌*◌, ◌+◌, ◌%◌, ◌^◌, ==_iff, ◌++◌, ℕ, zero, suc, ◌≡◌, ◌≢◌, ◌≤◌, Option, some, List, [],
  ◌∷◌, length, arith, ◌>>=◌, Option-cases, inl, inr, refl, ap, ◌∙◌, length-append,
}
use citrix_vgpu.Ioreq.{Request}
use citrix_vgpu.Ioreq.Ring.{demu_poll_buffered_iopage, Seen, Slot, request_of, next_request, drain}

-- An 8-byte request takes two slots, the second with the upper half of the data.
abbrev pub long_request : (ℕ → Slot) → ℕ → ℕ → Request
long_request buf first second = record (request_of (buf first)) {
  payload = bit_or (buf first).payload ((buf second).payload * 2 ^ 32);
}

-- Between the two pointers, the slots hold these requests.
pub data Holds (slots : ℕ) (buf : ℕ → Slot) (write : ℕ) : ℕ → List Request → Type 0 where
  empty : Holds slots buf write write []
  one_slot :
      (read : ℕ) (l : List Request)
      → read ≢ write
      → 2 ^ (buf (read % slots)).size ≢ 8
      → Holds slots buf write ((read + 1) % 2 ^ 32) l
      → Holds slots buf write read (request_of (buf (read % slots)) ∷ l)
  two_slots :
      (read : ℕ) (l : List Request)
      → read ≢ write
      → 2 ^ (buf (read % slots)).size ≡ 8
      → Holds slots buf write ((read + 2) % 2 ^ 32) l
      → Holds slots buf write read
          (long_request buf (read % slots) ((read + 1) % 2 ^ 32 % slots) ∷ l)

next_request-one :
    (slots : ℕ) (buf : ℕ → Slot) (read : ℕ)
    → 2 ^ (buf (read % slots)).size ≢ 8
    → next_request slots buf read ≡ (request_of (buf (read % slots)), (read + 1) % 2 ^ 32)
unfolding next_request
next_request-one slots buf read h = ground arith

next_request-two :
    (slots : ℕ) (buf : ℕ → Slot) (read : ℕ)
    → 2 ^ (buf (read % slots)).size ≡ 8
    → next_request slots buf read
      ≡ (long_request buf (read % slots) ((read + 1) % 2 ^ 32 % slots), (read + 2) % 2 ^ 32)
unfolding next_request
next_request-two slots buf read h = ground arith

-- Requests handled one after the other
abbrev pub handle_all : {M : Type 0} → (Request → M → Option M) → List Request → M → Option M
handle_all handle [] m = some m
handle_all handle (r ∷ l) m = handle r m >>= handle_all handle l

module _ {M : Type 0} (handle : Request → M → Option M) (slots : ℕ) where
  drain_step :
      (buf : ℕ → Slot) (write read read' fuel : ℕ) (r : Request) (l : List Request) (m : M)
      → read ≢ write
      → next_request slots buf read ≡ (r, read')
      → ((m' : M) → drain handle slots fuel buf read' write m' ≡ handle_all handle l m')
      → drain handle slots (suc fuel) buf read write m ≡ handle_all handle (r ∷ l) m
  unfolding drain
  drain_step buf write read read' fuel r l m n e ih = elim (Option-cases (handle r m)) [
    | inl f ↦ ground (arith, ==_iff read write)
    | inr (m', f) ↦ ground (arith, ==_iff read write, ih m')
  ]

  drain_lem :
      (buf : ℕ → Slot) (write read : ℕ) (l : List Request) (fuel : ℕ) (m : M)
      → Holds slots buf write read l
      → length l ≤ fuel
      → drain handle slots fuel buf read write m ≡ handle_all handle l m
  unfolding drain
  drain_lem buf write read l zero m empty f = ground arith
  drain_lem buf write read l (suc fuel) m empty f = ground arith
  drain_lem buf write _ _ zero m (one_slot read l n e h) f = absurd (omega arith)
  drain_lem buf write _ _ zero m (two_slots read l n e h) f = absurd (omega arith)
  drain_lem buf write _ _ (suc fuel) m (one_slot read l n e h) f =
      drain_step buf write read ((read + 1) % 2 ^ 32) fuel (request_of (buf (read % slots))) l m n
        (next_request-one slots buf read e)
        (λ m'. drain_lem buf write ((read + 1) % 2 ^ 32) l fuel m' h (omega arith))
  drain_lem buf write _ _ (suc fuel) m (two_slots read l n e h) f =
      drain_step buf write read ((read + 2) % 2 ^ 32) fuel
        (long_request buf (read % slots) ((read + 1) % 2 ^ 32 % slots)) l m n
        (next_request-two slots buf read e)
        (λ m'. drain_lem buf write ((read + 2) % 2 ^ 32) l fuel m' h (omega arith))

-- What the outer loop finds: until the pointers are equal, a page that holds the next requests. The
-- last index is the pointer behind all of them.
pub data Batches (slots : ℕ) : ℕ → List Seen → List Request → ℕ → Type 0 where
  caught_up :
      (read write : ℕ) (buf : ℕ → Slot) (later : List Seen)
      → read ≡ write
      → Batches slots read ((write, buf) ∷ later) [] read
  batch :
      (read write last : ℕ) (buf : ℕ → Slot) (later : List Seen) (l rest all : List Request)
      → read ≢ write
      → Holds slots buf write read l
      → Batches slots write later rest last
      → all ≡ l ++ rest
      → Batches slots read ((write, buf) ∷ later) all last

handle_all-append :
    {M : Type 0} (handle : Request → M → Option M) (l rest : List Request) (m : M)
    → handle_all handle (l ++ rest) m ≡ (handle_all handle l m >>= handle_all handle rest)
handle_all-append handle [] rest m = refl
handle_all-append handle (r ∷ l) rest m = elim (Option-cases (handle r m)) [
  | inl e ↦ rw e
  | inr (m', e) ↦ rw e (handle_all-append handle l rest m')
]

module _ {M : Type 0} (handle : Request → M → Option M) (slots : ℕ) where
  -- The poll handles every request that the pages hold, in the order of the ring and each one once,
  -- across as many batches as Xen adds meanwhile, and stores the pointer behind the last. It stops
  -- when the pointers are equal; a request that cannot be handled is the only fault. The fuel of a
  -- batch is enough when it is not below the number of all the requests.
  pub demu_poll_buffered_iopage_lem :
      (fuel : ℕ) (pages : List Seen) (read last : ℕ) (l : List Request) (m : M)
      → Batches slots read pages l last
      → length l ≤ fuel
      → demu_poll_buffered_iopage handle slots fuel pages read m
        ≡ (handle_all handle l m >>= λ m'. some (last, m'))
  unfolding demu_poll_buffered_iopage
  demu_poll_buffered_iopage_lem fuel _ read0 last0 _ m (caught_up read write buf later e) f =
      ground (arith, ==_iff read write)
  demu_poll_buffered_iopage_lem fuel _ read0 last0 _ m
        (batch read write last buf later l rest all n h b e) f =
      let small = ap length e ∙ length-append l rest in
      let drained = drain_lem handle slots buf write read l fuel m h (omega arith) in
      elim (Option-cases (handle_all handle l m)) [
        | inl d ↦ ground (
          arith,
          ==_iff read write,
          ap (λ t. handle_all handle t m) e,
          handle_all-append handle l rest m,
        )
        | inr (m', d) ↦ ground (
          arith,
          ==_iff read write,
          ap (λ t. handle_all handle t m) e,
          handle_all-append handle l rest m,
          demu_poll_buffered_iopage_lem fuel later write last rest m' b (omega arith),
        )
      ]
