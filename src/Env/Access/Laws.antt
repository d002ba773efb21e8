-- ===== src/Env/Access/Laws.antt =====
-- The monitor around every access that a guest makes to a region.
use citrix_vgpu.Prelude.{
  sym, ap, ℕ, ◌≡◌, ◌∙◌, Option, none, some, arith, refl, inl, inr, Option-cases, ◌^◌, ◌*◌, ◌-◌,
}
use mathlib.Core.Path.{subst}
use citrix_vgpu.Env.{ErrorCode}
use citrix_vgpu.Env.Monitor.{Monitor, leave_monitor, reenter}
use citrix_vgpu.Env.Monitor.Bracket.{IsConsistent, reenter-leave_monitor}
use citrix_vgpu.Env.Access.{
  World, Callback, EmulOp, op_read, op_write, EmulSpace, space_mmio, mmio_target, fits,
  call_outside, Region, mmio_read, mmio_write, mmio_ops,
}
use citrix_vgpu.Io.{demu_io_read, demu_io_write}
use citrix_vgpu.Io.Keeps.{KeepsRead, KeepsWrite, demu_io_read-KeepsRead, demu_io_write-KeepsWrite}

module _ {S : Type 0} where
  -- What a plugin's callback does: it returns with the monitor as it got it.
  abbrev pub IsBalanced : (World S → Option (ErrorCode × ℕ × World S)) → Type 0
  IsBalanced call =
      (w w' : World S) (e : ErrorCode) (v : ℕ) → call w ≡ some (e, v, w') → w'.monitor ≡ w.monitor

  abbrev pub IsPolite : Option (Callback S) → Type 0
  IsPolite none = Unit {0}
  IsPolite (some fn) =
      (object : ℕ) (op : EmulOp) (space : EmulSpace) (a len v : ℕ)
      → IsBalanced (fn object op space a len v)

  call_outside_monitor :
      (t : ℕ) (call : World S → Option (ErrorCode × ℕ × World S)) (m : Monitor) (w w' : World S)
      (e : ErrorCode) (v : ℕ)
      → IsBalanced call
      → IsConsistent m
      → call_outside t call w ≡ some (e, v, w')
      → w.monitor ≡ m
      → w'.monitor ≡ m
  unfolding call_outside
  call_outside_monitor t call m w w' e v balanced c h same =
      let left : World S = record w { monitor = (leave_monitor t w.monitor).1 } in
      elim (Option-cases (call left)) [
        | inl n ↦ absurd (ground arith)
        | inr ((e2, v2, w2), n) ↦
            let kept = balanced left w2 e2 v2 n in
            let whole = reenter-leave_monitor t w.monitor (subst IsConsistent (sym same) c) in
            let again : reenter ((leave_monitor t w.monitor).0) t w2.monitor ≡ some w.monitor =
              ap (reenter ((leave_monitor t w.monitor).0) t) kept ∙ whole in
            ground (arith, again, same, n)
      ]

  mmio_target-IsBalanced :
      (fn : Option (Callback S)) (object : ℕ) (op : EmulOp) (a len v other : ℕ)
      → IsPolite fn
      → IsBalanced (mmio_target fn object op a len v other)
  mmio_target-IsBalanced none object op a len v other polite w w' e u h = ground arith
  mmio_target-IsBalanced (some fn) object op a len v other polite w w' e u h =
      polite object op space_mmio a len v w w' e u h

  mmio_read-KeepsRead :
      (len t junk : ℕ) (region : Region S) (m : Monitor)
      → IsPolite region.callback
      → IsConsistent m
      → KeepsRead (λ (w : World S). w.monitor ≡ m) (some (mmio_read len region t junk))
  unfolding mmio_read
  mmio_read-KeepsRead len t junk region m polite c a v w w' h same =
      let call =
        mmio_target region.callback region.private_object op_read a len (fits len junk)
          (2 ^ (8 * len) - 1) in
      elim (Option-cases (call_outside t call w)) [
        | inl n ↦ absurd (ground arith)
        | inr ((e, u, w2), n) ↦
            let kept =
              call_outside_monitor t call m w w2 e u
                (mmio_target-IsBalanced region.callback region.private_object op_read a len
                  (fits len junk) (2 ^ (8 * len) - 1) polite)
                c n same in
            ground (arith, n, kept)
      ]

  mmio_write-KeepsWrite :
      (len t : ℕ) (region : Region S) (m : Monitor)
      → IsPolite region.callback
      → IsConsistent m
      → KeepsWrite (λ (w : World S). w.monitor ≡ m) (some (mmio_write len region t))
  unfolding mmio_write
  mmio_write-KeepsWrite len t region m polite c a v w w' h same =
      let call = mmio_target region.callback region.private_object op_write a len (fits len v) 0 in
      elim (Option-cases (call_outside t call w)) [
        | inl n ↦ absurd (ground arith)
        | inr ((e, u, w2), n) ↦
            let kept =
              call_outside_monitor t call m w w2 e u
                (mmio_target-IsBalanced region.callback region.private_object op_write a len
                  (fits len v) 0 polite)
                c n same in
            ground (arith, n, kept)
      ]

  -- A guest's read of any size at any address of a region of memory-mapped I/O leaves the monitor
  -- as it was, if it was consistent and the callback gives back what it got.
  pub mmio_ops-read :
      (a size t junk v : ℕ) (region : Region S) (w w' : World S)
      → IsPolite region.callback
      → IsConsistent w.monitor
      → demu_io_read (mmio_ops region t junk) a size w ≡ some (v, w')
      → w'.monitor ≡ w.monitor
  unfolding mmio_ops
  mmio_ops-read a size t junk v region w w' polite c h =
      demu_io_read-KeepsRead (λ (u : World S). u.monitor ≡ w.monitor) (mmio_read 1 region t junk)
        (mmio_read 2 region t junk) (mmio_read 4 region t junk) (mmio_write 1 region t)
        (mmio_write 2 region t) (mmio_write 4 region t) a size v w w'
        (mmio_read-KeepsRead 1 t junk region w.monitor polite c)
        (mmio_read-KeepsRead 2 t junk region w.monitor polite c)
        (mmio_read-KeepsRead 4 t junk region w.monitor polite c) h refl

  -- So does a guest's write.
  pub mmio_ops-write :
      (a size val t junk : ℕ) (region : Region S) (w w' : World S)
      → IsPolite region.callback
      → IsConsistent w.monitor
      → demu_io_write (mmio_ops region t junk) a size val w ≡ some w'
      → w'.monitor ≡ w.monitor
  unfolding mmio_ops
  mmio_ops-write a size val t junk region w w' polite c h =
      demu_io_write-KeepsWrite (λ (u : World S). u.monitor ≡ w.monitor) (mmio_read 1 region t junk)
        (mmio_read 2 region t junk) (mmio_read 4 region t junk) (mmio_write 1 region t)
        (mmio_write 2 region t) (mmio_write 4 region t) a size val w w'
        (mmio_write-KeepsWrite 1 t region w.monitor polite c)
        (mmio_write-KeepsWrite 2 t region w.monitor polite c)
        (mmio_write-KeepsWrite 4 t region w.monitor polite c) h refl
