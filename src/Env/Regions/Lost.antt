-- ===== src/Env/Regions/Lost.antt =====
-- What becomes of a region whose move is refused.
use citrix_vgpu.Prelude.{
  [], ◌∷◌, List, ℕ, ◌≤◌, ◌≡◌, false, none, some, arith, inl, inr, Option-cases,
}
use citrix_vgpu.Space.{Space, demu_find_space, demu_deregister_space}
use citrix_vgpu.Space.Disjoint.{Disjoint, demu_find_space-demu_deregister_space}
use citrix_vgpu.Registry.{
  unmap_io, Demu, Hypercall, deregister_mapped, demu_deregister_port_space, demu_find_port_space,
}
use citrix_vgpu.Env.Regions.{Regions}

removed_le :
    (l : List (Space ℕ)) (start end : ℕ) (k : List (Space ℕ))
    → Disjoint l
    → demu_deregister_space l start ≡ some (end, k)
    → start ≤ end
unfolding demu_deregister_space
removed_le [] start end k dis e = cc
removed_le (s ∷ l) start end k dis e = elim (Option-cases (demu_deregister_space l start)) [
  | inl n ↦ ground arith
  | inr ((f, m), n) ↦ ground (arith, removed_le l start f m dis.2 n)
]

deregistered :
    (l l' : List (Space ℕ)) (start : ℕ) (calls : List Hypercall) (unmap : ℕ → Hypercall)
    → Disjoint l
    → deregister_mapped unmap l start ≡ some (l', calls)
    → demu_find_space l' start ≡ none
unfolding deregister_mapped
deregistered l l' start calls unmap dis e = elim (Option-cases (demu_find_space l start)) [
  | inl n ↦ ground arith
  | inr (s, f) ↦ elim (Option-cases (demu_deregister_space l start)) [
    | inl n ↦ absurd (ground arith)
    | inr ((end, k), n) ↦ ground (
      arith,
      (demu_find_space-demu_deregister_space l start end k dis n).0 start,
      removed_le l start end k dis n,
    )
  ]
]

-- After a deregistration from a disjoint list, nothing is found at the start.
pub demu_find_port_space-demu_deregister_port_space :
    (start : ℕ) (d d' : Demu ℕ)
    → Disjoint d.port
    → demu_deregister_port_space start d ≡ some d'
    → demu_find_port_space d' start ≡ none
unfolding demu_deregister_port_space demu_find_port_space
demu_find_port_space-demu_deregister_port_space start d d' dis e =
    elim (Option-cases (deregister_mapped (λ end. unmap_io false start end) d.port start)) [
      | inl n ↦ absurd (ground arith)
      | inr ((l, cs), n) ↦
          ground (arith, deregistered d.port l start cs (λ end. unmap_io false start end) dis n)
    ]
