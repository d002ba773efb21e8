-- ===== src/Env/Regions/Moved.antt =====
-- What a guest's port access finds after an enabled region has moved.
use citrix_vgpu.Prelude.{
  sym, ◌≤◌, ap, ◌∙◌, ℕ, ◌≡◌, ◌≢◌, ◌&&◌, leb, Bool, true, false, Option, none, some, ◌∷◌, arith,
  refl, inl, inr, Option-cases, if◌then◌else◌,
}
use citrix_vgpu.Space.{demu_find_space}
use citrix_vgpu.Registry.{
  Demu, Hypercall, map_io, end_of, register_mapped, demu_register_port_space,
  demu_deregister_port_space, demu_find_port_space,
}
use citrix_vgpu.Registry.Undo.{register_mapped_done}
use citrix_vgpu.Env.{
  success, inval, ErrorCode, resource, range, read_only, not_found, no_address_space, timeout,
  not_allowed_in_callback,
}
use citrix_vgpu.Env.Access.{space_io}
use citrix_vgpu.Env.Regions.{
  with_demu, save_base, Regions, addr_none, relocate_guest_region, move_region, enable_at,
  disable_guest_region,
}

module _ (malloc_ok : ℕ → Bool) (accepts : Hypercall → Bool) where
  -- A registered port space is in front of the list.
  pub demu_register_port_space_front :
      (start size x : ℕ) (d d' : Demu ℕ)
      → demu_register_port_space malloc_ok accepts start size x d ≡ some (d', true)
      → d'.port
        ≡ record { start = start; end = end_of start size; ops = x; io_init = d.io_up } ∷ d.port
  unfolding demu_register_port_space
  demu_register_port_space_front start size x d d' e =
      let end = end_of start size in
      elim (Option-cases
        (register_mapped malloc_ok accepts d.io_up (map_io false start end) d.port start end x)) [
          | inl n ↦ absurd (ground arith)
          | inr ((l, cs, done), m) ↦
              let finished : done ≡ true = ground arith in
              let put : d'.port ≡ l = ground arith in
              put
              ∙ (register_mapped_done malloc_ok accepts d.io_up (map_io false start end) d.port
                  start end x l cs (m ∙ ap (λ b. some (l, cs, b)) finished)).0
        ]

  -- So a lookup finds it throughout its range, and elsewhere what it found before.
  pub demu_find_port_space-demu_register_port_space :
      (start size x a : ℕ) (d d' : Demu ℕ)
      → demu_register_port_space malloc_ok accepts start size x d ≡ some (d', true)
      → demu_find_port_space d' a ≡ (
          if leb start a && leb a (end_of start size)
          then some (record { start = start; end = end_of start size; ops = x; io_init = d.io_up })
          else demu_find_port_space d a)
  unfolding demu_find_port_space demu_find_space
  demu_find_port_space-demu_register_port_space start size x a d d' e =
      ground (arith, demu_register_port_space_front start size x d d' e)

  module _ {S : Type 0} where
    -- The answer of a move, from that of `enable_at`
    abbrev pub saved : ℕ → ℕ → Option (ErrorCode × Regions S) → Option (ErrorCode × Regions S)
    saved x base none = none
    saved x base (some a) = some (save_base x base a)

    disable_port :
        (x : ℕ) (r : Regions S)
        → (r.region x).address_space ≡ space_io
        → disable_guest_region x r
          ≡ with_demu success r (demu_deregister_port_space (r.region x).range_base r.demu)
    unfolding disable_guest_region
    disable_port x r io = ground arith

    enable_port :
        (x base : ℕ) (r r' : Regions S)
        → (r.region x).address_space ≡ space_io
        → enable_at malloc_ok accepts x base r ≡ some (success, r')
        → (d : Demu ℕ) × (demu_register_port_space malloc_ok accepts base
              (r.region x).range_length
              x
              r.demu
            ≡ some (d, true))
          × (r' ≡ record r { demu = d })
    unfolding enable_at
    enable_port x base r r' io e =
        elim (Option-cases
          (demu_register_port_space malloc_ok accepts base (r.region x).range_length x r.demu)) [
            | inl n ↦ absurd (ground arith)
            | inr ((d, b), n) ↦ (d, ground arith, ground arith)
          ]

    pub enable_refused :
        (x base : ℕ) (r : Regions S)
        → (r.region x).address_space ≡ space_io
        → 0x10000 ≤ base
        → enable_at malloc_ok accepts x base r ≡ some (inval, r)
    unfolding enable_at
    enable_refused x base r io out = ground arith

    save_base_success :
        (x base : ℕ) (e : ErrorCode) (r r' : Regions S)
        → ◌≡◌ {A = ErrorCode × Regions S} (save_base x base (e, r)) (success, r')
        → (e ≡ success) × (r'.demu ≡ r.demu) × ((r'.region x).range_base ≡ base)
    save_base_success x base success r r' h = (refl, ground arith, ground arith)
    save_base_success x base inval r r' h = cc
    save_base_success x base resource r r' h = cc
    save_base_success x base range r r' h = cc
    save_base_success x base read_only r r' h = cc
    save_base_success x base not_found r r' h = cc
    save_base_success x base no_address_space r r' h = cc
    save_base_success x base timeout r r' h = cc
    save_base_success x base not_allowed_in_callback r r' h = cc

    -- A move of an enabled region: its old space goes, whatever becomes of the new one.
    pub relocate_enabled :
        (x base : ℕ) (r : Regions S) (d1 : Demu ℕ)
        → (r.region x).address_space ≡ space_io
        → (r.region x).range_base ≢ addr_none
        → base ≢ addr_none
        → base ≢ (r.region x).range_base
        → demu_deregister_port_space (r.region x).range_base r.demu ≡ some d1
        → relocate_guest_region malloc_ok accepts false (some x) base r
          ≡ saved x base (enable_at malloc_ok accepts x base (record r { demu = d1 }))
    unfolding relocate_guest_region move_region
    relocate_enabled x base r d1 io on there new e =
        let gone : disable_guest_region x r ≡ some (success, record r { demu = d1 }) =
          disable_port x r io ∙ ap (with_demu success r) e in
        elim (Option-cases (enable_at malloc_ok accepts x base (record r { demu = d1 }))) [
          | inl n ↦ ground (arith, gone)
          | inr (w, n) ↦ ground (arith, gone)
        ]

    -- After a move of an enabled region of I/O ports that reports success, the region is at its new
    -- base, a lookup of a port in the new range finds it, and a lookup of any other port finds what
    -- is left once its old space has been deregistered.
    pub relocate_guest_region_moved :
        (x base a : ℕ) (r r' : Regions S) (d1 : Demu ℕ)
        → (r.region x).address_space ≡ space_io
        → (r.region x).range_base ≢ addr_none
        → base ≢ addr_none
        → base ≢ (r.region x).range_base
        → demu_deregister_port_space (r.region x).range_base r.demu ≡ some d1
        → relocate_guest_region malloc_ok accepts false (some x) base r ≡ some (success, r')
        → ((r'.region x).range_base ≡ base)
          × (demu_find_port_space r'.demu a ≡ (
              if leb base a && leb a (end_of base (r.region x).range_length)
              then some (record {
                start = base;
                end = end_of base (r.region x).range_length;
                ops = x;
                io_init = d1.io_up;
              })
              else demu_find_port_space d1 a))
    relocate_guest_region_moved x base a r r' d1 io on there new e done =
        let all = sym (relocate_enabled x base r d1 io on there new e) ∙ done in
        elim (Option-cases (enable_at malloc_ok accepts x base (record r { demu = d1 }))) [
          | inl n ↦ absurd (ground arith)
          | inr ((err, r2), n) ↦
              let w = save_base_success x base err r2 r' (ground arith) in
              let t = enable_port x base (record r { demu = d1 }) r2 io (ground arith) in
              let find =
                demu_find_port_space-demu_register_port_space base (r.region x).range_length x a d1
                  t.0 t.1 in
              (
                w.2,
                ap (λ (d : Demu ℕ). demu_find_port_space d a)
                      (w.1 ∙ ap (λ (v : Regions S). v.demu) t.2)
                    ∙ find,
              )
        ]
