-- ===== src/Env/Regions.antt =====
-- The guest regions of vmiop-env.c: `vmiope_disable_guest_region` and `vmiop_relocate_guest_region`,
-- over the I/O spaces of Registry.
--
-- A region is its address, which is also the object that demu.c keeps for its operations. `none`
-- as a whole is a failed `assert` of demu.c.
pub mod Moved
pub mod Lost
use citrix_vgpu.Prelude.{
  ℕ, ◌+◌, ◌-◌, ◌%◌, ◌^◌, ◌==◌, ◌||◌, leb, ltb, Bool, true, false, Option, none, some, update,
  if◌then◌else◌,
}
use citrix_vgpu.Env.{ErrorCode, success, inval, resource, not_found}
use citrix_vgpu.Env.Access.{Region, EmulSpace, space_config, space_io, space_mmio}
use citrix_vgpu.Registry.{
  Demu, Hypercall, demu_register_port_space, demu_deregister_port_space, demu_register_memory_space,
  demu_deregister_memory_space,
}

-- `VMIOP_EMUL_ADDR_NONE`
abbrev pub addr_none : ℕ
addr_none = 2 ^ 64 - 1

pub record Regions (S : Type 0) : Type 0 where
  pub region : ℕ → Region S
  pub demu : Demu ℕ

module _ {S : Type 0} where
  -- The error code is that of the daemon's answer, if it has one.
  abbrev pub with_demu : ErrorCode → Regions S → Option (Demu ℕ) → Option (ErrorCode × Regions S)
  with_demu e r none = none
  with_demu e r (some d) = some (e, record r { demu = d })

  unfoldable pub disable_guest_region : ℕ → Regions S → Option (ErrorCode × Regions S)
  disable_guest_region x r = elim (r.region x).address_space [
    | space_io ↦ with_demu success r (demu_deregister_port_space (r.region x).range_base r.demu)
    | space_mmio ↦ with_demu success r (demu_deregister_memory_space (r.region x).range_base r.demu)
    | space_config ↦ some (inval, r)
  ]

  abbrev pub answered : Regions S → Option (Demu ℕ × Bool) → Option (ErrorCode × Regions S)
  answered r none = none
  answered r (some (d, true)) = some (success, record r { demu = d })
  answered r (some (d, false)) = some (inval, record r { demu = d })

  abbrev pub save_base : ℕ → ℕ → ErrorCode × Regions S → ErrorCode × Regions S
  save_base x base (success, r) =
      (success, record r { region = update r.region x (record (r.region x) { range_base = base }) })
  save_base x base (e, r) = (e, r)

  module _ (malloc_ok : ℕ → Bool) (accepts : Hypercall → Bool) where
    -- The `switch` on the address space
    unfoldable pub enable_at : ℕ → ℕ → Regions S → Option (ErrorCode × Regions S)
    enable_at x base r =
        let size = (r.region x).range_length in
        elim (r.region x).address_space [
          | space_io ↦
              if leb 0x10000 base || ltb 0x10000 ((base + size) % 2 ^ 64)
              then some (inval, r)
              else answered r (demu_register_port_space malloc_ok accepts base size x r.demu)
          | space_mmio ↦
              answered r (demu_register_memory_space malloc_ok accepts base size x r.demu)
          | space_config ↦ some (inval, r)
        ]

    -- What follows the check that the base changes. The error of a failed disable is dropped.
    unfoldable pub move_region : ℕ → ℕ → Regions S → Option (ErrorCode × Regions S)
    unfolding disable_guest_region enable_at
    move_region x base r =
        if base == addr_none
        then elim (disable_guest_region x r) [
          | none ↦ none
          | some (e, r1) ↦ some (save_base x base (success, r1))
        ]
        else elim (if (r.region x).range_base == addr_none
            then some (success, r)
            else disable_guest_region x r) [
              | none ↦ none
              | some (e, r1) ↦ elim (enable_at x base r1) [
                | none ↦ none
                | some a ↦ some (save_base x base a)
              ]
            ]

    -- `located` is what `vmiope_handle_to_region` gives, `fails` whether `region_lock` cannot be
    -- locked.
    unfoldable pub relocate_guest_region :
        Bool → Option ℕ → ℕ → Regions S → Option (ErrorCode × Regions S)
    relocate_guest_region true located base r = some (resource, r)
    relocate_guest_region false none base r = some (not_found, r)
    relocate_guest_region false (some x) base r =
        if base == (r.region x).range_base then some (success, r) else move_region x base r
