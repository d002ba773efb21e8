-- ===== src/Registry/Lookup.antt =====
-- Which requests reach a space that demu.c has registered, and when a deregistration aborts.
use citrix_vgpu.Prelude.{ℕ, ◌*◌, ◌%◌, ◌^◌, ◌≡◌, ◌≢◌, none, some, [], ◌∷◌, arith, bit_or, ◌↔◌}
use citrix_vgpu.Prelude.{inl, inr, Option-cases}
use citrix_vgpu.Prelude.Bits.{le-bit_or}
use citrix_vgpu.Space.{Space, demu_find_space}
use citrix_vgpu.Space.Disjoint.{Disjoint, demu_deregister_space_inside, demu_deregister_space_total}
use citrix_vgpu.Registry.{
  Demu, pci_sbdf, deregister_mapped, demu_deregister_port_space, demu_find_pci_config_space,
}

module _ {Ops : Type 0} where
  -- In a disjoint port list, `demu_deregister_port_space` aborts exactly at an address that a
  -- space covers without beginning there.
  pub demu_deregister_port_space-none_iff :
      (start : ℕ) (d : Demu Ops)
      → Disjoint d.port
      → (demu_deregister_port_space start d ≡ none)
        ↔ ((s : Space Ops) × (demu_find_space d.port start ≡ some s) × (s.start ≢ start))
  unfolding demu_deregister_port_space deregister_mapped
  demu_deregister_port_space-none_iff start d h = (
    λ e. elim (Option-cases (demu_find_space d.port start)) [
      | inl n ↦ absurd (ground arith)
      | inr (s, f) ↦
          (s, f, λ same. demu_deregister_space_total d.port start s f (rw same (ground arith)))
    ],
    λ w. ground (arith, demu_deregister_space_inside d.port start w.0 h w.1 w.2),
  )

  -- If the only PCI space is one that begins at the device's own number, and the device's bus is
  -- not 0 modulo 256, no lookup finds that space: the lookup takes 8 bits of the number, and the
  -- bus stands above them.
  pub demu_find_pci_config_space_bus :
      (d : Demu Ops) (s : Space Ops) (bdf : ℕ)
      → d.pci_config ≡ s ∷ []
      → s.start ≡ pci_sbdf d.bus d.device d.function
      → d.bus % 256 ≢ 0
      → demu_find_pci_config_space d bdf ≡ none
  unfolding demu_find_pci_config_space demu_find_space
  demu_find_pci_config_space_bus d s bdf e es ne = ground (
    arith,
    le-bit_or (d.bus % 256 * 2 ^ 8) (d.device % 32 * 2 ^ 3),
    le-bit_or (bit_or (d.bus % 256 * 2 ^ 8) (d.device % 32 * 2 ^ 3)) (d.function % 8),
  )
