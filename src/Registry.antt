-- ===== src/Registry.antt =====
-- The I/O spaces of `demu_state` (demu.c): `demu_register_*_space` and `demu_deregister_*_space`,
-- with the hypercalls that tell Xen which addresses to forward.
--
-- Xen is outside the repository: `accepts` says which hypercalls return no error, and `calls` is
-- the list of those made, the last one first. `malloc_ok start` says whether the `malloc` for a
-- space that begins at `start` gives memory. `none` is a failed `assert`.
pub mod Undo
pub mod Lookup
pub mod Enable
mod Tests
use citrix_vgpu.Prelude.{
  ℕ, ◌+◌, ◌-◌, ◌*◌, ◌%◌, ◌^◌, bit_or, Bool, true, false, Option, none, some, List, [], ◌∷◌, ◌++◌,
  if◌then◌else◌,
}
use citrix_vgpu.Space.{Space, demu_find_space, demu_register_space, demu_deregister_space}

pub data Hypercall : Type 0 where
  map_io : Bool → ℕ → ℕ → Hypercall  -- is_mmio, start, end
  unmap_io : Bool → ℕ → ℕ → Hypercall
  map_pcidev : ℕ → ℕ → ℕ → Hypercall  -- bus, device, function
  unmap_pcidev : ℕ → ℕ → ℕ → Hypercall

-- The fields of `struct demu` that take part.
pub record Demu (Ops : Type 0) : Type 0 where
  pub memory : List (Space Ops)
  pub port : List (Space Ops)
  pub pci_config : List (Space Ops)
  pub io_up : Bool
  pub bus : ℕ  -- uint8_t
  pub device : ℕ  -- uint8_t
  pub function : ℕ  -- uint8_t
  pub calls : List Hypercall

-- `uint64_t end = start + size - 1`
abbrev pub end_of : ℕ → ℕ → ℕ
end_of start size = (start + size + (2 ^ 64 - 1)) % 2 ^ 64

-- `PCI_SBDF(0, b, d, f)`
abbrev pub pci_sbdf : ℕ → ℕ → ℕ → ℕ
pci_sbdf b d f = bit_or (bit_or (b % 256 * 2 ^ 8) (d % 32 * 2 ^ 3)) (f % 8)

module _ {Ops : Type 0} where
  -- `head->io_init = 1`
  abbrev pub mark_head : List (Space Ops) → List (Space Ops)
  mark_head [] = []
  mark_head (s ∷ l) = record s { io_init = true } ∷ l

  abbrev pub the_rest : Option (ℕ × List (Space Ops)) → Option (List (Space Ops))
  the_rest none = none
  the_rest (some (e, l)) = some l

  unfoldable pub demu_find_port_space : Demu Ops → ℕ → Option (Space Ops)
  demu_find_port_space d addr = demu_find_space d.port addr

  unfoldable pub demu_find_memory_space : Demu Ops → ℕ → Option (Space Ops)
  demu_find_memory_space d addr = demu_find_space d.memory addr

  -- The parameter is a `uint8_t`.
  unfoldable pub demu_find_pci_config_space : Demu Ops → ℕ → Option (Space Ops)
  demu_find_pci_config_space d bdf = demu_find_space d.pci_config (bdf % 256)

  -- What the three register functions do with their list: the new list, the hypercalls made and
  -- whether they return 0.
  module _ (malloc_ok : ℕ → Bool) (accepts : Hypercall → Bool) where
    unfoldable pub register_mapped :
        Bool
        → Hypercall
        → List (Space Ops)
        → ℕ
        → ℕ
        → Ops
        → Option (List (Space Ops) × List Hypercall × Bool)
    register_mapped io_up call head start end ops =
        elim (demu_register_space (malloc_ok start) head start end ops) [
          | none ↦ some (head, [], false)
          | some l ↦
              if io_up
              then if accepts call
                then some (mark_head l, call ∷ [], true)
                else elim (the_rest (demu_deregister_space l start)) [
                  | none ↦ none
                  | some l' ↦ some (l', call ∷ [], false)
                ]
              else some (l, [], true)
        ]

    unfoldable pub demu_register_port_space : ℕ → ℕ → Ops → Demu Ops → Option (Demu Ops × Bool)
    demu_register_port_space start size ops d =
        let end = end_of start size in
        elim (register_mapped d.io_up (map_io false start end) d.port start end ops) [
          | none ↦ none
          | some (l, cs, done) ↦ some (record d { port = l; calls = cs ++ d.calls }, done)
        ]

    unfoldable pub demu_register_memory_space : ℕ → ℕ → Ops → Demu Ops → Option (Demu Ops × Bool)
    demu_register_memory_space start size ops d =
        let end = end_of start size in
        elim (register_mapped d.io_up (map_io true start end) d.memory start end ops) [
          | none ↦ none
          | some (l, cs, done) ↦ some (record d { memory = l; calls = cs ++ d.calls }, done)
        ]

    unfoldable pub demu_register_pci_config_space : Ops → Demu Ops → Option (Demu Ops × Bool)
    demu_register_pci_config_space ops d =
        let sbdf = pci_sbdf d.bus d.device d.function in
        let call = map_pcidev d.bus d.device d.function in
        elim (register_mapped d.io_up call d.pci_config sbdf sbdf ops) [
          | none ↦ none
          | some (l, cs, done) ↦ some (record d { pci_config = l; calls = cs ++ d.calls }, done)
        ]

  -- What the three deregister functions do with their list: nothing if no space covers `start`.
  -- `io_init` is that of the space found, `end` that of the space taken out.
  unfoldable pub deregister_mapped :
      (ℕ → Hypercall) → List (Space Ops) → ℕ → Option (List (Space Ops) × List Hypercall)
  deregister_mapped unmap head start = elim (demu_find_space head start) [
    | none ↦ some (head, [])
    | some space ↦ elim (demu_deregister_space head start) [
      | none ↦ none
      | some (end, l) ↦ some (l, if space.io_init then unmap end ∷ [] else [])
    ]
  ]

  unfoldable pub demu_deregister_port_space : ℕ → Demu Ops → Option (Demu Ops)
  demu_deregister_port_space start d =
      elim (deregister_mapped (λ end. unmap_io false start end) d.port start) [
        | none ↦ none
        | some (l, cs) ↦ some (record d { port = l; calls = cs ++ d.calls })
      ]

  unfoldable pub demu_deregister_memory_space : ℕ → Demu Ops → Option (Demu Ops)
  demu_deregister_memory_space start d =
      elim (deregister_mapped (λ end. unmap_io true start end) d.memory start) [
        | none ↦ none
        | some (l, cs) ↦ some (record d { memory = l; calls = cs ++ d.calls })
      ]

  unfoldable pub demu_deregister_pci_config_space : Demu Ops → Option (Demu Ops)
  demu_deregister_pci_config_space d =
      let sbdf = pci_sbdf d.bus d.device d.function in
      let call = unmap_pcidev d.bus d.device d.function in
      elim (deregister_mapped (λ end. call) d.pci_config sbdf) [
        | none ↦ none
        | some (l, cs) ↦ some (record d { pci_config = l; calls = cs ++ d.calls })
      ]
