-- ===== src/Registry/Undo.antt =====
-- What the register functions of demu.c do on each path, and how `demu_deregister_*_space` undoes
-- them.
use citrix_vgpu.Prelude.{
  ℕ, ◌≡◌, ◌≤◌, Bool, true, false, not, ◌&&◌, ◌||◌, none, some, List, [], ◌∷◌, arith, if◌then◌else◌,
  ◌⊎◌, ◌≢◌,
}
use citrix_vgpu.Space.{Space, found, demu_find_space, demu_register_space, demu_deregister_space}
use citrix_vgpu.Registry.{
  Hypercall, map_io, unmap_io, map_pcidev, unmap_pcidev, Demu, end_of, pci_sbdf, register_mapped,
  deregister_mapped, demu_register_port_space, demu_deregister_port_space,
  demu_register_memory_space, demu_deregister_memory_space, demu_register_pci_config_space,
  demu_deregister_pci_config_space,
}

module _ {Ops : Type 0} where
  -- A list does not take a range with a covered end.
  abbrev pub taken : List (Space Ops) → ℕ → ℕ → Bool
  taken l start end = found (demu_find_space l start) || found (demu_find_space l end)

module _ {Ops : Type 0} (malloc_ok : ℕ → Bool) (accepts : Hypercall → Bool) where
  -- A refused range or a failed `malloc` changes nothing and calls nothing; a refused hypercall
  -- changes nothing; else the new space is in front. The `assert(false)` of
  -- `demu_deregister_space` is not met.
  pub register_mapped_lem :
      (io_up : Bool) (call : Hypercall) (l : List (Space Ops)) (start end : ℕ) (ops : Ops)
      → register_mapped malloc_ok accepts io_up call l start end ops ≡ (
          if taken l start end || not (malloc_ok start)
          then some (l, [], false)
          else if io_up && not (accepts call)
          then some (l, call ∷ [], false)
          else some (
            record { start = start; end = end; ops = ops; io_init = io_up } ∷ l,
            (if io_up then call ∷ [] else []),
            true,
          ))
  unfolding register_mapped demu_register_space demu_deregister_space
  register_mapped_lem io_up call l start end ops = ground arith

  pub register_mapped_done :
      (io_up : Bool) (call : Hypercall) (l : List (Space Ops)) (start end : ℕ) (ops : Ops)
      (l' : List (Space Ops)) (cs : List Hypercall)
      → register_mapped malloc_ok accepts io_up call l start end ops ≡ some (l', cs, true)
      → (l' ≡ record { start = start; end = end; ops = ops; io_init = io_up } ∷ l)
        × (cs ≡ (if io_up then call ∷ [] else []))
  register_mapped_done io_up call l start end ops l' cs h =
      ground (arith, register_mapped_lem io_up call l start end ops)

  pub register_mapped_failed :
      (io_up : Bool) (call : Hypercall) (l : List (Space Ops)) (start end : ℕ) (ops : Ops)
      (l' : List (Space Ops)) (cs : List Hypercall)
      → register_mapped malloc_ok accepts io_up call l start end ops ≡ some (l', cs, false)
      → l' ≡ l
  register_mapped_failed io_up call l start end ops l' cs h =
      ground (arith, register_mapped_lem io_up call l start end ops)

  pub register_mapped_total :
      (io_up : Bool) (call : Hypercall) (l : List (Space Ops)) (start end : ℕ) (ops : Ops)
      → register_mapped malloc_ok accepts io_up call l start end ops ≡ none
      → ⊥
  register_mapped_total io_up call l start end ops h =
      ground (arith, register_mapped_lem io_up call l start end ops)

module _ {Ops : Type 0} where
  pub deregister_mapped-cons :
      (unmap : ℕ → Hypercall) (s : Space Ops) (l : List (Space Ops))
      → s.start ≤ s.end
      → deregister_mapped unmap (s ∷ l) s.start
        ≡ some (l, if s.io_init then unmap s.end ∷ [] else [])
  unfolding deregister_mapped demu_find_space demu_deregister_space
  deregister_mapped-cons unmap s l h = ground arith

module _ {Ops : Type 0} (malloc_ok : ℕ → Bool) (accepts : Hypercall → Bool) where
  -- If `demu_register_port_space` returns 0, then `demu_deregister_port_space` at the same start
  -- gives back the state before, with the range unmapped if it was mapped. The range must not wrap
  -- round the 64-bit addresses.
  pub demu_deregister_port_space-demu_register_port_space :
      (start size : ℕ) (ops : Ops) (d d' : Demu Ops)
      → start ≤ end_of start size
      → demu_register_port_space malloc_ok accepts start size ops d ≡ some (d', true)
      → demu_deregister_port_space start d'
        ≡ some (record d {
          calls =
              if d.io_up
              then unmap_io false start (end_of start size)
                ∷ map_io false start (end_of start size)
                ∷ d.calls
              else d.calls;
        })
  unfolding demu_register_port_space demu_deregister_port_space
  demu_deregister_port_space-demu_register_port_space start size ops d d' h e = ground (
    arith,
    register_mapped_lem malloc_ok accepts d.io_up (map_io false start (end_of start size)) d.port
        start (end_of start size) ops,
    deregister_mapped-cons (λ end. unmap_io false start end)
        (record { start = start; end = end_of start size; ops = ops; io_init = d.io_up }) d.port h,
  )

  -- If `demu_register_memory_space` returns 0, then `demu_deregister_memory_space` at the same start
  -- gives back the state before, with the range unmapped if it was mapped. The range must not wrap
  -- round the 64-bit addresses.
  pub demu_deregister_memory_space-demu_register_memory_space :
      (start size : ℕ) (ops : Ops) (d d' : Demu Ops)
      → start ≤ end_of start size
      → demu_register_memory_space malloc_ok accepts start size ops d ≡ some (d', true)
      → demu_deregister_memory_space start d'
        ≡ some (record d {
          calls =
              if d.io_up
              then unmap_io true start (end_of start size)
                ∷ map_io true start (end_of start size)
                ∷ d.calls
              else d.calls;
        })
  unfolding demu_register_memory_space demu_deregister_memory_space
  demu_deregister_memory_space-demu_register_memory_space start size ops d d' h e = ground (
    arith,
    register_mapped_lem malloc_ok accepts d.io_up (map_io true start (end_of start size)) d.memory
        start (end_of start size) ops,
    deregister_mapped-cons (λ end. unmap_io true start end)
        (record { start = start; end = end_of start size; ops = ops; io_init = d.io_up }) d.memory
        h,
  )

  -- If `demu_register_pci_config_space` returns 0, then `demu_deregister_pci_config_space` gives back
  -- the state before, with the device unmapped if it was mapped.
  pub demu_deregister_pci_config_space-demu_register_pci_config_space :
      (ops : Ops) (d d' : Demu Ops)
      → demu_register_pci_config_space malloc_ok accepts ops d ≡ some (d', true)
      → demu_deregister_pci_config_space d'
        ≡ some (record d {
          calls =
              if d.io_up
              then unmap_pcidev d.bus d.device d.function
                ∷ map_pcidev d.bus d.device d.function
                ∷ d.calls
              else d.calls;
        })
  unfolding demu_register_pci_config_space demu_deregister_pci_config_space
  demu_deregister_pci_config_space-demu_register_pci_config_space ops d d' e =
      let sbdf : ℕ = pci_sbdf d.bus d.device d.function in
      ground (
        arith,
        register_mapped_lem malloc_ok accepts d.io_up (map_pcidev d.bus d.device d.function)
            d.pci_config sbdf sbdf ops,
        deregister_mapped-cons (λ end. unmap_pcidev d.bus d.device d.function)
            (record { start = sbdf; end = sbdf; ops = ops; io_init = d.io_up }) d.pci_config
            (omega arith),
      )

  -- If `demu_register_port_space` returns -1, it has changed no list, and the only hypercall it
  -- can have made is the refused one.
  pub demu_register_port_space_failed :
      (start size : ℕ) (ops : Ops) (d d' : Demu Ops)
      → demu_register_port_space malloc_ok accepts start size ops d ≡ some (d', false)
      → (d' ≡ d)
        ⊎ ((d' ≡ record d { calls = map_io false start (end_of start size) ∷ d.calls })
            × (accepts (map_io false start (end_of start size)) ≡ false))
  unfolding demu_register_port_space
  demu_register_port_space_failed start size ops d d' e = ground (
    arith,
    register_mapped_lem malloc_ok accepts d.io_up (map_io false start (end_of start size)) d.port
        start (end_of start size) ops,
  )

  -- `demu_register_port_space` never meets the `assert(false)` of `demu_deregister_space`.
  pub demu_register_port_space_total :
      (start size : ℕ) (ops : Ops) (d : Demu Ops)
      → demu_register_port_space malloc_ok accepts start size ops d ≢ none
  unfolding demu_register_port_space
  demu_register_port_space_total start size ops d e = ground (
    arith,
    register_mapped_lem malloc_ok accepts d.io_up (map_io false start (end_of start size)) d.port
        start (end_of start size) ops,
  )

  pub demu_register_memory_space_total :
      (start size : ℕ) (ops : Ops) (d : Demu Ops)
      → demu_register_memory_space malloc_ok accepts start size ops d ≢ none
  unfolding demu_register_memory_space
  demu_register_memory_space_total start size ops d e = ground (
    arith,
    register_mapped_lem malloc_ok accepts d.io_up (map_io true start (end_of start size)) d.memory
        start (end_of start size) ops,
  )
