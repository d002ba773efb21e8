-- ===== src/Registry/Enable.antt =====
-- `enable_io` of demu.c: Xen is told of the spaces that were registered before the I/O server was up.
use citrix_vgpu.Prelude.{
  arith, ◌&&◌, ◌≡◌, refl, Bool, true, false, List, [], ◌∷◌, ◌++◌, if◌then◌else◌,
}
use mathlib.Core.List.{reverse}
use citrix_vgpu.Space.{Space}
use citrix_vgpu.Registry.{Demu, Hypercall, map_io, map_pcidev}

module _ {Ops : Type 0} (accepts : Hypercall → Bool) where
  -- One loop over a list: the list, the calls made, the first first, and whether none was refused
  unfoldable pub enable_list :
      (Space Ops → Hypercall) → List (Space Ops) → List (Space Ops) × List Hypercall × Bool
  enable_list call [] = ([], [], true)
  enable_list call (s ∷ l) =
      let (l', cs, done) = enable_list call l in
      if s.io_init
      then (s ∷ l', cs, done)
      else if accepts (call s)
      then (record s { io_init = true } ∷ l', call s ∷ cs, done)
      else (s ∷ l, call s ∷ [], false)

  -- `true` is a return of 0.
  unfoldable pub enable_io : Demu Ops → Demu Ops × Bool
  enable_io d =
      let (pci, cs, done) = enable_list (λ s. map_pcidev d.bus d.device d.function) d.pci_config in
      let (memory, cs', done') = enable_list (λ s. map_io true s.start s.end) d.memory in
      let (port, cs'', done'') = enable_list (λ s. map_io false s.start s.end) d.port in
      let d1 = record d { io_up = true; pci_config = pci; calls = reverse cs ++ d.calls } in
      let d2 = record d1 { memory = memory; calls = reverse cs' ++ d1.calls } in
      let d3 = record d2 { port = port; calls = reverse cs'' ++ d2.calls } in
      if done then (if done' then (d3, done'') else (d2, false)) else (d1, false)

-- Whether Xen accepts every call of a list
module _ (accepts : Hypercall → Bool) where
  abbrev pub all_accepted : List Hypercall → Bool
  all_accepted [] = true
  all_accepted (c ∷ l) = accepts c && all_accepted l

module _ {Ops : Type 0} where
  abbrev pub marked : List (Space Ops) → List (Space Ops)
  marked [] = []
  marked (s ∷ l) = record s { io_init = true } ∷ marked l

  -- The calls for the spaces of which Xen has not been told
  abbrev pub wanted : (Space Ops → Hypercall) → List (Space Ops) → List Hypercall
  wanted call [] = []
  wanted call (s ∷ l) = if s.io_init then wanted call l else call s ∷ wanted call l

  abbrev pub pci_calls : Demu Ops → List Hypercall
  pci_calls d = wanted (λ s. map_pcidev d.bus d.device d.function) d.pci_config

  abbrev pub memory_calls : Demu Ops → List Hypercall
  memory_calls d = wanted (λ s. map_io true s.start s.end) d.memory

  abbrev pub port_calls : Demu Ops → List Hypercall
  port_calls d = wanted (λ s. map_io false s.start s.end) d.port

module _ {Ops : Type 0} (accepts : Hypercall → Bool) where
  enable_list_all :
      (call : Space Ops → Hypercall) (l : List (Space Ops))
      → all_accepted accepts (wanted call l) ≡ true
      → enable_list accepts call l ≡ (marked l, wanted call l, true)
  unfolding enable_list
  enable_list_all call [] h = refl
  enable_list_all call (s ∷ l) h = ground (arith, enable_list_all call l)

  enable_list_done :
      (call : Space Ops → Hypercall) (l : List (Space Ops))
      → (enable_list accepts call l).2 ≡ true
      → all_accepted accepts (wanted call l) ≡ true
  unfolding enable_list
  enable_list_done call [] h = refl
  enable_list_done call (s ∷ l) h = ground (arith, enable_list_done call l)

  -- If Xen accepts the call for each space of which it has not been told, `enable_io` succeeds: it has
  -- made these calls and no others, in the order of the lists of PCI, memory and port spaces, and every
  -- space is marked.
  pub enable_io_accepted :
      (d : Demu Ops)
      → all_accepted accepts (pci_calls d) ≡ true
      → all_accepted accepts (memory_calls d) ≡ true
      → all_accepted accepts (port_calls d) ≡ true
      → enable_io accepts d ≡ (
        record d {
          pci_config = marked d.pci_config;
          memory = marked d.memory;
          port = marked d.port;
          io_up = true;
          calls =
              reverse (port_calls d)
              ++ (reverse (memory_calls d) ++ (reverse (pci_calls d) ++ d.calls));
        },
        true,
      )
  unfolding enable_io
  enable_io_accepted d h1 h2 h3 = ground (
    arith,
    enable_list_all (λ s. map_pcidev d.bus d.device d.function) d.pci_config h1,
    enable_list_all (λ s. map_io true s.start s.end) d.memory h2,
    enable_list_all (λ s. map_io false s.start s.end) d.port h3,
  )

  -- It returns an error when Xen refuses one.
  pub enable_io_done :
      (d : Demu Ops)
      → (enable_io accepts d).1 ≡ true
      → (all_accepted accepts (pci_calls d) ≡ true)
        × (all_accepted accepts (memory_calls d) ≡ true)
        × (all_accepted accepts (port_calls d) ≡ true)
  unfolding enable_io
  enable_io_done d h = ground (
    arith,
    enable_list_done (λ s. map_pcidev d.bus d.device d.function) d.pci_config,
    enable_list_done (λ s. map_io true s.start s.end) d.memory,
    enable_list_done (λ s. map_io false s.start s.end) d.port,
  )
