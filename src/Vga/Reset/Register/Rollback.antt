-- ===== src/Vga/Reset/Register/Rollback.antt =====
-- What `device_vga_register` of device.c leaves on each path, and what `device_vga_deregister` takes
-- out.
use citrix_vgpu.Prelude.{
  ◌∙◌, ap, ℕ, ◌≡◌, ◌≢◌, ◌≤◌, Bool, true, false, Option, none, some, ◌>>=◌, arith, refl,
  Option-cases, inl, inr, List, [], ◌∷◌, if◌then◌else◌, ◌++◌,
}
use citrix_vgpu.Space.{Space}
use citrix_vgpu.Registry.{
  Demu, Hypercall, demu_register_port_space, demu_register_memory_space, demu_deregister_port_space,
  demu_deregister_memory_space, end_of, map_io, unmap_io, deregister_mapped,
}
use citrix_vgpu.Registry.Undo.{
  demu_deregister_memory_space-demu_register_memory_space, demu_register_port_space_total,
  demu_register_memory_space_total, demu_register_port_space_failed, register_mapped_lem,
  deregister_mapped-cons,
}
use citrix_vgpu.Vga.Reset.Register.{
  device_vga_reset, DeviceOps, Machine, with_ports, register_memory, register_vbe,
  device_vga_register, device_vga_deregister, device_initialize, device_teardown, vga_memory_ops,
  vbe_port_ops, vga_port_ops,
}

-- The same spaces: only the hypercalls made may differ.
pub record Same (d d' : Demu DeviceOps) : Type 0 where
  pub port_same : d'.port ≡ d.port
  pub memory_same : d'.memory ≡ d.memory
  pub pci_same : d'.pci_config ≡ d.pci_config
  pub up_same : d'.io_up ≡ d.io_up

deregister_head :
    (s : Space DeviceOps) (l : List (Space DeviceOps)) (d : Demu DeviceOps)
    → d.port ≡ s ∷ l
    → s.start ≤ s.end
    → demu_deregister_port_space s.start d
      ≡ some (record d {
        port = l;
        calls = (if s.io_init then unmap_io false s.start s.end ∷ [] else []) ++ d.calls;
      })
unfolding demu_deregister_port_space
deregister_head s l d e h = ground (
  arith,
  ap
      (λ (p : List (Space DeviceOps)).
        deregister_mapped (λ end. unmap_io false s.start end) p s.start)
      e,
  deregister_mapped-cons (λ end. unmap_io false s.start end) s l h,
)

-- What a later step of the registration promises, with the deregistration that answers it.
record Undone (later : Machine → Option (Machine × Bool))
    (undo : Demu DeviceOps → Option (Demu DeviceOps)) : Type 0 where
  total : (m : Machine) → later m ≢ none
  rolled_back : (m m' : Machine) → later m ≡ some (m', false) → Same m.demu m'.demu
  undone :
      (m m' : Machine)
      → later m ≡ some (m', true)
      → (d : Demu DeviceOps) × (undo m'.demu ≡ some d) × Same m.demu d

module _ (malloc_ok : ℕ → Bool) (accepts : Hypercall → Bool) where
  port_done :
      (start size : ℕ) (ops : DeviceOps) (d d' : Demu DeviceOps)
      → demu_register_port_space malloc_ok accepts start size ops d ≡ some (d', true)
      → (d'.port
          ≡ record { start = start; end = end_of start size; ops = ops; io_init = d.io_up }
            ∷ d.port)
        × (d'.memory ≡ d.memory)
        × (d'.pci_config ≡ d.pci_config)
        × (d'.io_up ≡ d.io_up)
  unfolding demu_register_port_space
  port_done start size ops d d' e = ground (
    arith,
    register_mapped_lem malloc_ok accepts d.io_up (map_io false start (end_of start size)) d.port
        start (end_of start size) ops,
  )

  port_failed :
      (start size : ℕ) (ops : DeviceOps) (d d' : Demu DeviceOps)
      → demu_register_port_space malloc_ok accepts start size ops d ≡ some (d', false)
      → Same d d'
  port_failed start size ops d d' e =
      ground (arith, demu_register_port_space_failed malloc_ok accepts start size ops d d' e)

  -- The deregistration of a space that is in front
  port_undone :
      (start size : ℕ) (ops : DeviceOps) (d d1 d2 : Demu DeviceOps)
      → start ≤ end_of start size
      → demu_register_port_space malloc_ok accepts start size ops d ≡ some (d1, true)
      → Same d1 d2
      → (d3 : Demu DeviceOps) × (demu_deregister_port_space start d2 ≡ some d3) × Same d d3
  port_undone start size ops d d1 d2 h e s =
      let s1 : Space DeviceOps = record {
        start = start;
        end = end_of start size;
        ops = ops;
        io_init = d.io_up;
      } in
      let (p, m, c, u) = port_done start size ops d d1 e in
      (
        _,
        deregister_head s1 d.port d2 (s.port_same ∙ p) h,
        record {
          port_same = refl;
          memory_same = s.memory_same ∙ m;
          pci_same = s.pci_same ∙ c;
          up_same = s.up_same ∙ u;
        },
      )

  register_memory-Undone :
      Undone (register_memory malloc_ok accepts) (demu_deregister_memory_space 0xa0000)
  unfolding register_memory demu_register_memory_space
  register_memory-Undone = record {
    total = λ m e. ground (
      arith,
      demu_register_memory_space_total malloc_ok accepts 0xa0000 0x20000 vga_memory_ops m.demu,
    );
    rolled_back = λ m m' e. ground (
      arith,
      register_mapped_lem malloc_ok accepts m.demu.io_up
          (map_io true 0xa0000 (end_of 0xa0000 0x20000)) m.demu.memory 0xa0000
          (end_of 0xa0000 0x20000) vga_memory_ops,
    );
    undone = λ m m' e.
        elim (Option-cases
          (demu_register_memory_space malloc_ok accepts 0xa0000 0x20000 vga_memory_ops m.demu)) [
            | inl n ↦ ground arith
            | inr ((d, false), q) ↦ ground arith
            | inr ((d, true), q) ↦
                let back =
                  demu_deregister_memory_space-demu_register_memory_space malloc_ok accepts 0xa0000
                    0x20000 vga_memory_ops m.demu d (omega arith) q in
                let same : m'.demu ≡ d = ground arith in
                (
                  _,
                  ap (demu_deregister_memory_space 0xa0000) same ∙ back,
                  record { port_same = refl; memory_same = refl; pci_same = refl; up_same = refl },
                )
          ];
  }

  with_ports-Undone :
      (start size : ℕ) (ops : DeviceOps) (later : Machine → Option (Machine × Bool))
      (undo : Demu DeviceOps → Option (Demu DeviceOps))
      → start ≤ end_of start size
      → Undone later undo
      → Undone
          (with_ports malloc_ok accepts start size ops later)
          (λ d. undo d >>= demu_deregister_port_space start)
  unfolding with_ports
  with_ports-Undone start size ops later undo h u = record {
    total = λ m e.
        elim (Option-cases (demu_register_port_space malloc_ok accepts start size ops m.demu)) [
          | inl n ↦ demu_register_port_space_total malloc_ok accepts start size ops m.demu n
          | inr ((d, false), q) ↦ ground arith
          | inr ((d, true), q) ↦ elim (Option-cases (later (record m { demu = d }))) [
            | inl n ↦ u.total (record m { demu = d }) n
            | inr ((m', true), q') ↦ ground arith
            | inr ((m', false), q') ↦
                let (d3, e3, same) =
                  port_undone start size ops m.demu d m'.demu h q
                    (u.rolled_back (record m { demu = d }) m' q') in
                ground arith
          ]
        ];
    rolled_back = λ m m' e.
        elim (Option-cases (demu_register_port_space malloc_ok accepts start size ops m.demu)) [
          | inl n ↦ ground arith
          | inr ((d, false), q) ↦ ground (arith, port_failed start size ops m.demu d q)
          | inr ((d, true), q) ↦ elim (Option-cases (later (record m { demu = d }))) [
            | inl n ↦ ground arith
            | inr ((m1, true), q') ↦ ground arith
            | inr ((m1, false), q') ↦
                let (d3, e3, same) =
                  port_undone start size ops m.demu d m1.demu h q
                    (u.rolled_back (record m { demu = d }) m1 q') in
                ground arith
          ]
        ];
    undone = λ m m' e.
        elim (Option-cases (demu_register_port_space malloc_ok accepts start size ops m.demu)) [
          | inl n ↦ ground arith
          | inr ((d, false), q) ↦ ground arith
          | inr ((d, true), q) ↦ elim (Option-cases (later (record m { demu = d }))) [
            | inl n ↦ ground arith
            | inr ((m1, true), q') ↦
                let (d2, e2, same2) = u.undone (record m { demu = d }) m1 q' in
                let (d3, e3, same) = port_undone start size ops m.demu d d2 h q same2 in
                (d3, ground arith, same)
            | inr ((m1, false), q') ↦ ground arith
          ]
        ];
  }

  register_vbe-Undone :
      (vram_addr : ℕ)
      → Undone (register_vbe malloc_ok accepts vram_addr) (λ d.
        demu_deregister_memory_space 0xa0000 d
        >>= demu_deregister_port_space 0xff80
        >>= demu_deregister_port_space 0x1ce)
  unfolding register_vbe
  register_vbe-Undone vram_addr =
      let u =
        with_ports-Undone 0x1ce 4 vbe_port_ops
          (with_ports malloc_ok accepts 0xff80 4 vbe_port_ops (register_memory malloc_ok accepts))
          (λ d. demu_deregister_memory_space 0xa0000 d >>= demu_deregister_port_space 0xff80)
          (omega arith)
          (with_ports-Undone 0xff80 4 vbe_port_ops (register_memory malloc_ok accepts)
            (demu_deregister_memory_space 0xa0000) (omega arith) register_memory-Undone) in
      record {
        total = λ m. u.total _;
        rolled_back = λ m m' e. u.rolled_back _ m' e;
        undone = λ m m' e. u.undone _ m' e;
      }

  device_vga_register-Undone :
      (vram_addr : ℕ)
      → Undone (device_vga_register malloc_ok accepts vram_addr) device_vga_deregister
  unfolding device_vga_register device_vga_deregister
  device_vga_register-Undone vram_addr = with_ports-Undone 0x3c0 16 vga_port_ops _ _ (omega arith) (
      with_ports-Undone 0x3b4 2 vga_port_ops _ _ (omega arith) (
        with_ports-Undone 0x3d4 2 vga_port_ops _ _ (omega arith) (
          with_ports-Undone 0x3ba 1 vga_port_ops _ _ (omega arith) (
            with_ports-Undone 0x3da 1 vga_port_ops _ _ (omega arith)
              (register_vbe-Undone vram_addr)))))

  -- No assertion fails in `device_initialize`, whichever of the eight registrations is refused.
  pub device_initialize_total :
      (vram_addr : ℕ) (m : Machine) → device_initialize malloc_ok accepts vram_addr m ≢ none
  unfolding device_initialize
  device_initialize_total vram_addr m =
      (device_vga_register-Undone vram_addr).total (record m { vga = device_vga_reset m.vga })

  -- If `device_initialize` returns -1, the spaces of `demu_state` are those before the call,
  -- whichever of the eight registrations was refused.
  pub device_initialize_rolled_back :
      (vram_addr : ℕ) (m m' : Machine)
      → device_initialize malloc_ok accepts vram_addr m ≡ some (m', false)
      → Same m.demu m'.demu
  unfolding device_initialize
  device_initialize_rolled_back vram_addr m m' e =
      (device_vga_register-Undone vram_addr).rolled_back (record m { vga = device_vga_reset m.vga })
        m' e

  -- After a `device_initialize` that returns 0, `device_teardown` succeeds and leaves the spaces of
  -- `demu_state` as they were before.
  pub device_teardown-device_initialize :
      (vram_addr : ℕ) (m m' : Machine)
      → device_initialize malloc_ok accepts vram_addr m ≡ some (m', true)
      → (m'' : Machine) × (device_teardown m' ≡ some m'') × Same m.demu m''.demu
  unfolding device_initialize device_teardown
  device_teardown-device_initialize vram_addr m m' e =
      let u = device_vga_register-Undone vram_addr in
      let (d, q, same) = u.undone (record m { vga = device_vga_reset m.vga }) m' e in
      (record m' { demu = d }, ground arith, same)
