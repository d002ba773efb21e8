-- ===== src/Vga/Reset/Register.antt =====
-- `device_vga_register`, `device_vga_deregister`, `device_initialize` and `device_teardown` of
-- device.c, over the I/O spaces of demu.c.
pub mod Rollback
use citrix_vgpu.Prelude.{ℕ, ◌-◌, Bool, true, false, Option, none, some, set, ◌>>=◌}
use citrix_vgpu.Registry.{
  Demu, Hypercall, demu_register_port_space, demu_register_memory_space, demu_deregister_port_space,
  demu_deregister_memory_space,
}
use citrix_vgpu.Vga.{Vga}
use citrix_vgpu.Vga.Vbe.{device_update_lfb_addr, vram_actual_size}
use citrix_vgpu.Vga.Reset.{device_vga_reset, id0, reset_bank_mask}

-- `device_vga_port_ops`, `device_vbe_port_ops` and `device_vga_memory_ops`
pub data DeviceOps : Type 0 where
  vga_port_ops vbe_port_ops vga_memory_ops : DeviceOps

-- The spaces of `demu_state`, and the device.
pub record Machine : Type 0 where
  pub demu : Demu DeviceOps
  pub vga : Vga

module _ (malloc_ok : ℕ → Bool) (accepts : Hypercall → Bool) where
  -- One step of `device_vga_register`: register the ports, and if a later step fails, its `goto`
  -- label takes them out again.
  unfoldable pub with_ports :
      ℕ → ℕ → DeviceOps → (Machine → Option (Machine × Bool)) → Machine → Option (Machine × Bool)
  with_ports start size ops later m =
      elim (demu_register_port_space malloc_ok accepts start size ops m.demu) [
        | none ↦ none
        | some (d, false) ↦ some (record m { demu = d }, false)
        | some (d, true) ↦ elim (later (record m { demu = d })) [
          | none ↦ none
          | some (m', true) ↦ some (m', true)
          | some (m', false) ↦ elim (demu_deregister_port_space start m'.demu) [
            | none ↦ none
            | some d' ↦ some (record m' { demu = d' }, false)
          ]
        ]
      ]

  unfoldable pub register_memory : Machine → Option (Machine × Bool)
  register_memory m =
      elim (demu_register_memory_space malloc_ok accepts 0xa0000 0x20000 vga_memory_ops m.demu) [
        | none ↦ none
        | some (d, done) ↦ some (record m { demu = d }, done)
      ]

  -- From the assignment to `lfb_size` on. `vram_addr` is what `demu_get_vram_addr` returns.
  unfoldable pub register_vbe : ℕ → Machine → Option (Machine × Bool)
  register_vbe vram_addr m =
      let v = device_update_lfb_addr vram_addr (record m.vga { lfb_size = vram_actual_size }) in
      with_ports 0x1ce 4 vbe_port_ops (with_ports 0xff80 4 vbe_port_ops register_memory) (record m {
        vga = record v { vbe_regs = set v.vbe_regs 0 id0; vbe_bank_mask = reset_bank_mask };
      })

  unfoldable pub device_vga_register : ℕ → Machine → Option (Machine × Bool)
  device_vga_register vram_addr = with_ports 0x3c0 16 vga_port_ops (
      with_ports 0x3b4 2 vga_port_ops (
        with_ports 0x3d4 2 vga_port_ops (
          with_ports 0x3ba 1 vga_port_ops
            (with_ports 0x3da 1 vga_port_ops (register_vbe vram_addr)))))

  unfoldable pub device_initialize : ℕ → Machine → Option (Machine × Bool)
  device_initialize vram_addr m =
      device_vga_register vram_addr (record m { vga = device_vga_reset m.vga })

unfoldable pub device_vga_deregister : Demu DeviceOps → Option (Demu DeviceOps)
device_vga_deregister d =
    demu_deregister_memory_space 0xa0000 d
    >>= demu_deregister_port_space 0xff80
    >>= demu_deregister_port_space 0x1ce
    >>= demu_deregister_port_space 0x3da
    >>= demu_deregister_port_space 0x3ba
    >>= demu_deregister_port_space 0x3d4
    >>= demu_deregister_port_space 0x3b4
    >>= demu_deregister_port_space 0x3c0

unfoldable pub device_teardown : Machine → Option Machine
device_teardown m = elim (device_vga_deregister m.demu) [
  | none ↦ none
  | some d ↦ some (record m { demu = d })
]
