-- ===== src/Env/Access.antt =====
-- How vmiop-env.c hands a guest's access to a plugin's callback: the PCI configuration space
-- (`vmiope_config_*`), I/O ports (`vmiope_ioport_*`) and memory-mapped I/O (`vmiope_mmio_*`).
--
-- A callback is a parameter. It gets the content of the data buffer as a number, junk for a read,
-- and returns the error and the content; `none` is a wait that does not end or a call through NULL.
-- The target is little-endian. `t` is the thread.
pub mod Laws
use citrix_vgpu.Prelude.{
  ℕ, ◌+◌, ◌-◌, ◌*◌, ◌%◌, ◌^◌, ◌==◌, ◌||◌, leb, Bool, true, false, Option, none, some, if◌then◌else◌,
  ◌>>=◌,
}
use citrix_vgpu.Env.{ErrorCode, success, inval}
use citrix_vgpu.Env.Monitor.{Monitor, leave_monitor, reenter}
use citrix_vgpu.Io.{IoOps}

pub data EmulOp : Type 0 where
  op_read op_write : EmulOp

-- `vmiop_emul_space_t`
pub data EmulSpace : Type 0 where
  space_config space_io space_mmio : EmulSpace

-- The monitor and the state of the plugins
pub record World (S : Type 0) : Type 0 where
  pub monitor : Monitor
  pub plugin : S

-- private_object, operation, space, offset, length, data
abbrev pub Callback : Type 0 → Type 0
Callback S = ℕ → EmulOp → EmulSpace → ℕ → ℕ → ℕ → World S → Option (ErrorCode × ℕ × World S)

-- The buffer has `len` bytes.
abbrev pub fits : ℕ → ℕ → ℕ
fits len v = v % 2 ^ (8 * len)

module _ {S : Type 0} where
  abbrev pub back : Option Monitor → ErrorCode → ℕ → World S → Option (ErrorCode × ℕ × World S)
  back none e v w = none
  back (some m) e v w = some (e, v, record w { monitor = m })

  -- The callback, outside the monitor; then the monitor again if the thread was in it.
  unfoldable pub call_outside :
      ℕ → (World S → Option (ErrorCode × ℕ × World S)) → World S → Option (ErrorCode × ℕ × World S)
  call_outside t call w =
      let (in_monitor, m) = leave_monitor t w.monitor in
      call (record w { monitor = m }) >>= λ r. back (reenter in_monitor t r.2.monitor) r.0 r.1 r.2

  -- `vmiope_config_read` for a device; `object` and `callback` are the fields of its entry.
  unfoldable pub config_read : ℕ → ℕ → Callback S → ℕ → ℕ → ℕ → World S → Option (ℕ × World S)
  unfolding call_outside
  config_read t object callback junk address len w =
      if leb 256 address
      then some (0xffffffff, w)
      else let call =
          λ (v : World S). callback object op_read space_config address len (fits len junk) v in
        let other = λ (v : World S). some (inval, 0, v) in
        call_outside t (if len == 1 || (len == 2 || len == 4) then call else other) w >>= λ r.
        elim r.0 [ success ↦ some (fits len r.1, r.2) | _ ↦ some (0xffffffff, r.2) ]

  unfoldable pub config_readb : ℕ → ℕ → Callback S → ℕ → ℕ → World S → Option (ℕ × World S)
  unfolding config_read
  config_readb t object callback junk address w =
      config_read t object callback junk (address % 2 ^ 32) 1 w >>= λ r. some (r.0 % 2 ^ 8, r.1)

  unfoldable pub config_readw : ℕ → ℕ → Callback S → ℕ → ℕ → World S → Option (ℕ × World S)
  unfolding config_read
  config_readw t object callback junk address w =
      config_read t object callback junk (address % 2 ^ 32) 2 w >>= λ r. some (r.0 % 2 ^ 16, r.1)

  unfoldable pub config_readl : ℕ → ℕ → Callback S → ℕ → ℕ → World S → Option (ℕ × World S)
  unfolding config_read
  config_readl t object callback junk address w =
      config_read t object callback junk (address % 2 ^ 32) 4 w

  unfoldable pub config_write : ℕ → ℕ → Callback S → ℕ → ℕ → ℕ → World S → Option (World S)
  unfolding call_outside
  config_write t object callback address val len w =
      if leb 256 address
      then some w
      else let call =
          λ (v : World S). callback object op_write space_config address len (fits len val) v in
        let other = λ (v : World S). some (success, 0, v) in
        call_outside t (if len == 1 || (len == 2 || len == 4) then call else other) w >>= λ r.
        some r.2

  unfoldable pub config_writeb : ℕ → ℕ → Callback S → ℕ → ℕ → World S → Option (World S)
  unfolding config_write
  config_writeb t object callback address val w =
      config_write t object callback (address % 2 ^ 32) (val % 2 ^ 8) 1 w

  unfoldable pub config_writew : ℕ → ℕ → Callback S → ℕ → ℕ → World S → Option (World S)
  unfolding config_write
  config_writew t object callback address val w =
      config_write t object callback (address % 2 ^ 32) (val % 2 ^ 16) 2 w

  unfoldable pub config_writel : ℕ → ℕ → Callback S → ℕ → ℕ → World S → Option (World S)
  unfolding config_write
  config_writel t object callback address val w =
      config_write t object callback (address % 2 ^ 32) (val % 2 ^ 32) 4 w

-- `vmiope_region_t`; its mappings are those of Regions.
pub record Region (S : Type 0) : Type 0 where
  pub address_space : EmulSpace
  pub range_base : ℕ
  pub range_length : ℕ
  pub callback : Option (Callback S)
  pub private_object : ℕ

module _ {S : Type 0} where
  -- `vmiope_ioport_read*`: the error is ignored, and the buffer is the value.
  unfoldable pub ioport_read : ℕ → Region S → ℕ → ℕ → ℕ → World S → Option (ℕ × World S)
  unfolding call_outside
  ioport_read len region t junk addr w = elim region.callback [
    | none ↦ none
    | some fn ↦
        call_outside t (fn region.private_object op_read space_io addr len (fits len junk)) w
        >>= λ r. some (fits len r.1, r.2)
  ]

  unfoldable pub ioport_write : ℕ → Region S → ℕ → ℕ → ℕ → World S → Option (World S)
  unfolding call_outside
  ioport_write len region t addr val w = elim region.callback [
    | none ↦ none
    | some fn ↦
        call_outside t (fn region.private_object op_write space_io addr len (fits len val)) w
        >>= λ r. some r.2
  ]

  -- The callback, or for a region without one a line in the log and the value to give
  abbrev pub mmio_target :
      Option (Callback S) → ℕ → EmulOp → ℕ → ℕ → ℕ → ℕ → World S → Option (ErrorCode × ℕ × World S)
  mmio_target none object op addr len v other w = some (success, other, w)
  mmio_target (some fn) object op addr len v other w = fn object op space_mmio addr len v w

  -- `vmiope_mmio_read*`: a region with no callback reads as all ones.
  unfoldable pub mmio_read : ℕ → Region S → ℕ → ℕ → ℕ → World S → Option (ℕ × World S)
  mmio_read len region t junk addr w =
      call_outside t
        (mmio_target region.callback region.private_object op_read addr len (fits len junk)
          (2 ^ (8 * len) - 1))
        w
      >>= λ r. some (fits len r.1, r.2)

  unfoldable pub mmio_write : ℕ → Region S → ℕ → ℕ → ℕ → World S → Option (World S)
  mmio_write len region t addr val w =
      call_outside t
        (mmio_target region.callback region.private_object op_write addr len (fits len val) 0) w
      >>= λ r. some r.2

  -- `vmiope_ioport_ops` and `vmiope_mmio_ops`, with the region as their object
  unfoldable pub ioport_ops : Region S → ℕ → ℕ → IoOps (World S)
  ioport_ops region t junk = record {
    readb = some (ioport_read 1 region t junk);
    readw = some (ioport_read 2 region t junk);
    readl = some (ioport_read 4 region t junk);
    writeb = some (ioport_write 1 region t);
    writew = some (ioport_write 2 region t);
    writel = some (ioport_write 4 region t);
  }

  unfoldable pub mmio_ops : Region S → ℕ → ℕ → IoOps (World S)
  mmio_ops region t junk = record {
    readb = some (mmio_read 1 region t junk);
    readw = some (mmio_read 2 region t junk);
    readl = some (mmio_read 4 region t junk);
    writeb = some (mmio_write 1 region t);
    writew = some (mmio_write 2 region t);
    writel = some (mmio_write 4 region t);
  }
