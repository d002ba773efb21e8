-- ===== src/Env/Devices.antt =====
-- The registered emulated devices of vmiop-env.c: `vmiope_locate_emul_device`,
-- `_vmiop_register_emul_device` and `_vmiop_unregister_emul_device`, over `emul_device_list` and
-- `free_emul_device_list`.
--
-- A device is the address of its entry, which is also that of its list pointers. The PCI
-- configuration space is that of Registry, with the entry's address as the object of its
-- operations. `none` as a whole is a failed `assert` of demu.c.
pub mod Lists
pub mod Locate
pub mod Register
pub mod Unregister
use citrix_vgpu.Prelude.{ℕ, ◌==◌, Bool, true, false, Option, none, some, update, if◌then◌else◌}
use citrix_vgpu.Env.{ErrorCode, success, inval, resource, not_found, handle_alloc, handle_null}
use citrix_vgpu.Env.Links.{Links, list_insert, list_remove, list_apply}
use citrix_vgpu.Registry.{
  Demu, Hypercall, demu_register_pci_config_space, demu_deregister_pci_config_space,
}

-- `vmiope_emul_device_t`, without its list pointers
pub record Device (C : Type 0) : Type 0 where
  pub private_object : ℕ
  pub callback : Option C
  pub object_label : Option ℕ
  pub handle : ℕ

-- The static variables, the heap, and the daemon below
pub record Devices (C : Type 0) : Type 0 where
  pub emul_device_list : Option ℕ
  pub free_emul_device_list : Option ℕ
  pub links : Links
  pub device : ℕ → Device C
  pub next_handle : ℕ
  pub demu : Demu ℕ

module _ {C : Type 0} where
  -- `vmiope_emul_device_match`
  abbrev pub emul_device_match : ℕ → (ℕ → Device C) → ℕ → Bool
  emul_device_match handle device x = handle == (device x).handle

  -- The fuel bounds the number of registered devices.
  unfoldable pub locate_emul_device : ℕ → ℕ → Devices C → ErrorCode × Option ℕ
  locate_emul_device n handle d =
      if handle == handle_null
      then (inval, none)
      else elim (list_apply n d.emul_device_list (emul_device_match handle d.device) d.links) [
        | none ↦ (not_found, none)
        | some x ↦ (success, some x)
      ]

  -- A new entry is zeroed.
  abbrev pub zeroed : ℕ → Devices C → Devices C
  zeroed x d = record d {
    links = record { next = update d.links.next x none; prev = update d.links.prev x none };
    device =
        update d.device x
          (record { private_object = 0; callback = none; object_label = none; handle = 0 });
  }

  -- The entry to use: the head of the free list, or a new one, which `calloc` may refuse.
  unfoldable pub take_device : Option ℕ → Devices C → Option ℕ × Devices C
  take_device calloc d = elim d.free_emul_device_list [
    | some x ↦
        let (head, links) = list_remove x d.free_emul_device_list d.links in
        (some x, record d { free_emul_device_list = head; links = links })
    | none ↦ elim calloc [ none ↦ (none, d) | some x ↦ (some x, zeroed x d) ]
  ]

  -- `error_exit`, for an entry
  unfoldable pub give_back : ℕ → Devices C → Devices C
  give_back x d =
      let (head, links) = list_insert x d.free_emul_device_list d.links in
      record d { free_emul_device_list = head; links = links }

  unfoldable pub enlist : ℕ → Devices C → Devices C
  enlist x d =
      let (head, links) = list_insert x d.emul_device_list d.links in
      record d { emul_device_list = head; links = links }

  module _ (malloc_ok : ℕ → Bool) (accepts : Hypercall → Bool) where
    -- Once there is an entry and a handle. The error is still that of `vmiope_handle_alloc` when
    -- the configuration space is refused.
    unfoldable pub fill_device :
        Device C → ℕ → Devices C → Option (ErrorCode × Option ℕ × Devices C)
    fill_device entry x d =
        let d1 = record d { device = update d.device x entry } in
        elim (demu_register_pci_config_space malloc_ok accepts x d1.demu) [
          | none ↦ none
          | some (demu, ok) ↦
              let d2 = record d1 { demu = demu } in
              if ok
              then some (success, some entry.handle, enlist x d2)
              else some (success, some handle_null, give_back x d2)
        ]

    -- From `vmiope_handle_alloc` on, with the entry taken, if there is one.
    unfoldable pub with_entry :
        ℕ → C → ℕ → Option ℕ × Devices C → Option (ErrorCode × Option ℕ × Devices C)
    with_entry object c l (none, d) = some (resource, some handle_null, d)
    with_entry object c l (some x, d) =
        let (handle, error, next) = handle_alloc d.next_handle in
        let entry : Device C = record {
          private_object = object;
          callback = some c;
          object_label = some l;
          handle = handle;
        } in
        if handle == handle_null
        then some (error, some handle_null, give_back x d)
        else fill_device entry x (record d { next_handle = next })

    -- The error, what is written to `*handle_p`, and the new state. The callback and the label may
    -- be NULL; `handle_given` says whether `handle_p` is not.
    unfoldable pub register_emul_device :
        Option ℕ
        → ℕ
        → Option C
        → Option ℕ
        → Bool
        → Devices C
        → Option (ErrorCode × Option ℕ × Devices C)
    unfolding with_entry
    register_emul_device calloc object none label handle_given d = some (inval, none, d)
    register_emul_device calloc object (some c) none handle_given d = some (inval, none, d)
    register_emul_device calloc object (some c) (some l) handle_given d =
        if handle_given then with_entry object c l (take_device calloc d) else some (inval, none, d)

  unfoldable pub delist : ℕ → Devices C → Devices C
  delist x d =
      let (head, links) = list_remove x d.emul_device_list d.links in
      record d { emul_device_list = head; links = links }

  unfoldable pub unregister_emul_device : ℕ → ℕ → Devices C → Option (ErrorCode × Devices C)
  unregister_emul_device n handle d =
      let (error, located) = locate_emul_device n handle d in
      elim located [
        | none ↦ some (error, d)
        | some x ↦ elim (demu_deregister_pci_config_space d.demu) [
          | none ↦ none
          | some demu ↦ some (success, give_back x (delist x (record d { demu = demu })))
        ]
      ]
