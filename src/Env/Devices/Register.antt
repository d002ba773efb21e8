-- ===== src/Env/Devices/Register.antt =====
-- `_vmiop_register_emul_device` when the daemon refuses the configuration space and when it takes it.
use citrix_vgpu.Prelude.{
  ap, ◌∙◌, update, Option-cases, inl, inr, ◌^◌, ℕ, ◌+◌, ◌<◌, ◌≡◌, ◌==◌, ◌≢◌, Bool, true, false,
  some, none, Option, List, ◌∷◌, arith, if◌then◌else◌, refl,
}
use citrix_vgpu.Env.{ErrorCode, success, inval, handle_null, handle_alloc}
use citrix_vgpu.Env.Links.Chain.{has, count, first, first_same}
use citrix_vgpu.Env.Links.Remove.{erase}
use citrix_vgpu.Env.Devices.{
  Device, Devices, emul_device_match, locate_emul_device, give_back, enlist, fill_device,
  register_emul_device, with_entry,
}
use citrix_vgpu.Env.Devices.Lists.{
  WellLinked, next_entry, IsNew, taken, take_device_lem, enlist-WellLinked, give_back-WellLinked,
}
use citrix_vgpu.Registry.{Demu, Hypercall, demu_register_pci_config_space}
use citrix_vgpu.Env.Devices.Locate.{answer, locate_first}

handle_alloc_room : (n : ℕ) → n + 1 < 2 ^ 32 → handle_alloc n ≡ (n, success, n + 1)
unfolding handle_alloc
handle_alloc_room n room = ground arith

==_pos : (n : ℕ) → 0 < n → (n == handle_null) ≡ false
==_pos n pos = ground arith

answer_new :
    (j x handle : ℕ) (o : Option ℕ)
    → 0 < handle
    → ◌≡◌ {A = ErrorCode × Option ℕ}
        (if j == handle_null then (inval, none) else answer (if j == handle then some x else o))
        (if j == handle
          then (success, some x)
          else if j == handle_null
          then (inval, none)
          else answer o)
answer_new j x handle o pos = ground arith

module _ {C : Type 0} where
  taken_next_handle : (x : ℕ) (d : Devices C) → (taken x d).next_handle ≡ d.next_handle
  taken_next_handle x d = elim (Option-cases d.free_emul_device_list) [
    | inl e ↦ ground arith
    | inr (y, e) ↦ ground arith
  ]

  taken_demu : (x : ℕ) (d : Devices C) → (taken x d).demu ≡ d.demu
  taken_demu x d = elim (Option-cases d.free_emul_device_list) [
    | inl e ↦ ground arith
    | inr (y, e) ↦ ground arith
  ]

  taken_device : (x a : ℕ) (d : Devices C) → x ≢ a → (taken x d).device a ≡ d.device a
  taken_device x a d ne = elim (Option-cases d.free_emul_device_list) [
    | inl e ↦ ground arith
    | inr (y, e) ↦ ground arith
  ]

  -- What is written to the entry
  abbrev pub entry_of : ℕ → C → ℕ → ℕ → Device C
  entry_of object c l handle = record {
    private_object = object;
    callback = some c;
    object_label = some l;
    handle = handle;
  }

  -- The entry is out of both lists, and has its fields and the next handle.
  abbrev pub filled : ℕ → ℕ → C → ℕ → Devices C → Devices C
  filled x object c l d = record (taken x d) {
    next_handle = d.next_handle + 1;
    device = update (taken x d).device x (entry_of object c l d.next_handle);
  }

  -- The lookup once an entry is put first
  first_new :
      (j x : ℕ) (entry : Device C) (device dev : ℕ → Device C) (u : List ℕ)
      → has x u ≡ false
      → ((a : ℕ) → x ≢ a → device a ≡ dev a)
      → first (emul_device_match j (update device x entry)) (x ∷ u)
        ≡ (if j == entry.handle then some x else first (emul_device_match j dev) u)
  unfolding first
  first_new j x entry device dev u out same =
      let later =
        first_same (emul_device_match j (update device x entry)) (emul_device_match j dev) u
          λ a m. let ne : x ≢ a = (λ e. cc) in ground (arith, same a ne) in
      ground (arith, later)

  enlist_demu : (x : ℕ) (d : Devices C) → (enlist x d).demu ≡ d.demu
  unfolding enlist
  enlist_demu x d = refl

  enlist_device : (x : ℕ) (d : Devices C) → (enlist x d).device ≡ d.device
  unfolding enlist
  enlist_device x d = refl

  module _ (malloc_ok : ℕ → Bool) (accepts : Hypercall → Bool) (calloc : Option ℕ) (x object l : ℕ)
      (c : C) (d : Devices C) (u f : List ℕ) (linked : WellLinked d u f)
      (next : next_entry calloc f ≡ some x) (fresh : IsNew calloc u) (started : 0 < d.next_handle)
      (room : d.next_handle + 1 < 2 ^ 32) where
    with_entry_room :
        (d1 : Devices C)
        → d1.next_handle ≡ d.next_handle
        → with_entry malloc_ok accepts object c l (some x, d1)
          ≡ fill_device malloc_ok accepts
              (entry_of object c l d.next_handle)
              x
              (record d1 { next_handle = d.next_handle + 1 })
    unfolding with_entry
    with_entry_room d1 same =
        rw (same, handle_alloc_room d.next_handle room) (rw (==_pos d.next_handle started) refl)

    register_fills :
        register_emul_device malloc_ok accepts calloc object (some c) (some l) true d
        ≡ fill_device malloc_ok accepts
            (entry_of object c l d.next_handle)
            x
            (record (taken x d) { next_handle = d.next_handle + 1 })
    unfolding register_emul_device
    register_fills =
        ap (with_entry malloc_ok accepts object c l)
          (take_device_lem x calloc d u f linked next fresh).0
        ∙ with_entry_room (taken x d) (taken_next_handle x d)

    fill_refused :
        (entry : Device C) (d1 : Devices C) (demu : Demu ℕ)
        → demu_register_pci_config_space malloc_ok accepts x d1.demu ≡ some (demu, false)
        → fill_device malloc_ok accepts entry x d1
          ≡ some (
            success,
            some handle_null,
            give_back x (record d1 { device = update d1.device x entry; demu = demu }),
          )
    unfolding fill_device
    fill_refused entry d1 demu e = ground arith

    fill_accepted :
        (entry : Device C) (d1 : Devices C) (demu : Demu ℕ)
        → demu_register_pci_config_space malloc_ok accepts x d1.demu ≡ some (demu, true)
        → fill_device malloc_ok accepts entry x d1
          ≡ some (
            success,
            some entry.handle,
            enlist x (record d1 { device = update d1.device x entry; demu = demu }),
          )
    unfolding fill_device
    fill_accepted entry d1 demu e = ground arith

    -- A registration with a callback, a label and a place for the handle, an entry to use and a
    -- handle left, for which the daemon refuses the configuration space: it reports success, with a
    -- null handle. The registered devices stay, and the entry goes to the free list.
    pub register_emul_device_refused :
        (demu : Demu ℕ)
        → demu_register_pci_config_space malloc_ok accepts x d.demu ≡ some (demu, false)
        → (d' : Devices C) × (register_emul_device malloc_ok accepts calloc object
              (some c)
              (some l)
              true
              d
            ≡ some (success, some handle_null, d'))
          × WellLinked d' u (x ∷ erase x f)
    register_emul_device_refused demu e =
        let asked = ap (demu_register_pci_config_space malloc_ok accepts x) (taken_demu x d) ∙ e in
        let entry = entry_of object c l d.next_handle in
        (
          give_back x (record (filled x object c l d) { demu = demu }),
          register_fills
              ∙ fill_refused entry (record (taken x d) { next_handle = d.next_handle + 1 }) demu
                  asked,
          give_back-WellLinked x (record (filled x object c l d) { demu = demu }) u (erase x f)
              (take_device_lem x calloc d u f linked next fresh).1,
        )

    -- When the daemon accepts it, the device is first in the list, and its handle finds it. What
    -- every other handle finds stays.
    pub register_emul_device_accepted :
        (demu : Demu ℕ) (n j : ℕ)
        → count u + 1 < n
        → demu_register_pci_config_space malloc_ok accepts x d.demu ≡ some (demu, true)
        → (d' : Devices C) × (register_emul_device malloc_ok accepts calloc object
              (some c)
              (some l)
              true
              d
            ≡ some (success, some d.next_handle, d'))
          × WellLinked d' (x ∷ u) (erase x f)
          × (d'.device x ≡ entry_of object c l d.next_handle)
          × (d'.demu ≡ demu)
          × (locate_emul_device n j d'
              ≡ (if j == d.next_handle then (success, some x) else locate_emul_device n j d))
    register_emul_device_accepted demu n j lt e =
        let asked = ap (demu_register_pci_config_space malloc_ok accepts x) (taken_demu x d) ∙ e in
        let entry = entry_of object c l d.next_handle in
        let d1 : Devices C = record (filled x object c l d) { demu = demu } in
        let out = (take_device_lem x calloc d u f linked next fresh).1 in
        let w = enlist-WellLinked x d1 u (erase x f) out in
        let found =
          first_new j x entry ((taken x d).device) (d.device) u out.1 (λ a. taken_device x a d) in
        (
          enlist x d1,
          register_fills
              ∙ fill_accepted entry (record (taken x d) { next_handle = d.next_handle + 1 }) demu
                  asked,
          w,
          rw (enlist_device x d1) (ground arith),
          enlist_demu x d1,
          locate_first n j (enlist x d1) (x ∷ u) (erase x f) w (omega arith)
              ∙ rw (enlist_device x d1, found, locate_first n j d u f linked (omega arith))
                  (answer_new j x d.next_handle (first (emul_device_match j d.device) u) started),
        )
