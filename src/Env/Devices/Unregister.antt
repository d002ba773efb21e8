-- ===== src/Env/Devices/Unregister.antt =====
-- What `_vmiop_unregister_emul_device` does with the lists.
use citrix_vgpu.Prelude.{
  ℕ, ◌≡◌, ◌≢◌, ◌<◌, Bool, true, none, some, List, [], ◌∷◌, arith, refl, inl, inr, Bool-cases,
}
use citrix_vgpu.Env.{success, handle_null}
use citrix_vgpu.Env.Links.{list_remove}
use citrix_vgpu.Env.Links.Chain.{has, count, first}
use citrix_vgpu.Env.Links.Remove.{
  erase, has-erase, erase_gone, list_remove-Chain, list_remove-SameOutside, list_remove_cleared,
}
use citrix_vgpu.Env.Devices.{
  Devices, emul_device_match, locate_emul_device, delist, give_back, unregister_emul_device,
}
use citrix_vgpu.Env.Devices.Lists.{WellLinked, IsTaken, Chain-Apart, give_back-WellLinked}
use citrix_vgpu.Env.Devices.Locate.{locate_first}
use citrix_vgpu.Registry.{Demu, demu_deregister_pci_config_space}

first-has : (g : ℕ → Bool) (l : List ℕ) (x : ℕ) → first g l ≡ some x → has x l ≡ true
unfolding first
first-has g [] x e = cc
first-has g (y ∷ l) x e = ground (arith, first-has g l x)

module _ {C : Type 0} where
  delist-IsTaken :
      (x : ℕ) (d : Devices C) (u f : List ℕ)
      → WellLinked d u f
      → has x u ≡ true
      → IsTaken x (delist x d) (erase x u) f
  unfolding delist
  delist-IsTaken x d u f w m =
      let gone = list_remove-Chain x d.emul_device_list u d.links w.0 m in
      let same = list_remove-SameOutside x d.emul_device_list u d.links w.0 m in
      (
        (
          gone,
          Chain-Apart u f none d.free_emul_device_list d.links
              ((list_remove x d.emul_device_list d.links).1) same (λ a i. ground (arith, w.2 a))
              w.1,
          λ a i. elim (Bool-cases (has a u)) [
            | inl e ↦ w.2 a e
            | inr e ↦ absurd (ground (arith, has-erase x a u e))
          ],
        ),
        erase_gone x d.links none d.emul_device_list u w.0,
        w.2 x m,
        (list_remove_cleared x d.emul_device_list d.links).1,
      )

  give_back_demu : (x : ℕ) (d : Devices C) → (give_back x d).demu ≡ d.demu
  unfolding give_back
  give_back_demu x d = refl

  delist_demu : (x : ℕ) (d : Devices C) → (delist x d).demu ≡ d.demu
  unfolding delist
  delist_demu x d = refl

  unregister_step :
      (n handle x : ℕ) (d : Devices C) (demu : Demu ℕ)
      → locate_emul_device n handle d ≡ (success, some x)
      → demu_deregister_pci_config_space d.demu ≡ some demu
      → unregister_emul_device n handle d
        ≡ some (success, give_back x (delist x (record d { demu = demu })))
  unfolding unregister_emul_device
  unregister_step n handle x d demu found e = ground arith

  locate_found :
      (n handle x : ℕ) (d : Devices C) (u f : List ℕ)
      → WellLinked d u f
      → count u < n
      → handle ≢ handle_null
      → first (emul_device_match handle d.device) u ≡ some x
      → locate_emul_device n handle d ≡ (success, some x)
  locate_found n handle x d u f w lt ne at = ground (arith, locate_first n handle d u f w lt)

  -- Unregistering the handle of a registered device moves its entry to the free list, and keeps
  -- the order of the others.
  pub unregister_emul_device_found :
      (n handle x : ℕ) (d : Devices C) (u f : List ℕ) (demu : Demu ℕ)
      → WellLinked d u f
      → count u < n
      → handle ≢ handle_null
      → first (emul_device_match handle d.device) u ≡ some x
      → demu_deregister_pci_config_space d.demu ≡ some demu
      → (d' : Devices C) × (unregister_emul_device n handle d ≡ some (success, d'))
        × WellLinked d' (erase x u) (x ∷ f)
        × (d'.demu ≡ demu)
  unregister_emul_device_found n handle x d u f demu w lt ne at e =
      let found = locate_found n handle x d u f w lt ne at in
      let d1 : Devices C = record d { demu = demu } in
      (
        give_back x (delist x d1),
        unregister_step n handle x d demu found e,
        give_back-WellLinked x (delist x d1) (erase x u) f
            (delist-IsTaken x d1 u f w (first-has (emul_device_match handle d.device) u x at)),
        ground (arith, give_back_demu x (delist x d1), delist_demu x d1),
      )
