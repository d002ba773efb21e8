-- ===== src/Env/Devices/Locate.antt =====
-- What `vmiope_locate_emul_device` finds.
use citrix_vgpu.Prelude.{ℕ, ◌<◌, ◌≡◌, ◌==◌, some, none, Option, List, if◌then◌else◌, refl}
use citrix_vgpu.Env.{ErrorCode, success, inval, not_found, handle_null}
use citrix_vgpu.Env.Links.Chain.{count, first, list_apply-Chain}
use citrix_vgpu.Env.Devices.{Devices, emul_device_match, locate_emul_device}
use citrix_vgpu.Env.Devices.Lists.{WellLinked}

abbrev pub answer : Option ℕ → ErrorCode × Option ℕ
answer none = (not_found, none)
answer (some x) = (success, some x)

module _ {C : Type 0} where
  -- With fuel for more devices than are registered, the lookup takes the first with the handle.
  pub locate_first :
      (n handle : ℕ) (d : Devices C) (u f : List ℕ)
      → WellLinked d u f
      → count u < n
      → locate_emul_device n handle d ≡ (
          if handle == handle_null
          then (inval, none)
          else answer (first (emul_device_match handle d.device) u))
  unfolding locate_emul_device
  locate_first n handle d u f w lt =
      rw
        (list_apply-Chain n none d.emul_device_list u (emul_device_match handle d.device) d.links
          w.0 lt)
        refl
