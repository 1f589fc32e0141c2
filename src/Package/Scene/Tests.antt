-- ===== src/Package/Scene/Tests.antt =====
-- The drivers, the links and the modules of agents as functions, and the theorems about the tests that take
-- them away and give them back.
use cns_virtblk_ts.Base.{
  ℕ, ◌+◌, ◌<◌, ◌==◌, ltb, ◌≡◌, refl, ap, sym, ◌∙◌, Bool, true, false, not, [], ◌∷◌, if◌then◌else◌,
}
use cns_virtblk_ts.Base.Text.{Bytes, codes, strcmp}
use cns_virtblk_ts.Base.Exec.{Result, Status, ok}
use cns_virtblk_ts.Virtio.{
  PciLib, tsapi_get_virtio_blocks, tsapi_virtio_blocks_count, bind_all,
  tsapi_virtio_blocks_bind_driver,
}
use cns_virtblk_ts.Package.{TestLib, host_ta}
use cns_virtblk_ts.Package.Model.{test_lib, params, te, cfg, fios, pci}
use cns_virtblk_ts.Package.Config.{
  ConfigLib, is_empty, rebind_times, current_driver, rebind_device, rebind_from, driver_rebind,
}
use cns_virtblk_ts.Package.Drivers.{IsDrivers, driver_rebind-keeps}
use cns_virtblk_ts.Package.Stress.{StressAction, unbind, StressLib, perform}
use cns_virtblk_ts.Package.Scene.{Scene, Restored, Same, is_pair, IsScene}
use cns_virtblk_ts.Package.Reverse.{perform-reverse}

ok-eq : {A : Type 0} (a b : A) → ◌≡◌ {A = Result A} (ok a) (ok b) → a ≡ b
ok-eq a b h = cc

-- The driver of each device, and how often one has been bound to it.
abbrev Devices : Type 0
Devices = (ℕ → Bytes) × (ℕ → ℕ)

abbrev config : ConfigLib Devices
config = record {
  get_driver = λ ta vendor device j w. (ok (w.0 j), w);
  bind_driver = λ ta vendor device j d w.
      (ok tt, (λ k. if k == j then d else w.0 k, λ k. if k == j then w.1 k + 1 else w.1 k));
  unbind_driver = λ ta vendor device j w. (ok tt, (λ k. if k == j then [] else w.0 k, w.1));
  tapi_cfg_ps_get_autorestart = λ ta name w. (ok 0, w);
  tapi_cfg_ps_set_autorestart = λ ta name v w. (ok tt, w);
  cfg_reboot_ta = λ ta w. (ok tt, w);
  te_motivated_sleep = λ n w. w;
}

abbrev vendor : Bytes
vendor = codes "1bf4"

config-IsDrivers : IsDrivers config host_ta vendor vendor (λ k w. w.0 k) (λ k w. w.1 k)
config-IsDrivers = record {
  got = λ j d w w' h. (
    sym (ok-eq (w.0 j) d (ap (λ r. r.0) h)),
    λ k. (ap (λ r. r.1.0 k) (sym h), ap (λ r. r.1.1 k) (sym h)),
  );
  bound = λ j d w w' h k. (ap (λ r. r.1.0 k) (sym h), ap (λ r. r.1.1 k) (sym h));
  unbound = λ j w w' h k. (ap (λ r. r.1.0 k) (sym h), ap (λ r. r.1.1 k) (sym h));
  slept = λ n k w. (refl, refl);
}

abbrev start : Devices
start = (λ k. codes "virtio-pci", λ k. 0)

one-found : tsapi_virtio_blocks_count te cfg pci host_ta start ≡ (ok 1, start)
unfolding tsapi_virtio_blocks_count tsapi_get_virtio_blocks
one-found = refl

abbrev rebound : Status × Devices
rebound = driver_rebind config host_ta vendor vendor te cfg pci 2 start

rebound-ok : rebound.0 ≡ ok tt
unfolding driver_rebind rebind_from rebind_device current_driver rebind_times
    tsapi_virtio_blocks_count tsapi_get_virtio_blocks
rebound-ok = refl

driver_rebind-keeps_example :
    (0 < 2)
    × ((k : ℕ)
        → (rebound.1.0 k ≡ codes "virtio-pci")
          × (rebound.1.1 k ≡ 0 + (if ltb k 1 then 2 else 0))
          × (k < 1 → not (is_empty (codes "virtio-pci")) ≡ true))
driver_rebind-keeps_example =
    driver_rebind-keeps config host_ta vendor vendor (λ k w. w.0 k) (λ k w. w.1 k) config-IsDrivers
      te cfg pci 2 1 start start rebound.1 one-found (λ k. (refl, refl))
      (ap (λ r. (r, rebound.1)) rebound-ok)

-- The links that are up, the modules that are loaded, and the drivers.
record Agents : Type 0 where
  up : Bytes → Bytes → Bool
  loaded : Bytes → Bytes → Bool
  driver : Bytes → Bytes

abbrev scene : Scene Agents
scene = record {
  up = λ ta i w. w.up ta i;
  loaded = λ ta m w. w.loaded ta m;
  driver = λ dev w. w.driver dev;
}

abbrev set_link : Bool → Bytes → Bytes → Agents → Agents
set_link b ta i w = record w { up = λ t k. if is_pair scene t k ta i then b else w.up t k }

abbrev set_module : Bool → Bytes → Bytes → Agents → Agents
set_module b ta m w = record w {
  loaded = λ t k. if is_pair scene t k ta m then b else w.loaded t k;
}

abbrev stress : StressLib Agents
stress = record {
  test_start_env = λ w. (ok tt, w);
  get_clt_if = λ w. (ok (codes "eth0"), w);
  get_srv_if = λ w. (ok (codes "eth1"), w);
  tapi_cfg_base_if_down = λ ta i w. (ok tt, set_link false ta i w);
  tapi_cfg_base_if_up = λ ta i w. (ok tt, set_link true ta i w);
  tapi_cfg_module_unload = λ ta m w. (ok tt, set_module false ta m w);
  tapi_cfg_module_load = λ ta m w. (ok tt, set_module true ta m w);
}

abbrev binding : PciLib Agents
binding = record pci {
  tapi_cfg_pci_bind_driver =
      λ dev d w. (ok tt, record w { driver = λ k. if strcmp k dev then d else w.driver k });
}

abbrev lib : TestLib Agents
lib = test_lib (λ w. w) (λ n w. w)

binding-IsScene : IsScene te cfg binding lib stress scene (codes "0000:02:00.0" ∷ [])
binding-IsScene = record {
  down = λ ta i w w' h. (
    λ t k. ap (λ r. r.1.up t k) (sym h),
    λ t m. ap (λ r. r.1.loaded t m) (sym h),
    λ dev. ap (λ r. r.1.driver dev) (sym h),
  );
  raised = λ ta i w w' h. (
    λ t k. ap (λ r. r.1.up t k) (sym h),
    λ t m. ap (λ r. r.1.loaded t m) (sym h),
    λ dev. ap (λ r. r.1.driver dev) (sym h),
  );
  unload = λ ta m w w' h t k. ap (λ r. r.1.loaded t k) (sym h);
  load = λ ta m w w' h t k. ap (λ r. r.1.loaded t k) (sym h);
  bound = λ dev d w w' h. (
    λ k. ap (λ r. r.1.driver k) (sym h),
    λ t i. ap (λ r. r.1.up t i) (sym h),
    λ t m. ap (λ r. r.1.loaded t m) (sym h),
  );
  found = λ l w w' h. (
    sym (ok-eq (codes "0000:02:00.0" ∷ []) l (ap (λ r. r.0) h)),
    unchanged w w' (ap (λ r. r.1) (sym h)),
  );
  system_same = λ s w. unchanged w w refl;
  sleep_same = λ n w. unchanged w w refl;
  env_keeps = λ w w' h. record {
    links = λ t i on. ap (λ r. r.1.up t i) (sym h) ∙ on;
    modules = λ t m on. ap (λ r. r.1.loaded t m) (sym h) ∙ on;
    drivers = λ dev on. ap (λ r. r.1.driver dev) (sym h) ∙ on;
  };
  clt_same = λ i w w' h. unchanged w w' (ap (λ r. r.1) (sym h));
  srv_same = λ i w w' h. unchanged w w' (ap (λ r. r.1) (sym h));
}
  where
    unchanged : (w w' : Agents) → w' ≡ w → Same scene w w'
    unchanged w w' same = record {
      links = λ t i. ap (λ x. x.up t i) same;
      modules = λ t m. ap (λ x. x.loaded t m) same;
      drivers = λ k. ap (λ x. x.driver k) same;
    }

abbrev all_up : Agents
all_up = record { up = λ ta i. true; loaded = λ ta m. true; driver = λ dev. codes "virtio-pci" }

abbrev after : StressAction → Status × Agents
after action = perform params te cfg binding fios lib stress action true all_up

unbind-ok : (after unbind).0 ≡ ok tt
unfolding perform tsapi_virtio_blocks_bind_driver tsapi_get_virtio_blocks bind_all strcmp
unbind-ok = refl

perform-reverse_example : Restored scene unbind all_up (after unbind).1
perform-reverse_example =
    perform-reverse params te cfg binding fios lib stress scene (codes "0000:02:00.0" ∷ [])
      binding-IsScene unbind all_up (after unbind).1 (ap (λ r. (r, (after unbind).1)) unbind-ok)
