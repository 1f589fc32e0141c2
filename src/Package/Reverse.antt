-- ===== src/Package/Reverse.antt =====
-- block-ts/blk-proxy/stress/stress.c: the actions that are reversed.
use cns_virtblk_ts.Base.{
  ℕ, ◌≡◌, ap, sym, ◌∙◌, subst, Bool, true, false, ◌||◌, List, [], ◌∷◌, if◌then◌else◌,
}
use cns_virtblk_ts.Base.Text.{Bytes, codes, strcmp}
use cns_virtblk_ts.Base.Exec.{ok, Exec, pure, >>=-run}
use cns_virtblk_ts.Te.{TeLib}
use cns_virtblk_ts.Backend.{CfgLib}
use cns_virtblk_ts.Virtio.{
  PciLib, vendor_id, device_id, tsapi_get_virtio_blocks, bind_all, tsapi_virtio_blocks_bind_driver,
}
use cns_virtblk_ts.Fio.{FioLib}
use cns_virtblk_ts.Fio.Options.{ParamLib}
use cns_virtblk_ts.Package.{TestLib, host_ta, arm_ta, disk_ta}
use cns_virtblk_ts.Package.Stress.{
  StressAction, unbind, drop_link_arm, drop_link_partner, unload_sfc, StressLib, sleep, drop_link,
  perform,
}
use cns_virtblk_ts.Package.Scene.{Scene, Kept, Restored, Same, is_pair, IsScene}

module _ (params : ParamLib) {W : Type 0} (te : TeLib W) (cfg : CfgLib W) (pci : PciLib W)
    (fios : FioLib W) (lib : TestLib W) (stress : StressLib W) (scene : Scene W) (devs : List Bytes)
    (doc : IsScene te cfg pci lib stress scene devs) where
  open scene use {up, loaded, driver}

  back :
      (b x y z : Bool)
      → y ≡ (if b then false else x)
      → z ≡ (if b then true else y)
      → x ≡ true
      → z ≡ true
  back true x y z e f h = f
  back false x y z e f h = f ∙ e ∙ h

  sleep-eq :
      (n : ℕ) (w w' : W)
      → sleep params te cfg pci fios lib stress n w ≡ (ok tt, w')
      → Same scene w w'
  sleep-eq n w w' h = subst (Same scene w) (ap (λ r. r.1) h) (doc.sleep_same n w)

  -- Down, a pause, and up.
  drop-Kept :
      (ta : Bytes) (get_if : Exec W Bytes) (w w' : W)
      → ((i : Bytes) (v v' : W) → get_if v ≡ (ok i, v') → Same scene v v')
      → drop_link params te cfg pci fios lib stress ta get_if true w ≡ (ok tt, w')
      → Kept scene w w'
  unfolding drop_link
  drop-Kept ta get_if w w' keep h =
      let (u1, w1, e1, h1, s1) = >>=-run stress.test_start_env _ w tt (ap (λ r. r.0) h) in
      let (i, w2, e2, h2, s2) = >>=-run get_if _ w1 tt h1 in
      let (u3, w3, e3, h3, s3) = >>=-run (stress.tapi_cfg_base_if_down ta i) _ w2 tt h2 in
      let pause = sleep params te cfg pci fios lib stress 3 in
      let (u4, w4, e4, h4, s4) = >>=-run pause (λ _. stress.tapi_cfg_base_if_up ta i) w3 tt h3 in
      let last : stress.tapi_cfg_base_if_up ta i w4 ≡ (ok tt, w') = sym (s1 ∙ s2 ∙ s3 ∙ s4) ∙ h in
      let env = doc.env_keeps w w1 e1 in
      let a = keep i w1 w2 e2 in
      let (d1, d2, d3) = doc.down ta i w2 w3 e3 in
      let b = sleep-eq 3 w3 w4 e4 in
      let (r1, r2, r3) = doc.raised ta i w4 w' last in
      record {
        links = λ t k on.
            back (is_pair scene t k ta i) (up t k w2) (up t k w4) (up t k w') (b.links t k ∙ d1 t k)
              (r1 t k) (a.links t k ∙ env.links t k on);
        modules = λ t m on. r2 t m ∙ b.modules t m ∙ d2 t m ∙ a.modules t m ∙ env.modules t m on;
        drivers = λ dev on. r3 dev ∙ b.drivers dev ∙ d3 dev ∙ a.drivers dev ∙ env.drivers dev on;
      }

  unload-Restored :
      (w w' : W)
      → perform params te cfg pci fios lib stress unload_sfc true w ≡ (ok tt, w')
      → Restored scene unload_sfc w w'
  unfolding perform
  unload-Restored w w' h t k on =
      let sfc = codes "sfc" in
      let (u1, w1, e1, h1, s1) =
        >>=-run (stress.tapi_cfg_module_unload arm_ta sfc) _ w tt (ap (λ r. r.0) h) in
      let pause = sleep params te cfg pci fios lib stress 3 in
      let load = stress.tapi_cfg_module_load arm_ta sfc in
      let (u2, w2, e2, h2, s2) = >>=-run pause (λ _. load) w1 tt h1 in
      let b = sleep-eq 3 w1 w2 e2 in
      back (is_pair scene t k arm_ta sfc) (loaded t k w) (loaded t k w2) (loaded t k w')
        (b.modules t k ∙ doc.unload arm_ta sfc w w1 e1 t k)
        (doc.load arm_ta sfc w2 w' (sym (s1 ∙ s2) ∙ h) t k) on

  abbrev mem : Bytes → List Bytes → Bool
  mem k [] = false
  mem k (x ∷ l) = strcmp k x || mem k l

  -- The links and the modules are the same, and the listed devices have the driver.
  record Bound (d : Bytes) (l : List Bytes) (w w' : W) : Type 0 where
    links : (ta i : Bytes) → up ta i w' ≡ up ta i w
    modules : (ta m : Bytes) → loaded ta m w' ≡ loaded ta m w
    drivers : (k : Bytes) → driver k w' ≡ (if mem k l then d else driver k w)

  pick :
      (b c : Bool) (d x y z : Bytes)
      → y ≡ (if b then d else x)
      → z ≡ (if c then d else y)
      → z ≡ (if b || c then d else x)
  pick true true d x y z e f = f
  pick true false d x y z e f = f ∙ e
  pick false true d x y z e f = f
  pick false false d x y z e f = f ∙ e

  bind_all-Bound :
      (d : Bytes) (l : List Bytes) (w w' : W)
      → bind_all te cfg pci d l w ≡ (ok tt, w')
      → Bound d l w w'
  unfolding bind_all
  bind_all-Bound d [] w w' h =
      let same : w' ≡ w = ap (λ r. r.1) (sym h) in
      record {
        links = λ t i. ap (up t i) same;
        modules = λ t m. ap (loaded t m) same;
        drivers = λ k. ap (driver k) same;
      }
  bind_all-Bound d (x ∷ l) w w' h =
      let (u1, w1, e1, h1, s1) =
        >>=-run (pci.tapi_cfg_pci_bind_driver x d) _ w tt (ap (λ r. r.0) h) in
      let (b1, b2, b3) = doc.bound x d w w1 e1 in
      let rest = bind_all-Bound d l w1 w' (sym s1 ∙ h) in
      record {
        links = λ t i. rest.links t i ∙ b2 t i;
        modules = λ t m. rest.modules t m ∙ b3 t m;
        drivers = λ k.
            pick (strcmp k x) (mem k l) d (driver k w) (driver k w1) (driver k w') (b1 k)
              (rest.drivers k);
      }

  unchanged : (w w' : W) → w' ≡ w → Same scene w w'
  unchanged w w' same = record {
    links = λ t i. ap (up t i) same;
    modules = λ t m. ap (loaded t m) same;
    drivers = λ k. ap (driver k) same;
  }

  echo-Same :
      (b : Bool) (m : Exec W Unit) (w w' : W)
      → Same scene w (m w).1
      → (if b then pure tt else m) w ≡ (ok tt, w')
      → Same scene w w'
  echo-Same true m w w' s h = unchanged w w' (ap (λ r. r.1) (sym h))
  echo-Same false m w w' s h = subst (Same scene w) (ap (λ r. r.1) h) s

  bind_driver-Bound :
      (d : Bytes) (w w' : W)
      → tsapi_virtio_blocks_bind_driver te cfg pci host_ta d w ≡ (ok tt, w')
      → Bound d devs w w'
  unfolding tsapi_virtio_blocks_bind_driver tsapi_get_virtio_blocks
  bind_driver-Bound d w w' h =
      let find =
        pci.tapi_cfg_pci_devices_by_vendor_device host_ta vendor_id (device_id te cfg pci) in
      let (l, w1, e1, h1, s1) = >>=-run find _ w tt (ap (λ r. r.0) h) in
      let (l-devs, a) = doc.found l w w1 e1 in
      let (u2, w2, e2, h2, s2) = >>=-run (bind_all te cfg pci d l) _ w1 tt h1 in
      let b =
        bind_all-Bound d devs w1 w2 (ap (λ x. bind_all te cfg pci d x w1) (sym l-devs) ∙ e2) in
      let c =
        echo-Same (strcmp d []) _ w2 w'
          (doc.system_same (codes "echo none > /sys/block/vda/queue/scheduler") w2)
          (sym (s1 ∙ s2) ∙ h) in
      record {
        links = λ t i. c.links t i ∙ b.links t i ∙ a.links t i;
        modules = λ t m. c.modules t m ∙ b.modules t m ∙ a.modules t m;
        drivers =
            λ k. c.drivers k ∙ b.drivers k ∙ ap (λ x. if mem k devs then d else x) (a.drivers k);
      }

  again-driver :
      (b : Bool) (x y z none d : Bytes)
      → y ≡ (if b then none else x)
      → z ≡ (if b then d else y)
      → x ≡ d
      → z ≡ d
  again-driver true x y z none d e f h = f
  again-driver false x y z none d e f h = f ∙ e ∙ h

  unbind-Kept :
      (w w' : W)
      → perform params te cfg pci fios lib stress unbind true w ≡ (ok tt, w')
      → Kept scene w w'
  unfolding perform
  unbind-Kept w w' h =
      let bind = tsapi_virtio_blocks_bind_driver te cfg pci host_ta in
      let virtio = codes "virtio-pci" in
      let (u1, w1, e1, h1, s1) = >>=-run (bind []) _ w tt (ap (λ r. r.0) h) in
      let pause = sleep params te cfg pci fios lib stress 3 in
      let (u2, w2, e2, h2, s2) = >>=-run pause (λ _. bind virtio) w1 tt h1 in
      let a = bind_driver-Bound [] w w1 e1 in
      let b = sleep-eq 3 w1 w2 e2 in
      let c = bind_driver-Bound virtio w2 w' (sym (s1 ∙ s2) ∙ h) in
      record {
        links = λ t i on. c.links t i ∙ b.links t i ∙ a.links t i ∙ on;
        modules = λ t m on. c.modules t m ∙ b.modules t m ∙ a.modules t m ∙ on;
        drivers = λ k on.
            again-driver (mem k devs) (driver k w) (driver k w2) (driver k w') [] virtio
              (b.drivers k ∙ a.drivers k) (c.drivers k) on;
      }

  -- Where the operations do what is documented of them: when an action of the stress test is reversed,
  -- and succeeds, then after a drop of a link and after an unbind, what was up is up, what was loaded is
  -- loaded, and the devices that had the driver virtio-pci have it; after an unload of sfc, what was
  -- loaded is loaded.
  pub perform-reverse :
      (action : StressAction) (w w' : W)
      → perform params te cfg pci fios lib stress action true w ≡ (ok tt, w')
      → Restored scene action w w'
  unfolding perform
  perform-reverse unbind w w' h = unbind-Kept w w' h
  perform-reverse drop_link_arm w w' h = drop-Kept arm_ta stress.get_clt_if w w' doc.clt_same h
  perform-reverse drop_link_partner w w' h = drop-Kept disk_ta stress.get_srv_if w w' doc.srv_same h
  perform-reverse unload_sfc w w' h = unload-Restored w w' h
