-- ===== src/Package/Scene.antt =====
-- block-ts/blk-proxy/stress/stress.c: what the actions work on, and what is documented of their operations.
pub mod Tests
use cns_virtblk_ts.Base.{ℕ, ◌≡◌, Bool, true, false, ◌&&◌, List, if◌then◌else◌}
use cns_virtblk_ts.Base.Text.{Bytes, codes, strcmp}
use cns_virtblk_ts.Base.Exec.{ok}
use cns_virtblk_ts.Te.{TeLib}
use cns_virtblk_ts.Backend.{CfgLib}
use cns_virtblk_ts.Virtio.{PciLib, vendor_id, device_id}
use cns_virtblk_ts.Package.{TestLib, host_ta}
use cns_virtblk_ts.Package.Stress.{
  StressAction, unbind, drop_link_arm, drop_link_partner, unload_sfc, StressLib,
}

-- Whether an interface of an agent is up, whether it has loaded a module, and
-- the driver of a PCI device.
pub record Scene (W : Type 0) : Type 0 where
  pub up : Bytes → Bytes → W → Bool
  pub loaded : Bytes → Bytes → W → Bool
  pub driver : Bytes → W → Bytes

module _ {W : Type 0} (scene : Scene W) where
  open scene use {up, loaded, driver}

  -- Nothing is lost: what is up stays up, what is loaded stays loaded, and what has the driver of the
  -- suite keeps it.
  pub record Kept (w w' : W) : Type 0 where
    pub links : (ta i : Bytes) → up ta i w ≡ true → up ta i w' ≡ true
    pub modules : (ta m : Bytes) → loaded ta m w ≡ true → loaded ta m w' ≡ true
    pub drivers :
        (dev : Bytes) → driver dev w ≡ codes "virtio-pci" → driver dev w' ≡ codes "virtio-pci"

  -- What is asked of an action that is reversed: all of this, and only the modules where sfc is unloaded.
  abbrev pub Restored : StressAction → W → W → Type 0
  Restored unload_sfc w w' = (ta m : Bytes) → loaded ta m w ≡ true → loaded ta m w' ≡ true
  Restored unbind w w' = Kept w w'
  Restored drop_link_arm w w' = Kept w w'
  Restored drop_link_partner w w' = Kept w w'

  -- Nothing changes.
  pub record Same (w w' : W) : Type 0 where
    pub links : (ta i : Bytes) → up ta i w' ≡ up ta i w
    pub modules : (ta m : Bytes) → loaded ta m w' ≡ loaded ta m w
    pub drivers : (dev : Bytes) → driver dev w' ≡ driver dev w

  abbrev pub is_pair : Bytes → Bytes → Bytes → Bytes → Bool
  is_pair a b c d = strcmp a c && strcmp b d

-- What is documented of the operations; `devs` are the virtio block devices of the host. Of the modules only
-- those that are loaded are said: what else goes with a module is not.
pub record IsScene {W : Type 0} (te : TeLib W) (cfg : CfgLib W) (pci : PciLib W) (lib : TestLib W)
    (stress : StressLib W) (scene : Scene W) (devs : List Bytes) : Type 0 where
  pub down :
      (ta i : Bytes) (w w' : W)
      → stress.tapi_cfg_base_if_down ta i w ≡ (ok tt, w')
      → ((t k : Bytes)
          → scene.up t k w' ≡ (if is_pair scene t k ta i then false else scene.up t k w))
        × ((t m : Bytes) → scene.loaded t m w' ≡ scene.loaded t m w)
        × ((dev : Bytes) → scene.driver dev w' ≡ scene.driver dev w)
  pub raised :
      (ta i : Bytes) (w w' : W)
      → stress.tapi_cfg_base_if_up ta i w ≡ (ok tt, w')
      → ((t k : Bytes)
          → scene.up t k w' ≡ (if is_pair scene t k ta i then true else scene.up t k w))
        × ((t m : Bytes) → scene.loaded t m w' ≡ scene.loaded t m w)
        × ((dev : Bytes) → scene.driver dev w' ≡ scene.driver dev w)
  pub unload :
      (ta m : Bytes) (w w' : W)
      → stress.tapi_cfg_module_unload ta m w ≡ (ok tt, w')
      → (t k : Bytes)
      → scene.loaded t k w' ≡ (if is_pair scene t k ta m then false else scene.loaded t k w)
  pub load :
      (ta m : Bytes) (w w' : W)
      → stress.tapi_cfg_module_load ta m w ≡ (ok tt, w')
      → (t k : Bytes)
      → scene.loaded t k w' ≡ (if is_pair scene t k ta m then true else scene.loaded t k w)
  pub bound :
      (dev d : Bytes) (w w' : W)
      → pci.tapi_cfg_pci_bind_driver dev d w ≡ (ok tt, w')
      → ((k : Bytes) → scene.driver k w' ≡ (if strcmp k dev then d else scene.driver k w))
        × ((t i : Bytes) → scene.up t i w' ≡ scene.up t i w)
        × ((t m : Bytes) → scene.loaded t m w' ≡ scene.loaded t m w)
  pub found :
      (l : List Bytes) (w w' : W)
      → pci.tapi_cfg_pci_devices_by_vendor_device host_ta vendor_id (device_id te cfg pci) w
        ≡ (ok l, w')
      → (l ≡ devs) × Same scene w w'
  pub system_same : (s : Bytes) (w : W) → Same scene w (pci.rpc_system s w).1
  pub sleep_same : (n : ℕ) (w : W) → Same scene w (lib.te_motivated_sleep n w)
  pub env_keeps : (w w' : W) → stress.test_start_env w ≡ (ok tt, w') → Kept scene w w'
  pub clt_same : (i : Bytes) (w w' : W) → stress.get_clt_if w ≡ (ok i, w') → Same scene w w'
  pub srv_same : (i : Bytes) (w w' : W) → stress.get_srv_if w ≡ (ok i, w') → Same scene w w'
