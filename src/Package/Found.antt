-- ===== src/Package/Found.antt =====
-- block-ts/lib/tsapi.c: what looking for the block devices leaves as it is.
use cns_virtblk_ts.Base.{ℕ, ◌+◌, ◌≡◌, refl, List, [], ◌∷◌, ◌++◌, ◌%◌}
use cns_virtblk_ts.Base.Text.{Bytes, codes}
use cns_virtblk_ts.Base.Exec.{ok, err, Status}
use cns_virtblk_ts.Te.{TeLib}
use cns_virtblk_ts.Backend.{CfgLib}
use cns_virtblk_ts.Backend.Inventory.{append_result}
use cns_virtblk_ts.Virtio.{
  PciLib, vendor_id, device_id, tsapi_get_virtio_blocks, append_names, append_devices,
  tsapi_get_devices,
}
use cns_virtblk_ts.Package.Owned.{Keeps, >>=-Keeps}

pub appended-live :
    {W : Type 0} (live : W → ℕ) (r : Status × Bytes × W) → live (append_result r).1 ≡ live r.2
appended-live live (ok u, s, w) = refl
appended-live live (err e, s, w) = refl

-- What tsapi_get_devices() calls leaves the count as it is.
pub record IsDeviceCount {W : Type 0} (te : TeLib W) (pci : PciLib W) (live : W → ℕ) : Type 0 where
  pub vec_keeps : Keeps live te.te_vec_append
  pub find_keeps :
      (ta vendor device : Bytes)
      → Keeps live (pci.tapi_cfg_pci_devices_by_vendor_device ta vendor device)
  pub names_keeps : (dev : Bytes) → Keeps live (pci.tapi_cfg_pci_get_devices dev)

module _ {W : Type 0} (te : TeLib W) (cfg : CfgLib W) (pci : PciLib W) (live : W → ℕ)
    (devices : IsDeviceCount te pci live) where
  append_names-Keeps :
      (names : List Bytes) (found : List Bytes × ℕ)
      → Keeps live (append_names te cfg pci names found)
  unfolding append_names
  append_names-Keeps [] found w = refl
  append_names-Keeps (name ∷ names) (blks, n) w =
      >>=-Keeps live te.te_vec_append _ devices.vec_keeps
        (λ _.
          append_names-Keeps names (blks ++ (codes "/dev/" ++ name) ∷ [], (n + 1) % 0x100000000))
        w

  append_devices-Keeps :
      (devs : List Bytes) (found : List Bytes × ℕ)
      → Keeps live (append_devices te cfg pci devs found)
  unfolding append_devices
  append_devices-Keeps [] found w = refl
  append_devices-Keeps (dev ∷ devs) found w =
      >>=-Keeps live (pci.tapi_cfg_pci_get_devices dev) _ (devices.names_keeps dev)
        (λ names.
          >>=-Keeps live (append_names te cfg pci names found) _ (append_names-Keeps names found)
            (append_devices-Keeps devs))
        w

  pub get_devices-Keeps : (ta : Bytes) → Keeps live (tsapi_get_devices te cfg pci ta)
  unfolding tsapi_get_devices tsapi_get_virtio_blocks
  get_devices-Keeps ta =
      >>=-Keeps live (pci.tapi_cfg_pci_devices_by_vendor_device ta vendor_id (device_id te cfg pci))
        _ (devices.find_keeps ta vendor_id (device_id te cfg pci))
        (λ devs.
          >>=-Keeps live (append_devices te cfg pci devs ([], 0)) _
            (append_devices-Keeps devs ([], 0)) (λ found w. refl))
