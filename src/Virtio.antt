-- ===== src/Virtio.antt =====
-- block-ts/lib/tsapi.c: the virtio block devices of a host, their drivers and the directories that they
-- are mounted on.
mod Tests
pub mod Devices
use cns_virtblk_ts.Base.{
  ℕ, ◌+◌, ◌%◌, ◌==◌, Bool, true, false, Option, none, some, List, [], ◌∷◌, ◌++◌, length,
  if◌then◌else◌,
}
use cns_virtblk_ts.Base.Text.{Bytes, codes, strcmp}
use cns_virtblk_ts.Base.Exec.{Result, ok, err, enoent, Status, Exec, pure, continue, ◌>>=◌, ◌>>◌}
use cns_virtblk_ts.Te.{TeLib}
use cns_virtblk_ts.Backend.{CfgLib}
use cns_virtblk_ts.Backend.Inventory.{append_result}

-- The PCI devices in the Configurator, and RPCs on directories.
pub record PciLib (W : Type 0) : Type 0 where
  -- tapi_cfg_pci_devices_by_vendor_device(ta, vendor, device)
  pub tapi_cfg_pci_devices_by_vendor_device : Bytes → Bytes → Bytes → Exec W (List Bytes)
  -- the names of the devices of a PCI device
  pub tapi_cfg_pci_get_devices : Bytes → Exec W (List Bytes)
  pub tapi_cfg_pci_bind_driver : Bytes → Bytes → Exec W Unit
  pub rpc_system : Bytes → W → ℕ × W
  -- whether rpc_mkdirp() and rpc_remove_dir_with_files() returned 0, and the error of the RPC server
  pub rpc_mkdirp : Bytes → W → Bool × W
  pub rpc_remove_dir_with_files : Bytes → W → Bool × W
  pub rpc_errno : W → Status

abbrev pub vendor_id : Bytes
vendor_id = codes "1bf4"

abbrev is_transitional : Option Bytes → Bool
is_transitional (some s) = strcmp s (codes "transitional")
is_transitional none = false

module _ {W : Type 0} (te : TeLib W) (cfg : CfgLib W) (lib : PciLib W) where
  open te use {te_string_append, te_vec_append, getenv}
  open cfg use {cfg_get_instance_fmt, decimal}
  open lib use {
    tapi_cfg_pci_devices_by_vendor_device, tapi_cfg_pci_get_devices, tapi_cfg_pci_bind_driver,
    rpc_system, rpc_mkdirp, rpc_remove_dir_with_files, rpc_errno,
  }

  unfoldable pub device_id : Bytes
  device_id =
      if is_transitional (getenv (codes "MC_FW_PCIID_TYPE")) then codes "1001" else codes "1042"

  unfoldable pub tsapi_get_virtio_blocks : Bytes → Exec W (List Bytes)
  tsapi_get_virtio_blocks ta = tapi_cfg_pci_devices_by_vendor_device ta vendor_id device_id

  -- The number of devices, as an unsigned int.
  unfoldable pub tsapi_virtio_blocks_count : Bytes → Exec W ℕ
  tsapi_virtio_blocks_count ta =
      tsapi_get_virtio_blocks ta >>= λ devs. pure (length devs % 0x100000000)

  unfoldable pub bind_all : Bytes → List Bytes → Exec W Unit
  bind_all driver [] = pure tt
  bind_all driver (dev ∷ devs) = tapi_cfg_pci_bind_driver dev driver >> bind_all driver devs

  -- The status of the command is not looked at.
  abbrev run : Bytes → Exec W Unit
  run cmd w = let (_, w') = rpc_system cmd w in (ok tt, w')

  -- An error ends the test, and is the error here.
  unfoldable pub tsapi_virtio_blocks_bind_driver : Bytes → Bytes → Exec W Unit
  tsapi_virtio_blocks_bind_driver ta driver = do
    virtio_pci_dev ← tsapi_get_virtio_blocks ta
    bind_all driver virtio_pci_dev
    if strcmp driver [] then pure tt else run (codes "echo none > /sys/block/vda/queue/scheduler")

  unfoldable pub tsapi_get_mount_dir_name : Bytes → ℕ → Exec W Bytes
  tsapi_get_mount_dir_name ta index = do
    mount_dir_prefix ←
        cfg_get_instance_fmt (codes "/local:/agent:" ++ ta ++ codes "/mount_dir_prefix:")
    (λ w. append_result (te_string_append [] (mount_dir_prefix ++ decimal index) w))

  abbrev rpc_result : Bool × W → Status × W
  rpc_result (true, w) = (ok tt, w)
  rpc_result (false, w) = (rpc_errno w, w)

  unfoldable pub tsapi_create_mount_dir : Bytes → ℕ → Exec W Unit
  tsapi_create_mount_dir ta index = do
    mount_dir ← tsapi_get_mount_dir_name ta index
    (λ w. rpc_result (rpc_mkdirp mount_dir w))

  unfoldable pub tsapi_remove_mount_dir : Bytes → ℕ → Exec W Unit
  tsapi_remove_mount_dir ta index = do
    mount_dir ← tsapi_get_mount_dir_name ta index
    (λ w. rpc_result (rpc_remove_dir_with_files mount_dir w))

  -- The inner loop: the names found so far, and their number.
  unfoldable pub append_names : List Bytes → List Bytes × ℕ → Exec W (List Bytes × ℕ)
  append_names [] found = pure found
  append_names (device_name ∷ names) (blks_name, n_blocks) = do
    te_vec_append
    append_names names
        (blks_name ++ (codes "/dev/" ++ device_name) ∷ [], (n_blocks + 1) % 0x100000000)

  unfoldable pub append_devices : List Bytes → List Bytes × ℕ → Exec W (List Bytes × ℕ)
  append_devices [] found = pure found
  append_devices (virtio_pci ∷ devs) found = do
    device_names ← tapi_cfg_pci_get_devices virtio_pci
    found' ← append_names device_names found
    append_devices devs found'

  abbrev pub some_block : List Bytes × ℕ → Exec W (List Bytes × ℕ)
  some_block (blks_name, n_blocks) w =
      (if n_blocks == 0 then err enoent else ok (blks_name, n_blocks), w)

  -- The names, and their number; on an error the names are NULL.
  unfoldable pub tsapi_get_devices : Bytes → Exec W (List Bytes × ℕ)
  tsapi_get_devices ta = do
    virtio_pci ← tsapi_get_virtio_blocks ta
    found ← append_devices virtio_pci ([], 0)
    some_block found
