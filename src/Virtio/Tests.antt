-- ===== src/Virtio/Tests.antt =====
-- A list of block devices, and the theorem at a concrete input.
use cns_virtblk_ts.Base.{◌≡◌, ◌==◌, refl, arith, true, List, [], ◌∷◌, length, if◌then◌else◌}
use cns_virtblk_ts.Base.Text.{Bytes, codes, strcmp}
use cns_virtblk_ts.Base.Exec.{ok, err, efail, enoent}
use cns_virtblk_ts.Te.Model.{Files, files, files-IsPlentiful}
use cns_virtblk_ts.Backend.{CfgLib}
use cns_virtblk_ts.Virtio.{PciLib, tsapi_get_virtio_blocks, tsapi_get_devices}
use cns_virtblk_ts.Virtio.Devices.{paths, get_devices-all}

abbrev settings : CfgLib Files
settings = record {
  cfg_find_pattern = λ p w. (ok [], w);
  no_instance = λ w. 0;
  cfg_get_inst_name = λ i n w. (err efail, w);
  cfg_get_instance = λ i w. (err efail, w);
  cfg_get_instance_fmt = λ p w. (err efail, w);
  cfg_add_instance_fmt = λ p v w. (ok tt, w);
  te_kvpair_add = λ ps n v w. (ok ps, w);
  te_strtoi = λ s w. (err efail, w);
  decimal = λ n. [];
  null_text = codes "(null)";
}

-- The first of two devices has a block device.
abbrev names : Bytes → List Bytes
names dev = if strcmp dev (codes "0000:02:00.0") then codes "vda" ∷ [] else []

abbrev two : List Bytes
two = codes "0000:02:00.0" ∷ codes "0000:03:00.0" ∷ []

abbrev pci : PciLib Files
pci = record {
  tapi_cfg_pci_devices_by_vendor_device = λ ta vendor device w. (ok two, w);
  tapi_cfg_pci_get_devices = λ dev w. (ok (names dev), w);
  tapi_cfg_pci_bind_driver = λ dev driver w. (ok tt, w);
  rpc_system = λ s w. (0, w);
  rpc_mkdirp = λ s w. (true, w);
  rpc_remove_dir_with_files = λ s w. (true, w);
  rpc_errno = λ w. ok tt;
}

two-found : (tsapi_get_virtio_blocks files settings pci (codes "Agt_host") []).0 ≡ ok two
unfolding tsapi_get_virtio_blocks
two-found = refl

get_devices-all_example : (tsapi_get_devices files settings pci (codes "Agt_host") []).0 ≡ (
    if length (paths names two) == 0
    then err enoent
    else ok (paths names two, length (paths names two)))
get_devices-all_example =
    get_devices-all files settings pci files-IsPlentiful names (λ dev w. refl) (codes "Agt_host")
      two [] two-found (unfold strcmp in omega arith)
