-- ===== src/Backend/Server.antt =====
-- block-ts/lib/tsapi-backend.c: how the server of a backend is started and stopped.
use cns_virtblk_ts.Base.{[], ◌++◌}
use cns_virtblk_ts.Base.Text.{Bytes, codes}
use cns_virtblk_ts.Base.Exec.{einval, Exec, pure, raise, ◌>>=◌}
use cns_virtblk_ts.Te.{TeLib}
use cns_virtblk_ts.Backend.{
  Mode, mode_ceph, mode_nvme, mode_unknown, CfgLib, percent_s, tsapi_backend_mode2str,
  tsapi_backend_get_mode,
}
use cns_virtblk_ts.Backend.Inventory.{
  ServerLib, tsapi_inventory_local_to_kv_pair, tsapi_inventory_prepare,
}
use cns_virtblk_ts.Backend.Prepare.{
  tsapi_ceph_start_server, tsapi_ceph_stop_server, tsapi_nvme_start_server, tsapi_nvme_stop_server,
}

module _ {W : Type 0} (te : TeLib W) (cfg : CfgLib W) (lib : ServerLib W) where
  open lib use {agent_dir}

  abbrev known : Mode → Exec W Mode
  known mode_unknown = raise einval
  known mode = pure mode

  abbrev pub known_mode : Exec W Mode
  known_mode w = let (mode, w') = tsapi_backend_get_mode cfg w in known mode w'

  abbrev helpers_path : Bytes → Bytes
  helpers_path ta = agent_dir ta ++ codes "/backend-helpers"

  abbrev ansible_path : Bytes → Bytes
  ansible_path ta = agent_dir ta ++ codes "/tmp/virtblk-ci-ansible"

  unfoldable pub start_of : Mode → Bytes → Bytes → Exec W Unit
  start_of mode_ceph ta inventory_path =
      tsapi_ceph_start_server te cfg lib (helpers_path ta) (ansible_path ta) inventory_path
  start_of mode_nvme ta inventory_path =
      tsapi_nvme_start_server te cfg lib (helpers_path ta) (ansible_path ta) inventory_path
  start_of mode ta inventory_path = raise einval

  unfoldable pub tsapi_backend_start_server : Bytes → Exec W Unit
  tsapi_backend_start_server ta = do
    mode ← known_mode
    params ←
        tsapi_inventory_local_to_kv_pair te cfg lib (percent_s cfg (tsapi_backend_mode2str mode)) []
    inventory_path ← tsapi_inventory_prepare te cfg lib ta params mode
    start_of mode ta (percent_s cfg inventory_path)

  unfoldable pub stop_of : Mode → Bytes → Exec W Unit
  stop_of mode_ceph ta = tsapi_ceph_stop_server te cfg lib (helpers_path ta)
  stop_of mode_nvme ta = tsapi_nvme_stop_server te cfg lib (helpers_path ta)
  stop_of mode ta = raise einval

  unfoldable pub tsapi_backend_stop_server : Bytes → Exec W Unit
  tsapi_backend_stop_server ta = known_mode >>= λ mode. stop_of mode ta
