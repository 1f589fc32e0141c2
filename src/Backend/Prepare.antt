-- ===== src/Backend/Prepare.antt =====
-- block-ts/lib/tsapi-ceph.c and tsapi-nvme.c: the parameters of the inventory file and the scripts
-- that start and stop a server.
use cns_virtblk_ts.Base.{
  ℕ, suc, zero, ◌+◌, ◌-◌, ◌*◌, ◌/◌, ◌%◌, ◌^◌, ◌==◌, ltb, Bool, ◌&&◌, Option, none, some, [], ◌∷◌,
  ◌++◌, if◌then◌else◌,
}
use cns_virtblk_ts.Base.Text.{Bytes, codes}
use cns_virtblk_ts.Base.Exec.{
  Result, ok, err, efail, einval, Status, Exec, pure, raise, ◌>>=◌, ◌>>◌,
}
use cns_virtblk_ts.Te.{TeLib}
use cns_virtblk_ts.Backend.{CfgLib, tsapi_get_backend_param_str, tsapi_get_backend_param_int}
use cns_virtblk_ts.Backend.Inventory.{
  ServerLib, appended_to, tsapi_inventory_local_add_str, tsapi_inventory_local_add_int,
}

-- An int that is more than 0, by its bits.
abbrev pub is_positive : ℕ → Bool
is_positive n = ltb 0 n && ltb n (2 ^ 31)

-- The bits of the int dev_size_mb, (stor_size_gb - TSAPI_CEPH_AUX_INFO_SZ_GB) / block_count * 1024 for a
-- block_count that is not 0, which is unsigned, so that the difference and the product are modulo 2 ^ 32.
unfoldable pub dev_size : ℕ → ℕ → ℕ
dev_size stor_size_gb block_count =
    (stor_size_gb + (2 ^ 32 - 2)) % 2 ^ 32 / block_count * 1024 % 2 ^ 32

-- TSAPI_CEPH_BLK_NUM_MAX
abbrev pub blk_num_max : ℕ
blk_num_max = 3

abbrev pub script_ok : ℕ → Status
script_ok value = if value == 0 then ok tt else err efail

module _ {W : Type 0} (te : TeLib W) (cfg : CfgLib W) (lib : ServerLib W) where
  open te use {te_string_append}
  open cfg use {decimal}
  open lib use {ipstr, double_quotient, trap, set_timeout, rpc_system_ex}

  abbrev host_or_efail : Option Bytes × W → Result Bytes × W
  host_or_efail (some val, w) = (ok val, w)
  host_or_efail (none, w) = (err efail, w)

  abbrev pub host_name_of : Bytes → Exec W Bytes
  host_name_of backend w =
      host_or_efail (tsapi_get_backend_param_str cfg backend (codes "host_name") w)

  abbrev pub require : Bool → Exec W Unit
  require b = if b then pure tt else raise einval

  abbrev pub divided : ℕ → (ℕ → ℕ) → Exec W ℕ
  divided zero f = trap
  divided (suc n) f = pure (f (suc n))

  unfoldable pub tsapi_nvme_prepare_params : ℕ → Exec W Unit
  tsapi_nvme_prepare_params block_count = do
    host_name ← host_name_of (codes "nvme")
    port ← tsapi_get_backend_param_int cfg (codes "nvme") (codes "port")
    stor_size_gb ← tsapi_get_backend_param_int cfg (codes "nvme") (codes "stor_size_gb")
    require (is_positive stor_size_gb)
    disk_size_gb ← divided block_count (λ n. stor_size_gb / n)
    tsapi_inventory_local_add_str te cfg lib (codes "nvme") (codes "NVME_SERVER_HOST") host_name
    tsapi_inventory_local_add_str te cfg lib (codes "nvme") (codes "NVME_ADDR") ipstr
    tsapi_inventory_local_add_int te cfg lib (codes "nvme") (codes "NVME_PORT") port
    tsapi_inventory_local_add_int te cfg lib (codes "nvme") (codes "NVME_DISK_NUM") block_count
    tsapi_inventory_local_add_int te cfg lib (codes "nvme") (codes "NVME_DISK_SIZE") disk_size_gb

  -- te_string_append() whose status is not looked at.
  abbrev ignored : Bytes → Bytes → Exec W Bytes
  ignored s t w = let (r, s', w') = te_string_append s t w in (ok s', w')

  abbrev pub dev_name : ℕ → ℕ → Bytes
  dev_name i block_count = if ltb i block_count then codes "- name: ramdev" ++ decimal i else []

  abbrev pub dev_size_mb : ℕ → ℕ → ℕ → Bytes
  dev_size_mb i block_count size =
      if ltb i block_count then codes "  size_mb: " ++ decimal size else []

  -- The names and sizes of the devices from number i on, of which `left` are left.
  unfoldable pub add_devices : ℕ → ℕ → ℕ → ℕ → Exec W Unit
  add_devices zero i block_count size = pure tt
  add_devices (suc left) i block_count size = do
    dev_name_val ← ignored [] (dev_name i block_count)
    dev_size_val ← appended_to te cfg lib [] (dev_size_mb i block_count size)
    dev_name_key ← appended_to te cfg lib [] (codes "CEPH_DEV" ++ decimal i ++ codes "_NAME")
    dev_size_key ← appended_to te cfg lib [] (codes "CEPH_DEV" ++ decimal i ++ codes "_SIZE")
    tsapi_inventory_local_add_str te cfg lib (codes "ceph") dev_name_key dev_name_val
    tsapi_inventory_local_add_str te cfg lib (codes "ceph") dev_size_key dev_size_val
    add_devices left (suc i) block_count size

  unfoldable pub tsapi_ceph_prepare_params : ℕ → Exec W Unit
  tsapi_ceph_prepare_params block_count = do
    host_name ← host_name_of (codes "ceph")
    osd_num ← tsapi_get_backend_param_int cfg (codes "ceph") (codes "osd_num")
    stor_size_gb ← tsapi_get_backend_param_int cfg (codes "ceph") (codes "stor_size_gb")
    require (is_positive stor_size_gb)
    size ← divided block_count (dev_size stor_size_gb)
    tsapi_inventory_local_add_str te cfg lib (codes "ceph") (codes "CEPH_SERVER_HOST") host_name
    tsapi_inventory_local_add_str te cfg lib (codes "ceph") (codes "CEPH_MON_IP") ipstr
    tsapi_inventory_local_add_int te cfg lib (codes "ceph") (codes "CEPH_OSD_SIZE")
        (double_quotient stor_size_gb osd_num)
    tsapi_inventory_local_add_int te cfg lib (codes "ceph") (codes "CEPH_OSD_NUM") osd_num
    add_devices blk_num_max 0 block_count size

  -- rpc_system_ex() under a timeout, which must leave the status 0.
  unfoldable pub run_script : ℕ → Bytes → Exec W Unit
  run_script timeout command w =
      let (value, w') = rpc_system_ex command (set_timeout timeout w) in (script_ok value, w')

  unfoldable pub tsapi_ceph_start_server : Bytes → Bytes → Bytes → Exec W Unit
  tsapi_ceph_start_server helpers_path virtblk_ci_ansible_path inventory_path =
      run_script (20 * 60 * 1000) (
        helpers_path
        ++ codes "/create_ansible_ceph_server.sh "
        ++ virtblk_ci_ansible_path
        ++ b' ' ∷ inventory_path)

  unfoldable pub tsapi_ceph_stop_server : Bytes → Exec W Unit
  tsapi_ceph_stop_server helpers_path =
      run_script (3 * 60 * 1000) (helpers_path ++ codes "/remove_ansible_ceph_server.sh")

  unfoldable pub tsapi_nvme_start_server : Bytes → Bytes → Bytes → Exec W Unit
  tsapi_nvme_start_server helpers_path virtblk_ci_ansible_path inventory_path =
      run_script (5 * 60 * 1000) (
        helpers_path
        ++ codes "/create_ansible_nvme_server.sh "
        ++ virtblk_ci_ansible_path
        ++ b' ' ∷ inventory_path)

  unfoldable pub tsapi_nvme_stop_server : Bytes → Exec W Unit
  tsapi_nvme_stop_server helpers_path =
      run_script (1 * 60 * 1000) (helpers_path ++ codes "/remove_ansible_nvme_server.sh")
