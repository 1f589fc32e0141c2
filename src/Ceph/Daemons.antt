-- ===== src/Ceph/Daemons.antt =====
-- block-ts/lib/block-ts.c: the steps that start a Ceph cluster on an agent, and the logger of Ceph.
use cns_virtblk_ts.Base.{
  ℕ, ◌==◌, Bool, true, false, Option, none, some, [], ◌∷◌, ◌++◌, if◌then◌else◌,
}
use cns_virtblk_ts.Base.Text.{Bytes, codes, strstr}
use cns_virtblk_ts.Base.Exec.{
  Result, ok, err, efail, enoent, Status, Exec, pure, raise, ◌>>=◌, ◌>>◌,
}
use cns_virtblk_ts.Te.{TeLib}
use cns_virtblk_ts.Plugin.{PsLib}
use cns_virtblk_ts.Backend.{CfgLib, tsapi_get_backend_param_bool}
use cns_virtblk_ts.Backend.Inventory.{append_result}
use cns_virtblk_ts.Ceph.{CommonOpts, CephOpts, MmtOpts}
use cns_virtblk_ts.Ceph.Cluster.{ceph_conf, ceph_fsid}
use cns_virtblk_ts.Ceph.Jobs.{
  JobLib, Common, no_common, Job, on, tsapi_ceph_osd_init, tsapi_ceph_mon_init, tsapi_ceph_mmt_init,
  tsapi_ceph_init, tsapi_ceph_start, tsapi_ceph_wait, tsapi_ceph_cleanup,
  block_ts_ceph_cluster_get_fsid,
}

abbrev pub monmap_path : Bytes
monmap_path = codes "/tmp/monmap"

abbrev pub log_dir_path : Bytes
log_dir_path = codes "/var/log/ceph"

abbrev pub logger_name : Bytes
logger_name = codes "ceph_logger"

abbrev pub log_tool : Bytes
log_tool = codes "tail"

-- RPCs and the environment of an agent.
pub record DaemonLib (W : Type 0) : Type 0 where
  -- whether rpc_mkdirp() and rpc_setenv() returned 0, and the error of the RPC server
  pub rpc_mkdirp : Bytes → W → Bool × W
  pub rpc_setenv : Bytes → Option Bytes → W → Bool × W
  pub rpc_errno : W → Status
  -- rpc_system() and rpc_system_ex(): the value of the status
  pub rpc_system : Bytes → W → ℕ × W
  pub tapi_sh_env_ta_path_append : Bytes → Bytes → Exec W Unit
  pub tapi_job_factory_set_path : Option ℕ → Exec W Unit
  -- what a te_bool keeps of the pointer that is this far into a string
  pub te_bool_of_pointer : ℕ → W → Bool

module _ {W : Type 0} (te : TeLib W) (cfg : CfgLib W) (jobs : JobLib W) (ps : PsLib W)
    (lib : DaemonLib W) where
  open te use {te_string_append, getenv}
  open cfg use {cfg_get_instance_fmt, decimal, null_text}
  open ps use {tapi_cfg_ps_add, tapi_cfg_ps_add_arg, tapi_cfg_ps_start}
  open lib use {
    rpc_mkdirp, rpc_setenv, rpc_errno, rpc_system, tapi_sh_env_ta_path_append,
    tapi_job_factory_set_path, te_bool_of_pointer,
  }

  abbrev pub rpc_checked : Bool × W → Status × W
  rpc_checked (true, w) = (ok tt, w)
  rpc_checked (false, w) = (rpc_errno w, w)

  abbrev pub pointer_bool : Option ℕ → W → Bool
  pointer_bool none w = false
  pointer_bool (some n) w = te_bool_of_pointer n w

  -- An error other than a variable that is not there ends the test.
  abbrev contains : Bytes → Result Bytes × W → Result Bool × W
  contains path (ok current_path, w) = (ok (pointer_bool (strstr current_path path) w), w)
  contains path (err enoent, w) = (ok false, w)
  contains path (err _, w) = (err efail, w)

  unfoldable pub ceph_sh_env_contain_path : Bytes → Bytes → Exec W Bool
  ceph_sh_env_contain_path ta path w =
      contains path (cfg_get_instance_fmt (codes "/agent:" ++ ta ++ codes "/env:PATH") w)

  unfoldable pub prepare_paths : Bytes → Bytes → Bytes → Option ℕ → Exec W Unit
  prepare_paths ta ceph_lib ceph_bin factory = do
    there ← ceph_sh_env_contain_path ta ceph_bin
    if there then pure tt else tapi_sh_env_ta_path_append ta ceph_bin
    (λ w. rpc_checked (rpc_setenv (codes "LD_LIBRARY_PATH") (some ceph_lib) w))
    (λ w. rpc_checked (rpc_setenv (codes "PYTHONPATH") (getenv (codes "CEPH_PYBIND")) w))
    tapi_job_factory_set_path factory

  abbrev prepare_for : Bytes → Option Bytes → Option Bytes → Option ℕ → Exec W Unit
  prepare_for ta none ceph_bin factory = pure tt
  prepare_for ta (some ceph_lib) none factory = raise efail
  prepare_for ta (some ceph_lib) (some ceph_bin) factory =
      prepare_paths ta ceph_lib ceph_bin factory

  unfoldable pub block_ts_ceph_cluster_env_prepare : Bytes → Common → Exec W Unit
  block_ts_ceph_cluster_env_prepare ta common =
      prepare_for ta (getenv (codes "CEPH_LIB")) (getenv (codes "CEPH_BIN")) common.factory

  abbrev pub left : Status × (Common × W) → Status × W
  left (r, (c, w)) = (r, w)

  -- The life of a program: an error ends the test where it comes up, and what is there stays.
  unfoldable pub run_program : Bytes → Job te jobs Unit → Exec W Unit
  run_program ta init w = left (steps (no_common, w))
    where
      steps : Job te jobs Unit
      steps = do
        init
        on te jobs (block_ts_ceph_cluster_env_prepare ta)
        tsapi_ceph_start te jobs
        tsapi_ceph_wait te jobs
        tsapi_ceph_cleanup te jobs

  -- The address is given as te_sockaddr_get_ipstr() prints it.
  abbrev pub monmap_opts : Bytes → MmtOpts
  monmap_opts ip = record {
    config = some ceph_conf;
    monmap = some monmap_path;
    fsid = some ceph_fsid;
    need_create = true;
    need_print = false;
    add = some (record { name = codes "main"; ip = some ip; port = 6789 });
  }

  unfoldable pub block_ts_ceph_cluster_monmap_create : Bytes → Bytes → Exec W Unit
  block_ts_ceph_cluster_monmap_create ta ceph_mon_addr =
      run_program ta (tsapi_ceph_mmt_init te jobs decimal (monmap_opts ceph_mon_addr))

  abbrev pub daemon_opts : Bytes → Bool → CommonOpts
  daemon_opts id mkfs = record {
    config = some ceph_conf;
    monmap = some monmap_path;
    id = some id;
    mkfs = mkfs;
  }

  unfoldable pub block_ts_ceph_cluster_mon_helper_start : Bytes → Bool → Exec W Unit
  block_ts_ceph_cluster_mon_helper_start ta mkfs =
      run_program ta (tsapi_ceph_mon_init te jobs (daemon_opts (codes "main") mkfs))

  unfoldable pub ceph_rpc_mkdirp : Bytes → Exec W Unit
  ceph_rpc_mkdirp text = do
    path ← (λ w. append_result (te_string_append [] text w))
    (λ w. rpc_checked (rpc_mkdirp path w))

  abbrev pub zero_or_efail : ℕ × W → Status × W
  zero_or_efail (value, w) = (if value == 0 then ok tt else err efail, w)

  unfoldable pub ceph_rpc_mount : Bytes → Bytes → Exec W Unit
  ceph_rpc_mount block dir = do
    begun ← (λ w.
        append_result
          (te_string_append [] (codes "mount -o noatime,inode64 " ++ block ++ b' ' ∷ []) w))
    mount_cmd ← (λ w. append_result (te_string_append begun dir w))
    (λ w. zero_or_efail (rpc_system mount_cmd w))

  unfoldable pub block_ts_ceph_cluster_mon_start : Bytes → Exec W Unit
  block_ts_ceph_cluster_mon_start ta = do
    ceph_rpc_mkdirp (codes "/var/lib/ceph/mon/ceph-main")
    block_ts_ceph_cluster_mon_helper_start ta true
    block_ts_ceph_cluster_mon_helper_start ta false

  unfoldable pub block_ts_ceph_cluster_osd_helper_start : Bytes → Bool → Exec W Unit
  block_ts_ceph_cluster_osd_helper_start ta mkfs =
      run_program ta (tsapi_ceph_osd_init te jobs (daemon_opts (codes "0") mkfs))

  -- `ceph osd create` and `ceph --status`
  abbrev pub ceph_opts : Option Bool → Bool → CephOpts
  ceph_opts osd_subcommand status = record {
    common_opts = record {
      config = some ceph_conf;
      monmap = some monmap_path;
      id = none;
      mkfs = false;
    };
    osd_subcommand = osd_subcommand;
    fsid_subcommand = none;
    status = status;
  }

  -- A command whose status is not looked at.
  abbrev pub command : Bytes → Exec W Unit
  command cmd w = let (_, w') = rpc_system cmd w in (ok tt, w')

  abbrev pub osd_dir : Bytes
  osd_dir = codes "/var/lib/ceph/osd/ceph-0"

  unfoldable pub block_ts_ceph_cluster_osd_start : Bytes → Exec W Unit
  block_ts_ceph_cluster_osd_start ta = do
    run_program ta (tsapi_ceph_init te jobs (ceph_opts (some true) false))
    command (codes "mknod /dev/ram0 b 1 0")
    command (codes "mkfs -t xfs fs-options -f -i size=2048 /dev/ram0")
    ceph_rpc_mkdirp osd_dir
    ceph_rpc_mount (codes "/dev/ram0") osd_dir
    block_ts_ceph_cluster_osd_helper_start ta true
    command (codes "ceph osd crush add 0 1.0 root=default host=disk_host")
    block_ts_ceph_cluster_osd_helper_start ta false
    run_program ta (tsapi_ceph_init te jobs (ceph_opts none true))

  unfoldable pub block_ts_ceph_prepare_log_dir : Exec W Unit
  block_ts_ceph_prepare_log_dir = ceph_rpc_mkdirp (log_dir_path ++ b'/' ∷ ceph_fsid)

  -- What "%s" prints for the string, whose pointer is NULL where nothing has been put into it.
  abbrev pub fsid_text : Option Bytes → Bytes
  fsid_text (some fsid) = fsid
  fsid_text none = null_text

  abbrev pub with_fsid : Status × Option Bytes × W → (Option Bytes → Exec W Unit) → Status × W
  with_fsid (ok _, fsid, w) next = next fsid w
  with_fsid (err e, fsid, w) next = (err e, w)

  abbrev pub logger_path : Option Bytes → Bytes
  logger_path fsid = log_dir_path ++ b'/' ∷ (fsid_text fsid ++ codes "/ceph.log")

  unfoldable pub start_tail : Bytes → Option Bytes → Exec W Unit
  start_tail ta fsid = do
    ceph_log_path ← (λ w. append_result (te_string_append [] (logger_path fsid) w))
    tapi_cfg_ps_add ta logger_name log_tool
    tapi_cfg_ps_add_arg ta logger_name 1 (codes "-F")
    tapi_cfg_ps_add_arg ta logger_name 2 ceph_log_path
    tapi_cfg_ps_start ta logger_name

  unfoldable pub block_ts_ceph_start_logger : Bytes → Exec W Unit
  block_ts_ceph_start_logger ta w =
      with_fsid (block_ts_ceph_cluster_get_fsid te jobs [] w) (start_tail ta)

  unfoldable pub block_ts_ceph_enable_logger : Bytes → Exec W Unit
  block_ts_ceph_enable_logger ta = do
    enable ← tsapi_get_backend_param_bool cfg (codes "ceph") (codes "enable_logging")
    if enable then block_ts_ceph_start_logger ta else pure tt
