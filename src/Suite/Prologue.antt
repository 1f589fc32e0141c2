-- ===== src/Suite/Prologue.antt =====
-- block-ts/blk-proxy/prologue.c; block-ts/lib/tsapi-ceph.c: tsapi_ceph_prepare_client().
use cns_virtblk_ts.Base.{
  ℕ, leb, Bool, true, false, Option, none, some, List, ◌∷◌, ◌++◌, length, if◌then◌else◌,
}
use cns_virtblk_ts.Base.Text.{Bytes, codes}
use cns_virtblk_ts.Base.Exec.{Result, ok, efail, enobufs, Status, Exec, pure, raise, ◌>>=◌, ◌>>◌}
use cns_virtblk_ts.Plugin.{tsapi_plugin_start}
use cns_virtblk_ts.Backend.{
  BackendType, ceph_qemu, Start, backend_start_server, PrepareParams, ceph_prepare_params,
  nvme_prepare_params, PrepareClients, ceph_prepare_client, Hook, ceph_enable_logger, Callbacks,
  backend_callbacks, percent_s, tsapi_backend_get_type, tsapi_backend_need_env,
  tsapi_get_backend_param_bool,
}
use cns_virtblk_ts.Backend.Prepare.{tsapi_ceph_prepare_params, tsapi_nvme_prepare_params, script_ok}
use cns_virtblk_ts.Backend.Server.{tsapi_backend_start_server}
use cns_virtblk_ts.BlkProxy.{Handle}
use cns_virtblk_ts.BlkProxy.Create.{tsapi_blkproxy_create_conf}
use cns_virtblk_ts.BlkProxy.Process.{
  Opts, tsapi_blkproxy_opts_default_opt, tsapi_blkproxy_handle_init, tsapi_blkproxy_init,
}
use cns_virtblk_ts.BlkProxy.Lifecycle.{tsapi_blkproxy_start}
use cns_virtblk_ts.Ceph.Cluster.{
  tsapi_use_onload, tsapi_use_plugin, block_ts_ceph_cluster_conf_create,
}
use cns_virtblk_ts.Ceph.Daemons.{
  command, block_ts_ceph_cluster_monmap_create, block_ts_ceph_cluster_mon_start,
  block_ts_ceph_cluster_osd_start, block_ts_ceph_start_logger, block_ts_ceph_enable_logger,
}
use cns_virtblk_ts.Virtio.{tsapi_virtio_blocks_count, tsapi_virtio_blocks_bind_driver}
use cns_virtblk_ts.Suite.{Libs, Net, arm_ta, disk_ta, host_ta, uart_ta}

-- PATH_MAX
abbrev pub path_max : ℕ
path_max = 4096

abbrev word : Bool → Bytes
word true = codes "true"
word false = codes "false"

abbrev pub when_set : {A : Type 0} → Option A → {W : Type 0} → (A → Exec W Unit) → Exec W Unit
when_set none f w = (ok tt, w)
when_set (some a) f w = f a w

module _ {W : Type 0} (libs : Libs W) where
  open libs use {te, cfg, server, ps, launch, proxy, pci, jobs, daemon, suite}
  open suite use {
    tapi_network_setup, test_start_env, tapi_cfg_module_add, bind_driver_by_vend_dev_inst,
    cfg_set_instance_fmt, cfg_tree_print,
  }

  -- An operation that cannot fail.
  abbrev pub asked : {A : Type 0} → (W → A × W) → Exec W A
  asked m w = let (a, w') = m w in (ok a, w')

  abbrev arg : ℕ → Bytes → Exec W Unit
  arg n text = ps.tapi_cfg_ps_add_arg uart_ta (codes "xilinxtool") n text

  abbrev pub host_or_fail : Option Bytes → Exec W Bytes
  host_or_fail none = raise efail
  host_or_fail (some host) = pure host

  unfoldable pub start_uart_logger : Exec W Unit
  start_uart_logger = do
    uart_dut_host ← host_or_fail (te.getenv (codes "TE_UART_DUT_HOST"))
    ps.tapi_cfg_ps_add uart_ta (codes "xilinxtool")
        (server.agent_dir uart_ta ++ codes "/snapper/scripts/xilinxtool")
    arg 1 (codes "--silent")
    arg 2 (codes "--duthost")
    arg 3 uart_dut_host
    arg 4 (codes "--force-uart-nmc")
    ps.tapi_cfg_ps_start uart_ta (codes "xilinxtool")

  abbrev path_oid : Bytes → Bytes
  path_oid ta = codes "/agent:" ++ ta ++ codes "/env:PATH"

  abbrev pub set_path_if : Bytes → Bytes → Exec W Unit
  set_path_if ta new_path =
      if leb path_max (length new_path)
      then raise enobufs
      else cfg_set_instance_fmt (path_oid ta) new_path

  unfoldable pub tsapi_sh_env_ta_path_prepend : Bytes → Bytes → Exec W Unit
  tsapi_sh_env_ta_path_prepend ta dir = do
    path ← cfg.cfg_get_instance_fmt (path_oid ta)
    set_path_if ta (dir ++ b':' ∷ path)

  abbrev system : Bytes → Exec W Unit
  system cmd = command te cfg jobs ps daemon cmd

  unfoldable pub ceph_start_cluster_in_qemu : Bytes → Bytes → ℕ → Exec W Unit
  ceph_start_cluster_in_qemu ceph_net ceph_mon_addr ceph_net_ip_pfx = do
    block_ts_ceph_cluster_conf_create te cfg ceph_net ceph_mon_addr ceph_net_ip_pfx
    block_ts_ceph_cluster_monmap_create te cfg jobs ps daemon disk_ta ceph_mon_addr
    block_ts_ceph_cluster_mon_start te cfg jobs ps daemon disk_ta
    block_ts_ceph_cluster_osd_start te cfg jobs ps daemon disk_ta
    system (codes "ceph-mgr --conf /etc/ceph/ceph.conf --monmap /tmp/monmap")
    system (
        codes
          "ceph --conf /etc/ceph/ceph.conf --monmap /tmp/monmap osd pool create rampool 100 100")
    system (codes "rbd --conf /etc/ceph/ceph.conf pool init rampool")
    system (codes "rbd --conf /etc/ceph/ceph.conf create --size 2048 rampool/ramdev")
    system (
        codes
          "rbd --conf /etc/ceph/ceph.conf feature disable rampool/ramdev object-map fast-diff deep-flatten")

  -- The two servers differ in the agent that the configuration is written to, which the library of RPCs
  -- stands for.
  unfoldable pub start_ceph_server_in_qemu : Net → Exec W Unit
  start_ceph_server_in_qemu net = do
    is_enabled_logging ← tsapi_get_backend_param_bool cfg (codes "ceph") (codes "enable_logging")
    ceph_start_cluster_in_qemu net.ip4addr net.srv_addr net.ip4pfx
    block_ts_ceph_cluster_conf_create te cfg net.ip4addr net.srv_addr net.ip4pfx
    if is_enabled_logging then block_ts_ceph_start_logger te cfg jobs ps daemon disk_ta else pure tt

  abbrev script_status : ℕ × W → Status × W
  script_status (value, w) = (script_ok value, w)

  -- C does not say which of the two settings is read first.
  unfoldable pub tsapi_ceph_prepare_client : Bytes → Bytes → Exec W Unit
  tsapi_ceph_prepare_client ta clt_addr = do
    onload ← tsapi_use_onload te cfg
    plugin ← tsapi_use_plugin te cfg
    (λ w. script_status (
        server.rpc_system_ex
          (server.agent_dir ta
            ++ codes "/backend-helpers/prepare_ceph_client.sh "
            ++ clt_addr
            ++ b' ' ∷ (word onload ++ b' ' ∷ word plugin))
          w))

  unfoldable pub call_prepare_params : ℕ → PrepareParams → Exec W Unit
  call_prepare_params count ceph_prepare_params = tsapi_ceph_prepare_params te cfg server count
  call_prepare_params count nvme_prepare_params = tsapi_nvme_prepare_params te cfg server count

  unfoldable pub call_start : Start → Exec W Unit
  call_start backend_start_server = tsapi_backend_start_server te cfg server disk_ta

  unfoldable pub call_prepare_clients : Net → PrepareClients → Exec W Unit
  call_prepare_clients net ceph_prepare_client = tsapi_ceph_prepare_client disk_ta net.clt_addr

  unfoldable pub call_hook : Hook → Exec W Unit
  call_hook ceph_enable_logger = block_ts_ceph_enable_logger te cfg jobs ps daemon disk_ta

  abbrev is_qemu : BackendType → Bool
  is_qemu ceph_qemu = true
  is_qemu type = false

  -- The callbacks of the row of the type, in their order.
  unfoldable pub prepare_backend : Net → BackendType → Callbacks → ℕ → Exec W Unit
  prepare_backend net type callbacks virtio_block_count = do
    when_set callbacks.prepare_params (call_prepare_params virtio_block_count)
    when_set callbacks.start call_start
    when_set callbacks.prepare_clients (call_prepare_clients net)
    when_set callbacks.hook call_hook
    if is_qemu type then start_ceph_server_in_qemu net else pure tt

  -- Before the type of the backend is looked at.
  unfoldable pub setup_env : Exec W Unit
  setup_env = do
    need ← asked (tsapi_backend_need_env cfg)
    if need then autonegotiation_off else pure tt
    need_network ← asked (tsapi_backend_need_env cfg)
    if need_network then tapi_network_setup else pure tt
    need_start ← asked (tsapi_backend_need_env cfg)
    if need_start then test_start_env else pure tt
    -- what the test gets of the environment comes as an argument
    need_params ← asked (tsapi_backend_need_env cfg)
    pure tt
    where
      ethtool : Bytes
      ethtool =
          codes "ethtool -s "
          ++ percent_s cfg (te.getenv (codes "TE_ARM_SFC_IF"))
          ++ codes " autoneg off speed 100000 duplex full"

      autonegotiation_off : Exec W Unit
      autonegotiation_off w =
          let (_, w') = server.rpc_system_ex ethtool w in (ok tt, ps.te_motivated_sleep 15 w')

  -- The row of the table; without one the type is that for which the test fails before it reads the table.
  abbrev pub row_or_fail : BackendType → Option Callbacks → Exec W (BackendType × Callbacks)
  row_or_fail type none = raise efail
  row_or_fail type (some callbacks) = pure (type, callbacks)

  unfoldable pub known_backend : Exec W (BackendType × Callbacks)
  known_backend =
      asked (tsapi_backend_get_type cfg) >>= λ type. row_or_fail type (backend_callbacks type)

  unfoldable pub start_tools : Net → Exec W Unit
  start_tools net = do
    when_set (te.getenv (codes "TE_UART_LOGGER_EXEC")) (λ _. start_uart_logger)
    use_plugin ← tsapi_use_plugin te cfg
    if use_plugin then tsapi_plugin_start te cfg server ps arm_ta net.clt_if else pure tt

  abbrev with_opts : {A : Type 0} → Result A × (Opts × W) → Result A × W
  with_opts (r, (opts, w)) = (r, w)

  -- The options are those of the test, from the defaults on.
  unfoldable pub init_proxy : Handle → Exec W Unit
  init_proxy handle w =
      with_opts
        (tsapi_blkproxy_init te cfg server launch handle (tsapi_blkproxy_opts_default_opt, w))

  unfoldable pub start_proxy : List Bytes → Exec W Handle
  start_proxy argv = do
    handle ← tsapi_blkproxy_handle_init te cfg server launch (some arm_ta) none none
    tsapi_blkproxy_create_conf te cfg server proxy handle (codes "config_converter.py") argv
    tapi_cfg_module_add arm_ta (codes "uio_pci_generic")
    bind_driver_by_vend_dev_inst arm_ta (codes "10ee") (codes "00f0") 0 (codes "uio_pci_generic")
    init_proxy handle
    tsapi_blkproxy_start te cfg launch handle
    pure handle

  unfoldable pub bind_host : Exec W Unit
  bind_host = do
    tsapi_sh_env_ta_path_prepend host_ta (codes "/usr/sbin")
    tapi_cfg_module_add host_ta (codes "virtio-blk")
    tsapi_virtio_blocks_bind_driver te cfg pci host_ta (codes "virtio-pci")
    cfg_tree_print

  -- main(), where an error ends the test.
  unfoldable pub prologue : Net → List Bytes → Exec W Unit
  prologue net argv = do
    setup_env
    backend ← known_backend
    start_tools net
    virtio_block_count ← tsapi_virtio_blocks_count te cfg pci host_ta
    prepare_backend net backend.0 backend.1 virtio_block_count
    handle ← start_proxy argv
    bind_host
