-- ===== src/Suite/Epilogue.antt =====
-- block-ts/blk-proxy/epilogue.c.
use cns_virtblk_ts.Base.{Bool, true, false, none, some, [], if◌then◌else◌}
use cns_virtblk_ts.Base.Text.{Bytes, codes}
use cns_virtblk_ts.Base.Exec.{Result, ok, err, efail, enoent, Status, Exec, pure, ◌>>=◌, ◌>>◌}
use cns_virtblk_ts.Plugin.{tsapi_plugin_disable}
use cns_virtblk_ts.Backend.{Stop, backend_stop_server, tsapi_backend_need_env}
use cns_virtblk_ts.Backend.Server.{tsapi_backend_stop_server}
use cns_virtblk_ts.BlkProxy.{Handle}
use cns_virtblk_ts.BlkProxy.Process.{tsapi_blkproxy_handle_init}
use cns_virtblk_ts.BlkProxy.Lifecycle.{tsapi_blkproxy_stop, tsapi_blkproxy_kill_orphaned_stacks}
use cns_virtblk_ts.Ceph.Cluster.{tsapi_use_plugin}
use cns_virtblk_ts.Virtio.{tsapi_virtio_blocks_bind_driver}
use cns_virtblk_ts.Suite.{Libs, arm_ta, disk_ta, host_ta, uart_ta}
use cns_virtblk_ts.Suite.Prologue.{asked, when_set, known_backend}

module _ {W : Type 0} (libs : Libs W) where
  open libs use {te, cfg, server, ps, launch, pci, suite}

  abbrev stop_if : Bool → Exec W Unit
  stop_if true = launch.tapi_cfg_ps_stop uart_ta (codes "xilinxtool")
  stop_if false = pure tt

  -- The status is looked at also where it has not been set.
  abbrev pub finish : Result Bool × W → Status × W
  finish (ok status, w) = stop_if status w
  finish (err enoent, w) = (ok tt, w)
  finish (err _, w) = (if suite.uninitialised_status w then err efail else ok tt, w)

  unfoldable pub finish_uart_logger : Exec W Unit
  finish_uart_logger w = finish (launch.tapi_cfg_ps_get_status uart_ta (codes "xilinxtool") w)

  unfoldable pub call_stop : Stop → Exec W Unit
  call_stop backend_stop_server = tsapi_backend_stop_server te cfg server disk_ta

  -- Up to the blk-proxy and its stacks.
  unfoldable pub stop_proxy : Exec W Handle
  stop_proxy = do
    handle ← tsapi_blkproxy_handle_init te cfg server launch (some arm_ta) none none
    tsapi_blkproxy_stop te cfg launch handle
    tsapi_blkproxy_kill_orphaned_stacks te cfg launch
    pure handle

  -- main(), where an error ends the test.
  unfoldable pub epilogue : Bytes → Exec W Unit
  epilogue clt_if = do
    need_start ← asked libs (tsapi_backend_need_env cfg)
    if need_start then suite.test_start_env else pure tt
    tsapi_virtio_blocks_bind_driver te cfg pci host_ta []
    suite.tapi_cfg_module_unload host_ta (codes "virtio-blk")
    handle ← stop_proxy
    suite.unbind_driver_by_vend_dev_inst arm_ta (codes "10ee") (codes "00f0") 0
    backend ← known_backend libs
    when_set ((backend.1).stop) call_stop
    use_plugin ← tsapi_use_plugin te cfg
    if use_plugin then tsapi_plugin_disable te cfg server ps arm_ta clt_if else pure tt
    when_set (te.getenv (codes "TE_UART_LOGGER_EXEC")) (λ _. finish_uart_logger)
