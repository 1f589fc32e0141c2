-- ===== src/BlkProxy/Lifecycle.antt =====
-- block-ts/lib/tsapi-blkproxy.c: starting and stopping the blk-proxy process, and its huge pages.
use cns_virtblk_ts.Base.{ℕ, ◌==◌, Bool, true, false, [], ◌++◌, if◌then◌else◌}
use cns_virtblk_ts.Base.Text.{Bytes, codes}
use cns_virtblk_ts.Base.Exec.{ok, err, efail, Status, Exec, pure, raise, ◌>>=◌, ◌>>◌}
use cns_virtblk_ts.Te.{TeLib}
use cns_virtblk_ts.Backend.{CfgLib}
use cns_virtblk_ts.Ceph.Cluster.{tsapi_use_onload}
use cns_virtblk_ts.BlkProxy.{Handle}
use cns_virtblk_ts.BlkProxy.Process.{LaunchLib}

module _ {W : Type 0} (te : TeLib W) (cfg : CfgLib W) (lib : LaunchLib W) where
  open lib use {
    rpc_system, tapi_cfg_ps_start, tapi_cfg_ps_stop, tapi_cfg_ps_get_status, te_motivated_sleep,
    cfg_del_instance_fmt,
  }

  abbrev pub kill_command : Bytes
  kill_command = codes "onload_stackdump -z kill"

  abbrev killed : ℕ × W → Status × W
  killed (value, w) = (if value == 0 then ok tt else err efail, w)

  abbrev pub kill_if : Bool → Exec W Unit
  kill_if true w = killed (rpc_system kill_command w)
  kill_if false w = (ok tt, w)

  unfoldable pub tsapi_blkproxy_kill_orphaned_stacks : Exec W Unit
  tsapi_blkproxy_kill_orphaned_stacks = tsapi_use_onload te cfg >>= kill_if

  abbrev pub wait_start : Exec W Unit
  wait_start w = (ok tt, te_motivated_sleep 15 w)

  abbrev pub started : Bool → Exec W Unit
  started true = pure tt
  started false = raise efail

  unfoldable pub tsapi_blkproxy_start : Handle → Exec W Unit
  tsapi_blkproxy_start handle = do
    tsapi_blkproxy_kill_orphaned_stacks
    tapi_cfg_ps_start handle.ta handle.ps_name
    wait_start
    status ← tapi_cfg_ps_get_status handle.ta handle.ps_name
    started status

  unfoldable pub tsapi_blkproxy_stop : Handle → Exec W Unit
  tsapi_blkproxy_stop handle = tapi_cfg_ps_stop handle.ta handle.ps_name

  unfoldable pub tsapi_blkproxy_get_status : Handle → Exec W Bool
  tsapi_blkproxy_get_status handle = tapi_cfg_ps_get_status handle.ta handle.ps_name

  -- The instance of the mount point, for pages of 2048 kB.
  abbrev pub mountpoint : Handle → Bytes
  mountpoint handle =
      codes "/agent:" ++ handle.ta ++ codes "/mem:/hugepages:2048/mountpoint:$dev$hugepages-2M"

  unfoldable pub do_mount_umount : Handle → Bool → Exec W Unit
  do_mount_umount handle true = cfg.cfg_add_instance_fmt (mountpoint handle) []
  do_mount_umount handle false = cfg_del_instance_fmt (mountpoint handle)

  unfoldable pub tsapi_blkproxy_mount_hugepage_dir : Handle → Exec W Unit
  tsapi_blkproxy_mount_hugepage_dir handle = do_mount_umount handle true

  unfoldable pub tsapi_blkproxy_umount_hugepage_dir : Handle → Exec W Unit
  tsapi_blkproxy_umount_hugepage_dir handle = do_mount_umount handle false
