-- ===== src/Package/Performance.antt =====
-- block-ts/blk-proxy/performance: the default blk-proxy gives way to one whose configuration is measured.
use cns_virtblk_ts.Base.{ℕ, ◌==◌, false, Option, none, some, List, [], if◌then◌else◌}
use cns_virtblk_ts.Base.Text.{Bytes, codes}
use cns_virtblk_ts.Base.Exec.{Exec, pure, ◌>>=◌, ◌>>◌}
use cns_virtblk_ts.Backend.{mode_number, mode_ceph, tsapi_backend_get_mode}
use cns_virtblk_ts.BlkProxy.{Handle}
use cns_virtblk_ts.BlkProxy.Create.{tsapi_blkproxy_create_conf}
use cns_virtblk_ts.BlkProxy.Process.{tsapi_blkproxy_handle_init}
use cns_virtblk_ts.BlkProxy.Lifecycle.{
  tsapi_blkproxy_mount_hugepage_dir, tsapi_blkproxy_umount_hugepage_dir, tsapi_blkproxy_start,
  tsapi_blkproxy_stop,
}
use cns_virtblk_ts.BlkProxy.Masks.{ReportLib}
use cns_virtblk_ts.Ceph.Fill.{FillLib, tsapi_ceph_fill_devices}
use cns_virtblk_ts.Virtio.{tsapi_virtio_blocks_bind_driver}
use cns_virtblk_ts.Suite.{Libs}
use cns_virtblk_ts.Suite.Prologue.{asked, init_proxy}
use cns_virtblk_ts.Fio.{FioLib}
use cns_virtblk_ts.Fio.Options.{ParamLib}
use cns_virtblk_ts.Fio.Report.{tsapi_fio_mi_report}
use cns_virtblk_ts.Package.{
  aside, reading, run_or_end, Fio, TestLib, no_fio, host_ta, arm_ta, get_opts, prepare_fio, run_fio,
  log, cleanup_fio,
}

-- PERFORMANCE_LIB_BLK_PROXY_PS_NAME and PERFORMANCE_LIB_BLK_PROXY_CONF_NAME
abbrev pub perf_ps_name : Bytes
perf_ps_name = codes "perf-blk-proxy"

abbrev pub perf_conf_name : Bytes
perf_conf_name = codes "perf_bp_map"

-- The MI logger, with the value of TE_TMP and the arguments of an application.
pub record MiLib (W : Type 0) : Type 0 where
  pub te_mi_logger_meas_create : Exec W Unit
  pub tapi_fio_mi_report : ℕ → Exec W Unit
  pub te_mi_logger_destroy : Exec W Unit
  pub te_tmp : Bytes
  pub fio_args : Option Fio → List Bytes

module _ {W : Type 0} (libs : Libs W) (lib : TestLib W) where
  open libs use {te, cfg, server, launch, proxy, pci, jobs}

  unfoldable pub both_agents : Exec W Unit
  both_agents = lib.test_get_rpcs arm_ta >> lib.test_get_rpcs host_ta

  abbrev pub handle_of_test : Option Bytes → Option Bytes → Exec W Handle
  handle_of_test ps_name conf_name =
      tsapi_blkproxy_handle_init te cfg server launch (some arm_ta) ps_name conf_name

  -- The process of a handle is stopped, with the drivers unbound and its memory unmounted.
  unfoldable pub shut_down : Handle → Exec W Unit
  shut_down handle = do
    tsapi_virtio_blocks_bind_driver te cfg pci host_ta []
    tsapi_blkproxy_stop te cfg launch handle
    tsapi_blkproxy_umount_hugepage_dir te cfg launch handle

  unfoldable pub bring_up : Handle → Exec W Unit
  bring_up handle = do
    tsapi_blkproxy_mount_hugepage_dir te cfg launch handle
    tsapi_blkproxy_start te cfg launch handle
    tsapi_virtio_blocks_bind_driver te cfg pci host_ta (codes "virtio-pci")

  -- PERFORMANCE_LIB_DEFAULT_FIO_OPT_SIZE of the devices is filled where the storage is Ceph.
  unfoldable pub fill_for_ceph : FioLib W → FillLib W → Exec W Unit
  fill_for_ceph fios fill = do
    mode ← asked libs (tsapi_backend_get_mode cfg)
    if mode_number mode == mode_number mode_ceph
        then tsapi_ceph_fill_devices te cfg pci jobs fios fill host_ta (codes "100%")
        else pure tt

  unfoldable pub performance_prologue : FioLib W → FillLib W → Exec W Unit
  performance_prologue fios fill = do
    both_agents
    fill_for_ceph fios fill
    handle ← handle_of_test none none
    shut_down handle

  unfoldable pub performance_epilogue : Exec W Unit
  performance_epilogue = both_agents >> handle_of_test none none >>= bring_up

  unfoldable pub fio_prologue : List Bytes → Exec W Unit
  fio_prologue argv = do
    both_agents
    handle ← handle_of_test (some perf_ps_name) (some perf_conf_name)
    tsapi_blkproxy_create_conf te cfg server proxy handle (codes "config_converter.py") argv
    init_proxy libs handle
    bring_up handle

  unfoldable pub fio_epilogue : Exec W Unit
  fio_epilogue =
      both_agents >> handle_of_test (some perf_ps_name) (some perf_conf_name) >>= shut_down

  module _ (params : ParamLib) (fios : FioLib W) (report_lib : ReportLib W) (mi : MiLib W) where
    unfoldable pub mi_report : Option Fio → ℕ → Exec W Unit
    mi_report fio report =
        tsapi_fio_mi_report te report_lib mi.te_mi_logger_meas_create (mi.tapi_fio_mi_report report)
          mi.te_mi_logger_destroy mi.te_tmp (lib.agent_dir arm_ta) perf_conf_name arm_ta false
          (mi.fio_args fio)

    -- main() of fio_perf.c.
    unfoldable pub fio_perf : Exec W Unit
    fio_perf =
        run_or_end no_fio
          (do
            opts ← aside (get_opts params te cfg pci fios lib)
            prepare_fio params te cfg pci fios lib opts
            run_fio params te cfg pci fios lib
            report ← reading (λ v. lib.tapi_fio_get_report v.fio)
            aside (log params te cfg pci fios lib report)
            reading (λ v. mi_report v.fio report))
          (cleanup_fio params te cfg pci fios lib)
