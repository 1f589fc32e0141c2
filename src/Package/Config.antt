-- ===== src/Package/Config.antt =====
-- block-ts/blk-proxy/config: driver_rebind.c, reboot_arm.c and restart_blk_proxy.c.
use cns_virtblk_ts.Base.{
  ℕ, zero, suc, ◌==◌, Bool, true, false, not, List, [], ◌∷◌, ltb, if◌then◌else◌,
}
use cns_virtblk_ts.Base.Text.{Bytes}
use cns_virtblk_ts.Base.Exec.{Result, ok, err, efail, Exec, pure, raise, ◌>>=◌, ◌>>◌}
use cns_virtblk_ts.Te.{TeLib}
use cns_virtblk_ts.Backend.{CfgLib}
use cns_virtblk_ts.Backend.Inventory.{ServerLib}
use cns_virtblk_ts.BlkProxy.{Handle}
use cns_virtblk_ts.BlkProxy.Process.{LaunchLib}
use cns_virtblk_ts.BlkProxy.Lifecycle.{
  tsapi_blkproxy_start, tsapi_blkproxy_stop, tsapi_blkproxy_get_status,
}
use cns_virtblk_ts.Virtio.{PciLib, tsapi_virtio_blocks_count}
use cns_virtblk_ts.Fio.{FioLib}
use cns_virtblk_ts.Fio.Options.{ParamLib}
use cns_virtblk_ts.Package.{
  Test, aside, reading, store, run_test, run_or_end, TestLib, FioVars, no_fio, host_ta, arm_ta,
  get_opts, prepare_fio, flex_wait, destroy_fio,
}

-- The drivers of PCI devices, which are given by an agent, a vendor, a device and an instance, in the
-- Configurator, and the setting that restarts a process.
pub record ConfigLib (W : Type 0) : Type 0 where
  pub get_driver : Bytes → Bytes → Bytes → ℕ → Exec W Bytes
  pub bind_driver : Bytes → Bytes → Bytes → ℕ → Bytes → Exec W Unit
  pub unbind_driver : Bytes → Bytes → Bytes → ℕ → Exec W Unit
  pub tapi_cfg_ps_get_autorestart : Bytes → Bytes → Exec W ℕ
  pub tapi_cfg_ps_set_autorestart : Bytes → Bytes → ℕ → Exec W Unit
  -- cfg_reboot_ta(ta, TRUE, RCF_REBOOT_TYPE_WARM)
  pub cfg_reboot_ta : Bytes → Exec W Unit
  -- te_motivated_sleep() for some seconds
  pub te_motivated_sleep : ℕ → W → W

abbrev pub fail_unless : {W : Type 0} → Bool → Exec W Unit
fail_unless true = pure tt
fail_unless false = raise efail

abbrev pub is_empty : Bytes → Bool
is_empty [] = true
is_empty (c ∷ s) = false

module _ {W : Type 0} (lib : ConfigLib W) (ta vendor_id device_id : Bytes) where
  open lib use {get_driver, bind_driver, unbind_driver, te_motivated_sleep}

  abbrev pub pause : ℕ → Exec W Unit
  pause seconds w = (ok tt, te_motivated_sleep seconds w)

  abbrev pub rebind_once : ℕ → Bytes → Exec W Unit
  rebind_once j driver = do
    unbind_driver ta vendor_id device_id j
    bind_driver ta vendor_id device_id j driver
    pause 5

  -- The inner loop, with the rounds that are left.
  unfoldable pub rebind_times : ℕ → ℕ → Bytes → Exec W Unit
  rebind_times zero j driver = pure tt
  rebind_times (suc left) j driver = rebind_once j driver >> rebind_times left j driver

  -- The driver of a device; without one the test fails.
  unfoldable pub current_driver : ℕ → Exec W Bytes
  current_driver j = do
    driver ← get_driver ta vendor_id device_id j
    fail_unless (not (is_empty driver))
    pure driver

  unfoldable pub rebind_device : ℕ → ℕ → Exec W Unit
  rebind_device rebind_count j = current_driver j >>= rebind_times rebind_count j

  -- The outer loop from the device j on, of which `left` are left.
  unfoldable pub rebind_from : ℕ → ℕ → ℕ → Exec W Unit
  rebind_from rebind_count zero j = pure tt
  rebind_from rebind_count (suc left) j =
      rebind_device rebind_count j >> rebind_from rebind_count left (suc j)

  unfoldable pub bind_all_drivers : ℕ → List Bytes → Exec W Unit
  bind_all_drivers i [] = pure tt
  bind_all_drivers i (driver ∷ drivers) =
      bind_driver ta vendor_id device_id i driver >> bind_all_drivers (suc i) drivers

  unfoldable pub unbind_all_drivers : ℕ → List Bytes → Exec W Unit
  unbind_all_drivers i [] = pure tt
  unbind_all_drivers i (driver ∷ drivers) =
      unbind_driver ta vendor_id device_id i >> unbind_all_drivers (suc i) drivers

  -- The drivers of the devices from j on, of which `left` are left.
  unfoldable pub collect_drivers : TeLib W → ℕ → ℕ → Exec W (List Bytes)
  collect_drivers te zero j = pure []
  collect_drivers te (suc left) j = do
    driver ← current_driver j
    te.te_vec_append
    drivers ← collect_drivers te left (suc j)
    pure (driver ∷ drivers)

  -- main() of driver_rebind.c.
  unfoldable pub driver_rebind : TeLib W → CfgLib W → PciLib W → ℕ → Exec W Unit
  driver_rebind te cfg pci rebind_count = do
    fail_unless (ltb 0 rebind_count)
    block_dev_count ← tsapi_virtio_blocks_count te cfg pci ta
    rebind_from rebind_count block_dev_count 0

-- The values of main() of restart_blk_proxy.c: whether the drivers are bound anew.
module _ {W : Type 0} (te : TeLib W) (cfg : CfgLib W) (server : ServerLib W) (launch : LaunchLib W)
    (pci : PciLib W) (lib : ConfigLib W) (vendor_id device_id : Bytes) (with_rebind : Bool) where
  open lib use {tapi_cfg_ps_get_autorestart, tapi_cfg_ps_set_autorestart}

  -- The drivers, which are then unbound.
  unfoldable pub take_drivers : ℕ → Exec W (List Bytes)
  take_drivers block_dev_count = do
    drivers ← collect_drivers lib host_ta vendor_id device_id te block_dev_count 0
    unbind_all_drivers lib host_ta vendor_id device_id 0 drivers
    pure drivers

  unfoldable pub give_drivers : List Bytes → Exec W Unit
  give_drivers drivers = do
    bind_all_drivers lib host_ta vendor_id device_id 0 drivers
    pause lib host_ta vendor_id device_id 1

  abbrev pub disable_if : Handle → ℕ → Exec W Unit
  disable_if handle value =
      if value == 0 then pure tt else tapi_cfg_ps_set_autorestart handle.ta handle.ps_name 0

  -- The process is stopped and started.
  unfoldable pub cycle : Handle → Exec W Unit
  cycle handle = do
    tsapi_blkproxy_stop te cfg launch handle
    status ← tsapi_blkproxy_get_status te cfg launch handle
    fail_unless (not status)
    tsapi_blkproxy_start te cfg launch handle

  -- What comes before the setting is read.
  unfoldable pub before_restart : Handle → Exec W (List Bytes)
  before_restart handle = do
    status ← tsapi_blkproxy_get_status te cfg launch handle
    fail_unless status
    block_dev_count ← tsapi_virtio_blocks_count te cfg pci host_ta
    if with_rebind then take_drivers block_dev_count else pure []

  -- The variable of the test is autorestart_value.
  unfoldable pub restart_once : Handle → Test ℕ W Unit
  restart_once handle = do
    drivers ← aside (before_restart handle)
    value ← aside (tapi_cfg_ps_get_autorestart handle.ta handle.ps_name)
    store (λ _. value)
    aside (disable_if handle value)
    aside (cycle handle)
    aside (if with_rebind then give_drivers drivers else pure tt)

  unfoldable pub restart_times : ℕ → Handle → Test ℕ W Unit
  restart_times zero handle = pure tt
  restart_times (suc left) handle = restart_once handle >> restart_times left handle

  abbrev pub restore_autorestart : Handle → ℕ → Exec W Unit
  restore_autorestart handle value =
      if value == 0 then pure tt else tapi_cfg_ps_set_autorestart handle.ta handle.ps_name value

  -- main() from the handle on; `garbage` is what the variable holds that is not set. An error of the
  -- clean-up ends it.
  unfoldable pub restart_blk_proxy : ℕ → ℕ → Handle → Exec W Unit
  restart_blk_proxy garbage iter_num handle =
      run_test garbage (restart_times iter_num handle) (restore_autorestart handle)

module _ (params : ParamLib) {W : Type 0} (te : TeLib W) (cfg : CfgLib W) (pci : PciLib W)
    (fios : FioLib W) (lib : TestLib W) (config : ConfigLib W) (reboot_after_fio : Bool) where
  abbrev pub reboot_if : Bool → Exec W Unit
  reboot_if true = config.cfg_reboot_ta arm_ta
  reboot_if false = pure tt

  -- The status of the report is not looked at, and what is then logged is what the variable holds.
  abbrev pub log_any : ℕ → Result ℕ × W → Result ℕ × W
  log_any old (ok report, w) = (ok report, lib.tapi_fio_log_report report w)
  log_any old (err e, w) = (ok old, lib.tapi_fio_log_report old w)

  unfoldable pub reboot_once : ℕ → Test FioVars W ℕ
  reboot_once report = do
    reading (λ v. lib.tapi_fio_start v.fio)
    aside (reboot_if (not reboot_after_fio))
    reading (λ v. flex_wait params te cfg pci fios lib v.fio)
    reading (λ v. lib.tapi_fio_stop v.fio)
    aside (reboot_if reboot_after_fio)
    reading (λ v w. log_any report (lib.tapi_fio_get_report v.fio w))

  unfoldable pub reboot_times : ℕ → ℕ → Test FioVars W Unit
  reboot_times zero report = pure tt
  reboot_times (suc left) report = reboot_once report >>= reboot_times left

  -- main() of reboot_arm.c; `garbage` is what the report holds that is not set.
  unfoldable pub reboot_arm : ℕ → ℕ → Exec W Unit
  reboot_arm garbage count_iter =
      run_or_end no_fio
        (do
          opts ← aside (get_opts params te cfg pci fios lib)
          prepare_fio params te cfg pci fios lib opts
          reboot_times count_iter garbage)
        (λ v w. (ok tt, destroy_fio params te cfg pci fios lib v w))
