-- ===== src/Package/Setting.antt =====
-- block-ts/blk-proxy/config/restart_blk_proxy.c: what leaves the setting that restarts the process
-- as it is.
use cns_virtblk_ts.Base.{
  ℕ, zero, suc, ◌≡◌, refl, Bool, true, false, not, List, [], ◌∷◌, if◌then◌else◌,
}
use cns_virtblk_ts.Base.Text.{Bytes, codes}
use cns_virtblk_ts.Base.Exec.{ok, Exec, pure, ◌>>=◌}
use cns_virtblk_ts.Te.{TeLib}
use cns_virtblk_ts.Backend.{CfgLib}
use cns_virtblk_ts.Backend.Inventory.{ServerLib}
use cns_virtblk_ts.BlkProxy.{Handle}
use cns_virtblk_ts.BlkProxy.Process.{LaunchLib}
use cns_virtblk_ts.BlkProxy.Lifecycle.{
  kill_command, kill_if, started, wait_start, tsapi_blkproxy_kill_orphaned_stacks,
  tsapi_blkproxy_start, tsapi_blkproxy_stop, tsapi_blkproxy_get_status,
}
use cns_virtblk_ts.Ceph.Cluster.{tsapi_use_onload, is_yes}
use cns_virtblk_ts.Virtio.{
  PciLib, vendor_id, device_id, tsapi_get_virtio_blocks, tsapi_virtio_blocks_count,
}
use cns_virtblk_ts.Package.{host_ta}
use cns_virtblk_ts.Package.Owned.{Keeps, >>=-Keeps}
use cns_virtblk_ts.Package.Config.{
  ConfigLib, fail_unless, is_empty, current_driver, collect_drivers, bind_all_drivers,
  unbind_all_drivers, take_drivers, give_drivers, cycle, before_restart,
}

-- The setting of a process: it is read and written, and nothing else that the test calls changes it.
pub record IsSetting {W : Type 0} (te : TeLib W) (cfg : CfgLib W) (launch : LaunchLib W)
    (pci : PciLib W) (lib : ConfigLib W) (handle : Handle) (setting : W → ℕ) : Type 0 where
  pub got :
      (v : ℕ) (w w' : W)
      → lib.tapi_cfg_ps_get_autorestart handle.ta handle.ps_name w ≡ (ok v, w')
      → (v ≡ setting w) × (setting w' ≡ setting w)
  pub written :
      (v : ℕ) (w w' : W)
      → lib.tapi_cfg_ps_set_autorestart handle.ta handle.ps_name v w ≡ (ok tt, w')
      → setting w' ≡ v
  pub status_keeps : Keeps setting (launch.tapi_cfg_ps_get_status handle.ta handle.ps_name)
  pub start_keeps : Keeps setting (launch.tapi_cfg_ps_start handle.ta handle.ps_name)
  pub stop_keeps : Keeps setting (launch.tapi_cfg_ps_stop handle.ta handle.ps_name)
  pub sleep_keeps : (n : ℕ) (w : W) → setting (launch.te_motivated_sleep n w) ≡ setting w
  pub system_keeps : (s : Bytes) (w : W) → setting (launch.rpc_system s w).1 ≡ setting w
  pub get_keeps : (oid : Bytes) → Keeps setting (cfg.cfg_get_instance_fmt oid)
  pub vec_keeps : Keeps setting te.te_vec_append
  pub find_keeps :
      (ta vendor device : Bytes)
      → Keeps setting (pci.tapi_cfg_pci_devices_by_vendor_device ta vendor device)
  pub driver_keeps :
      (ta vendor device : Bytes) (j : ℕ) → Keeps setting (lib.get_driver ta vendor device j)
  pub bind_keeps :
      (ta vendor device : Bytes) (j : ℕ) (d : Bytes)
      → Keeps setting (lib.bind_driver ta vendor device j d)
  pub unbind_keeps :
      (ta vendor device : Bytes) (j : ℕ) → Keeps setting (lib.unbind_driver ta vendor device j)
  pub pause_keeps : (n : ℕ) (w : W) → setting (lib.te_motivated_sleep n w) ≡ setting w

module _ {W : Type 0} (te : TeLib W) (cfg : CfgLib W) (server : ServerLib W) (launch : LaunchLib W)
    (pci : PciLib W) (lib : ConfigLib W) (vendor device : Bytes) (with_rebind : Bool)
    (handle : Handle) (setting : W → ℕ) (doc : IsSetting te cfg launch pci lib handle setting) where
  unless-Keeps : (b : Bool) → Keeps setting (fail_unless b)
  unless-Keeps true w = refl
  unless-Keeps false w = refl

  current-Keeps : (j : ℕ) → Keeps setting (current_driver lib host_ta vendor device j)
  unfolding current_driver
  current-Keeps j =
      >>=-Keeps setting (lib.get_driver host_ta vendor device j) _
        (doc.driver_keeps host_ta vendor device j)
        (λ d.
          >>=-Keeps setting (fail_unless (not (is_empty d))) _ (unless-Keeps (not (is_empty d)))
            (λ _ w. refl))

  collect-Keeps : (left j : ℕ) → Keeps setting (collect_drivers lib host_ta vendor device te left j)
  unfolding collect_drivers
  collect-Keeps zero j w = refl
  collect-Keeps (suc left) j w =
      >>=-Keeps setting (current_driver lib host_ta vendor device j) _ (current-Keeps j)
        (λ d. >>=-Keeps setting te.te_vec_append _ doc.vec_keeps (λ _.
          >>=-Keeps setting (collect_drivers lib host_ta vendor device te left (suc j)) _
            (collect-Keeps left (suc j)) (λ ds w. refl)))
        w

  unbind_all-Keeps :
      (i : ℕ) (ds : List Bytes) → Keeps setting (unbind_all_drivers lib host_ta vendor device i ds)
  unfolding unbind_all_drivers
  unbind_all-Keeps i [] w = refl
  unbind_all-Keeps i (d ∷ ds) w =
      >>=-Keeps setting (lib.unbind_driver host_ta vendor device i) _
        (doc.unbind_keeps host_ta vendor device i) (λ _. unbind_all-Keeps (suc i) ds) w

  bind_all-Keeps :
      (i : ℕ) (ds : List Bytes) → Keeps setting (bind_all_drivers lib host_ta vendor device i ds)
  unfolding bind_all_drivers
  bind_all-Keeps i [] w = refl
  bind_all-Keeps i (d ∷ ds) w =
      >>=-Keeps setting (lib.bind_driver host_ta vendor device i d) _
        (doc.bind_keeps host_ta vendor device i d) (λ _. bind_all-Keeps (suc i) ds) w

  take-Keeps :
      (b : Bool) (n : ℕ)
      → Keeps setting (
          if b
          then take_drivers te cfg server launch pci lib vendor device with_rebind n
          else pure [])
  unfolding take_drivers
  take-Keeps false n w = refl
  take-Keeps true n w =
      >>=-Keeps setting (collect_drivers lib host_ta vendor device te n 0) _ (collect-Keeps n 0)
        (λ ds.
          >>=-Keeps setting (unbind_all_drivers lib host_ta vendor device 0 ds) _
            (unbind_all-Keeps 0 ds) (λ _ w'. refl))
        w

  pub give-Keeps :
      (b : Bool) (ds : List Bytes)
      → Keeps setting (
          if b
          then give_drivers te cfg server launch pci lib vendor device with_rebind ds
          else pure tt)
  unfolding give_drivers
  give-Keeps false ds w = refl
  give-Keeps true ds w =
      >>=-Keeps setting (bind_all_drivers lib host_ta vendor device 0 ds) _ (bind_all-Keeps 0 ds)
        (λ _. doc.pause_keeps 1) w

  pub before-Keeps :
      Keeps setting (before_restart te cfg server launch pci lib vendor device with_rebind handle)
  unfolding before_restart tsapi_blkproxy_get_status tsapi_virtio_blocks_count
      tsapi_get_virtio_blocks
  before-Keeps =
      let id = device_id te cfg pci in
      >>=-Keeps setting (launch.tapi_cfg_ps_get_status handle.ta handle.ps_name) _ doc.status_keeps
        (λ b. >>=-Keeps setting (fail_unless b) _ (unless-Keeps b) (λ _.
          >>=-Keeps setting
            (pci.tapi_cfg_pci_devices_by_vendor_device host_ta vendor_id id >>= λ devs. pure _) _
            (>>=-Keeps setting (pci.tapi_cfg_pci_devices_by_vendor_device host_ta vendor_id id) _
              (doc.find_keeps host_ta vendor_id id) (λ devs w. refl))
            (take-Keeps with_rebind)))

  killed-live : (b : Bool) → Keeps setting (kill_if te cfg launch b)
  killed-live true w = doc.system_keeps (kill_command te cfg launch) w
  killed-live false w = refl

  started-Keeps : (b : Bool) → Keeps setting (started te cfg launch b)
  started-Keeps true w = refl
  started-Keeps false w = refl

  start-Keeps : Keeps setting (tsapi_blkproxy_start te cfg launch handle)
  unfolding tsapi_blkproxy_start tsapi_blkproxy_kill_orphaned_stacks tsapi_use_onload
  start-Keeps =
      let oid = codes "/local:/use_onload:" in
      >>=-Keeps setting
        ((cfg.cfg_get_instance_fmt oid >>= λ val. pure (is_yes val)) >>= kill_if te cfg launch) _
        (>>=-Keeps setting (cfg.cfg_get_instance_fmt oid >>= λ val. pure (is_yes val))
          (kill_if te cfg launch)
          (>>=-Keeps setting (cfg.cfg_get_instance_fmt oid) _ (doc.get_keeps oid) (λ val w. refl))
          killed-live)
        (λ _. >>=-Keeps setting run (λ _. wait >>= λ _. asked) doc.start_keeps (λ _. waited-Keeps))
    where
      run : Exec W Unit
      run = launch.tapi_cfg_ps_start handle.ta handle.ps_name

      wait : Exec W Unit
      wait = wait_start te cfg launch

      asked : Exec W Unit
      asked = launch.tapi_cfg_ps_get_status handle.ta handle.ps_name >>= started te cfg launch

      waited-Keeps : Keeps setting (wait >>= λ _. asked)
      waited-Keeps =
          >>=-Keeps setting wait (λ _. asked) (doc.sleep_keeps 15)
            (λ _.
              >>=-Keeps setting (launch.tapi_cfg_ps_get_status handle.ta handle.ps_name)
                (started te cfg launch) doc.status_keeps started-Keeps)

  pub cycle-Keeps :
      Keeps setting (cycle te cfg server launch pci lib vendor device with_rebind handle)
  unfolding cycle tsapi_blkproxy_stop tsapi_blkproxy_get_status
  cycle-Keeps =
      >>=-Keeps setting (launch.tapi_cfg_ps_stop handle.ta handle.ps_name) _ doc.stop_keeps (λ _.
        >>=-Keeps setting (launch.tapi_cfg_ps_get_status handle.ta handle.ps_name) _
          doc.status_keeps
          (λ b.
            >>=-Keeps setting (fail_unless (not b)) _ (unless-Keeps (not b)) (λ _. start-Keeps)))
