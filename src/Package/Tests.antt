-- ===== src/Package/Tests.antt =====
-- Tests of the packages on a state that counts, and their theorems at concrete inputs.
use cns_virtblk_ts.Base.{ℕ, ◌+◌, ◌-◌, ◌≤◌, ◌==◌, ◌≡◌, refl, ap, sym, Bool, true, false, [], ◌⊎◌}
use cns_virtblk_ts.Base.Text.{Bytes, codes, strcmp}
use cns_virtblk_ts.Base.Exec.{Result, Status, ok, err, efail, ended_by}
use cns_virtblk_ts.BlkProxy.{Handle}
use cns_virtblk_ts.BlkProxy.Process.{LaunchLib}
use cns_virtblk_ts.BlkProxy.Lifecycle.{
  tsapi_blkproxy_kill_orphaned_stacks, tsapi_blkproxy_start, tsapi_blkproxy_stop,
  tsapi_blkproxy_get_status,
}
use cns_virtblk_ts.Ceph.Cluster.{tsapi_use_onload}
use cns_virtblk_ts.Virtio.{tsapi_get_virtio_blocks, tsapi_virtio_blocks_count}
use cns_virtblk_ts.Package.{run_test, fio_test, host_ta}
use cns_virtblk_ts.Package.Model.{params, te, pci, fios, cfg, server, lib}
use cns_virtblk_ts.Package.Owned.{held}
use cns_virtblk_ts.Package.Counts.{IsTestCount}
use cns_virtblk_ts.Package.ReadWrite.{LoadLib, get_stress_rpcs, fio_pattern, fio_stability}
use cns_virtblk_ts.Package.Config.{
  ConfigLib, cycle, before_restart, restart_once, restart_times, restart_blk_proxy, reboot_arm,
}
use cns_virtblk_ts.Package.Network.{DoubleLib, NetemLib, delay, loss, netem_start}
use cns_virtblk_ts.Package.Balance.{fio_tests-balance}
use cns_virtblk_ts.Package.Leak.{IsLoadCount, fio_stability-leaks}
use cns_virtblk_ts.Package.Setting.{IsSetting}
use cns_virtblk_ts.Package.Restart.{restart-setting}
use cns_virtblk_ts.Package.Stimuli.{netem_start-in_table}

lib-IsTestCount : IsTestCount te pci lib (λ w. w)
lib-IsTestCount = record {
  factory_made = λ ta w. refl;
  factory_destroyed = λ f w. refl;
  fio_made = λ opts f path w. refl;
  fio_destroyed = λ a w. refl;
  rpcs_keeps = λ ta w. refl;
  path_keeps = λ f w. refl;
  start_keeps = λ a w. refl;
  wait_keeps = λ a t w. refl;
  stop_keeps = λ a w. refl;
  report_keeps = λ a w. refl;
  log_keeps = λ r w. refl;
  append_keeps = λ s t w. refl;
  devices = record {
    vec_keeps = λ w. refl;
    find_keeps = λ ta vendor device w. refl;
    names_keeps = λ dev w. refl;
  };
}

abbrev counting : ConfigLib ℕ
counting = record {
  get_driver = λ ta vendor device j w. (ok [], w);
  bind_driver = λ ta vendor device j d w. (ok tt, w);
  unbind_driver = λ ta vendor device j w. (ok tt, w);
  tapi_cfg_ps_get_autorestart = λ ta name w. (ok 0, w);
  tapi_cfg_ps_set_autorestart = λ ta name v w. (ok tt, w);
  cfg_reboot_ta = λ ta w. (ok tt, w);
  te_motivated_sleep = λ n w. w;
}

fio_tests-balance_example :
    (let whole = fio_test params te cfg pci fios lib 7 in
      let pattern = fio_pattern params te cfg pci fios lib 7 in
      let reboot = reboot_arm params te cfg pci fios lib counting true 0 2 7 in
      ((ended_by whole.0 ≡ true) ⊎ (whole.1 ≡ 7))
      × ((ended_by pattern.0 ≡ true) ⊎ (pattern.1 ≡ 7))
      × ((ended_by reboot.0 ≡ true) ⊎ (reboot.1 ≡ 7)))
fio_tests-balance_example =
    fio_tests-balance params te cfg pci fios lib (λ w. w) lib-IsTestCount counting (λ ta w. refl)
      true 0 2 7

abbrev load : LoadLib ℕ
load = record {
  tapi_stress_create = λ f w. (ok 8, w + 1);
  tapi_stress_start = λ a w. (ok tt, w);
  tapi_stress_stop = λ a w. (ok tt, w);
  tapi_stress_destroy = λ a w. w - held a;
}

load-IsLoadCount : IsLoadCount load (λ w. w)
load-IsLoadCount = record {
  stress_made = λ f w. refl;
  stress_destroyed = λ a w. refl;
  stress_start_keeps = λ a w. refl;
  stress_stop_keeps = λ a w. refl;
}

same_agent : get_stress_rpcs params te cfg pci fios lib load host_ta 0 ≡ (ok tt, 0)
unfolding get_stress_rpcs strcmp
same_agent = refl

fio_stability-leaks_example :
    (let result = fio_stability params te cfg pci fios lib load host_ta 0 in
      ((ended_by result.0 ≡ true) × (0 + 1 ≤ result.1)) ⊎ (result.1 ≡ 0 + 1))
fio_stability-leaks_example =
    fio_stability-leaks params te cfg pci fios lib load (λ w. w) lib-IsTestCount load-IsLoadCount
      host_ta 5 0 0 0 1 refl same_agent refl

-- The setting of a process, and whether it runs.
abbrev World : Type 0
World = ℕ × Bool

abbrev launch : LaunchLib World
launch = record {
  tapi_job_opt_build_args = λ path binds w. (ok [], w);
  te_vec_append_vec = λ w. (ok tt, w);
  out_of_range = λ w. (err efail, w);
  tapi_cfg_get_all_threads = λ ta w. (ok 8, w);
  cfg_get_inst_name = λ h w. (ok (codes "EF_POLL_USEC"), w);
  cfg_del_instance_fmt = λ p w. (ok tt, w);
  rcf_ta_name2type = λ ta w. (ok (codes "linux"), w);
  te_alloc = λ w. (true, w);
  tapi_cfg_ps_add = λ ta name path w. (ok tt, w);
  tapi_cfg_ps_add_env = λ ta name k v w. (ok tt, w);
  tapi_cfg_ps_add_arg = λ ta name n a w. (ok tt, w);
  tapi_cfg_ps_start = λ ta name w. (ok tt, (w.0, true));
  tapi_cfg_ps_stop = λ ta name w. (ok tt, (w.0, false));
  tapi_cfg_ps_get_status = λ ta name w. (ok w.1, w);
  te_motivated_sleep = λ n w. w;
  rpc_system = λ s w. (0, w);
}

abbrev config : ConfigLib World
config = record {
  get_driver = λ ta vendor device j w. (ok [], w);
  bind_driver = λ ta vendor device j d w. (ok tt, w);
  unbind_driver = λ ta vendor device j w. (ok tt, w);
  tapi_cfg_ps_get_autorestart = λ ta name w. (ok w.0, w);
  tapi_cfg_ps_set_autorestart = λ ta name v w. (ok tt, (v, w.1));
  cfg_reboot_ta = λ ta w. (ok tt, w);
  te_motivated_sleep = λ n w. w;
}

ok-eq : {A : Type 0} (a b : A) → ◌≡◌ {A = Result A} (ok a) (ok b) → a ≡ b
ok-eq a b h = cc

abbrev handle : Handle
handle = record {
  ta = host_ta;
  ps_name = codes "blkproxy";
  config_name = codes "blk.cfg";
  config_local_dir = codes "/tmp/";
  config_agent_dir = codes "/agt/";
  is_old_spdk = false;
}

config-IsSetting : IsSetting te cfg launch pci config handle (λ w. w.0)
config-IsSetting = record {
  got = λ v w w' h. (sym (ok-eq w.0 v (ap (λ r. r.0) h)), ap (λ r. r.1.0) (sym h));
  written = λ v w w' h. ap (λ r. r.1.0) (sym h);
  status_keeps = λ w. refl;
  start_keeps = λ w. refl;
  stop_keeps = λ w. refl;
  sleep_keeps = λ n w. refl;
  system_keeps = λ s w. refl;
  get_keeps = λ oid w. refl;
  vec_keeps = λ w. refl;
  find_keeps = λ ta vendor device w. refl;
  driver_keeps = λ ta vendor device j w. refl;
  bind_keeps = λ ta vendor device j d w. refl;
  unbind_keeps = λ ta vendor device j w. refl;
  pause_keeps = λ n w. refl;
}

abbrev vendor : Bytes
vendor = codes "1bf4"

-- Two rounds, from a process that runs and is restarted when it ends.
abbrev rounds : Status × World
rounds = restart_blk_proxy te cfg server launch pci config vendor vendor false 0 2 handle (3, true)

rounds-ok : rounds.0 ≡ ok tt
unfolding restart_blk_proxy run_test restart_times restart_once before_restart cycle
    tsapi_blkproxy_get_status tsapi_blkproxy_stop tsapi_blkproxy_start
    tsapi_blkproxy_kill_orphaned_stacks tsapi_use_onload tsapi_virtio_blocks_count
    tsapi_get_virtio_blocks strcmp
rounds-ok = refl

restart-setting_example : rounds.1.0 ≡ 0
restart-setting_example =
    restart-setting te cfg server launch pci config vendor vendor false handle (λ w. w.0)
      config-IsSetting 0 1 (3, true) rounds.1 (ap (λ r. (r, rounds.1)) rounds-ok)

abbrev doubles : DoubleLib
doubles = record { Double = ℕ; is_zero = λ d. d == 0; is_negative = λ d. false; to_uint = λ d. d }

abbrev netem : NetemLib ℕ ℕ
netem = record {
  set_kind_netem = λ ta name w. (ok tt, w);
  qdisc_enable = λ ta name w. (ok tt, w + 1);
  set_delay = λ ta name d w. (ok tt, w + d);
  set_loss = λ ta name d w. (ok tt, w + d);
  set_duplicate = λ ta name d w. (ok tt, w + d);
  set_limit = λ ta name d w. (ok tt, w + d);
  set_gap = λ ta name d w. (ok tt, w + d);
  set_reorder_probability = λ ta name d w. (ok tt, w + d);
  set_corruption_probability = λ ta name d w. (ok tt, w + d);
  set_delay_correlation = λ ta name d w. (ok tt, w + d);
  set_loss_correlation = λ ta name d w. (ok tt, w + d);
  set_duplicate_correlation = λ ta name d w. (ok tt, w + d);
  set_reorder_correlation = λ ta name d w. (ok tt, w + d);
  set_corruption_correlation = λ ta name d w. (ok tt, w + d);
  behind_table = λ w. (err efail, w);
}

netem_start-in_table_example :
    netem_start doubles
      (record netem { behind_table = λ w. (ok tt, 0) })
      host_ta
      (codes "eth0")
      delay
      0
      20
      loss
      1
      5
      0
    ≡ netem_start doubles netem host_ta (codes "eth0") delay 0 20 loss 1 5 0
netem_start-in_table_example =
    ap (λ m. m 0)
      (netem_start-in_table doubles netem host_ta (codes "eth0") (λ w. (ok tt, 0)) delay 0 20 loss 1
        5)
