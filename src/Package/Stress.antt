-- ===== src/Package/Stress.antt =====
-- block-ts/blk-proxy/stress/stress.c: FIO while drivers, links or modules go away.
use cns_virtblk_ts.Base.{ℕ, Bool, true, false, List, [], if◌then◌else◌}
use cns_virtblk_ts.Base.Text.{Bytes, codes}
use cns_virtblk_ts.Base.Exec.{ok, Exec, pure, ◌>>=◌, ◌>>◌}
use cns_virtblk_ts.Te.{TeLib}
use cns_virtblk_ts.Backend.{CfgLib}
use cns_virtblk_ts.Virtio.{PciLib, tsapi_get_devices, tsapi_virtio_blocks_bind_driver}
use cns_virtblk_ts.Fio.{FioLib}
use cns_virtblk_ts.Fio.Options.{ParamLib}
use cns_virtblk_ts.Package.{Test, aside, reading, run_or_end, TestLib, host_ta, arm_ta, disk_ta}
use cns_virtblk_ts.Package.Multi.{
  Context, prepare_all, start_all, wait_all, report_all, cleanup_all,
}

-- stress_action
pub data StressAction : Type 0 where
  unbind drop_link_arm drop_link_partner unload_sfc : StressAction

pub record StressLib (W : Type 0) : Type 0 where
  pub test_start_env : Exec W Unit
  -- TEST_GET_IF(): the name of the interface of the client and of the server
  pub get_clt_if : Exec W Bytes
  pub get_srv_if : Exec W Bytes
  pub tapi_cfg_base_if_down : Bytes → Bytes → Exec W Unit
  pub tapi_cfg_base_if_up : Bytes → Bytes → Exec W Unit
  pub tapi_cfg_module_unload : Bytes → Bytes → Exec W Unit
  pub tapi_cfg_module_load : Bytes → Bytes → Exec W Unit

module _ (params : ParamLib) {W : Type 0} (te : TeLib W) (cfg : CfgLib W) (pci : PciLib W)
    (fios : FioLib W) (lib : TestLib W) (stress : StressLib W) where
  open stress use {
    test_start_env, get_clt_if, get_srv_if, tapi_cfg_base_if_down, tapi_cfg_base_if_up,
    tapi_cfg_module_unload, tapi_cfg_module_load,
  }

  abbrev pub sleep : ℕ → Exec W Unit
  sleep seconds w = (ok tt, lib.te_motivated_sleep seconds w)

  -- The opposite of an action, after TIMEOUT_BETWEEN_REVERSE_ACTION_S.
  abbrev pub reversing : Bool → Exec W Unit → Exec W Unit
  reversing true m = sleep 3 >> m
  reversing false m = pure tt

  unfoldable pub drop_link : Bytes → Exec W Bytes → Bool → Exec W Unit
  drop_link ta get_if reverse = do
    test_start_env
    ifname ← get_if
    tapi_cfg_base_if_down ta ifname
    reversing reverse (tapi_cfg_base_if_up ta ifname)

  -- The switch.
  unfoldable pub perform : StressAction → Bool → Exec W Unit
  perform unbind reverse = do
    tsapi_virtio_blocks_bind_driver te cfg pci host_ta []
    reversing reverse (tsapi_virtio_blocks_bind_driver te cfg pci host_ta (codes "virtio-pci"))
  perform drop_link_arm reverse = drop_link arm_ta get_clt_if reverse
  perform drop_link_partner reverse = drop_link disk_ta get_srv_if reverse
  perform unload_sfc reverse = do
    tapi_cfg_module_unload arm_ta (codes "sfc")
    reversing reverse (tapi_cfg_module_load arm_ta (codes "sfc"))

  unfoldable pub wait_and_report : Test (List Context) W Unit
  wait_and_report =
      reading (wait_all params te cfg pci fios lib)
      >> reading (report_all params te cfg pci fios lib)

  -- FIO once more, which must succeed after all the actions.
  unfoldable pub again : Test (List Context) W Unit
  again = reading (start_all params te cfg pci fios lib) >> wait_and_report

  unfoldable pub stress_steps : StressAction → Bool → List Bytes → ℕ → Test (List Context) W Unit
  stress_steps action reverse blocks blocks_count = do
    prepare_all params te cfg pci fios lib (λ _. []) blocks blocks_count
    reading (start_all params te cfg pci fios lib)
    aside (sleep 3)
    aside (perform action reverse)
    wait_and_report
    if reverse then again else pure tt

  -- The status of tsapi_fio_multi_fini() is not looked at here.
  abbrev pub cleanup_stress : List Context → Exec W Unit
  cleanup_stress cs w = (ok tt, (cleanup_all params te cfg pci fios lib cs w).1)

  -- main(), where an error before there are contexts leaves nothing to clean up.
  unfoldable pub stress_test : StressAction → Bool → Exec W Unit
  stress_test action reverse = do
    lib.test_get_rpcs host_ta
    found ← tsapi_get_devices te cfg pci host_ta
    run_or_end [] (stress_steps action reverse found.0 found.1) cleanup_stress
