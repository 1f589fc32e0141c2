-- ===== src/Package/Benches/Tests.antt =====
-- The benchmarks on a state that counts.
use cns_virtblk_ts.Base.{ℕ, ◌+◌, ◌-◌, ◌≡◌, refl, true, false, if◌then◌else◌, some, []}
use cns_virtblk_ts.Base.Text.{codes}
use cns_virtblk_ts.Base.Exec.{ok, err, efail}
use cns_virtblk_ts.Ceph.Jobs.{JobLib, exited}
use cns_virtblk_ts.FileSystem.{FsLib}
use cns_virtblk_ts.FileSystem.Balance.{is_there}
use cns_virtblk_ts.Tools.{ToolLib}
use cns_virtblk_ts.Package.Model.{params, te, cfg, pci}
use cns_virtblk_ts.Package.Fs.{PointerLib, compilebench_test, dbench_test, fsmark_test, iozone_test}
use cns_virtblk_ts.Package.Benches.{IsBenchCount}
use cns_virtblk_ts.Package.Benches.Balance.{fs_tests-balance}

abbrev jobs : JobLib ℕ
jobs = record {
  tapi_job_factory_rpc_create = λ w. (ok 5, w + 1);
  tapi_job_factory_destroy = λ f w. if is_there f then w - 1 else w;
  tapi_job_simple_create = λ f argv w. (err efail, w);
  tapi_job_start = λ j w. (ok tt, w);
  tapi_job_wait = λ j ms w. (ok (record { type = exited; value = 0 }), w);
  tapi_job_destroy = λ j ms w. (ok tt, if is_there j then w - 1 else w);
  tapi_job_attach_filter = λ c name w. (ok 0, w);
  tapi_job_filter_add_regexp = λ f re w. (ok tt, w);
  tapi_job_receive = λ f ms w. (ok (false, codes "results"), w);
}

abbrev tools : ToolLib ℕ
tools = record {
  te_alloc = λ w. (true, w);
  tapi_job_opt_build_args = λ path binds w. (ok [], w);
  tapi_job_simple_create = λ f argv re w. (ok (7, 8), w + 1);
  cfg_get_instance_sync_fmt = λ oid w. (ok (codes "/agt"), w);
  tapi_job_factory_ta = λ f. some (codes "Agt_host");
  tapi_job_clear = λ f w. (ok tt, w);
  tapi_job_kill = λ j s w. (ok tt, w);
  tapi_job_stop = λ j ms w. (ok tt, w);
  check_status = λ s. ok tt;
  ring = λ text w. w;
}

abbrev fs : FsLib ℕ
fs = record {
  tapi_job_simple_create = λ f argv re w. (ok (7, 8), w + 1);
  tapi_job_simple_create_env = λ f argv env w. (ok (7, 8), w + 1);
  tapi_job_kill = λ j w. (ok tt, w);
  tapi_job_filters_have_data = λ c ms w. (true, w);
  tapi_mke2fs_do = λ f device type ms w. (ok tt, some 9, w + 1);
  tapi_mke2fs_check_journal = λ a w. (ok tt, w);
  tapi_mke2fs_destroy = λ a w. (ok tt, if is_there a then w - 1 else w);
  rpc_system_ex = λ s w. (true, 0, w);
}

abbrev pointers : PointerLib ℕ
pointers = record { null_pointer = λ w. (err efail, w); unset_blocks = λ w. (err efail, w) }

jobs-IsBenchCount : IsBenchCount te cfg pci jobs tools fs pointers (λ w. w)
jobs-IsBenchCount = record {
  tools_count = record {
    append_keeps = λ s t w. refl;
    get_keeps = λ oid w. refl;
    sync_keeps = λ oid w. refl;
    alloc_keeps = λ w. refl;
    build_keeps = λ bin binds w. refl;
    job_made = λ f args re w. refl;
    job_destroyed = λ j ms w. refl;
    attach_keeps = λ c name w. refl;
    regexp_keeps = λ f re w. refl;
  };
  fs_count = record {
    factory_made = λ w. refl;
    factory_destroyed = λ f w. refl;
    job_made = λ f argv re w. refl;
    job_destroyed = λ j ms w. refl;
    start_keeps = λ j w. refl;
    wait_keeps = λ j ms w. refl;
    data_keeps = λ c ms w. refl;
    app_made = λ f device type ms w. refl;
    journal_keeps = λ a w. refl;
    app_destroyed = λ a w. refl;
  };
  devices = record {
    vec_keeps = λ w. refl;
    find_keeps = λ ta vendor device w. refl;
    names_keeps = λ dev w. refl;
  };
  no_factory = λ w. refl;
  clear_keeps = λ f w. refl;
  receive_keeps = λ f ms w. refl;
  ring_keeps = λ text w. refl;
  system_keeps = λ s w. refl;
  null_keeps = λ w. refl;
  unset_keeps = λ w. refl;
}

fs_tests-balance_example :
    ((compilebench_test params te cfg pci jobs tools fs pointers (ok true) 3).1 ≡ 3)
    × ((dbench_test params te cfg pci jobs tools fs pointers 3).1 ≡ 3)
    × ((fsmark_test params te cfg pci jobs tools fs pointers 3).1 ≡ 3)
    × ((iozone_test params te cfg pci jobs tools fs pointers 3).1 ≡ 3)
fs_tests-balance_example =
    fs_tests-balance params te cfg pci jobs tools fs pointers (λ w. w) jobs-IsBenchCount (ok true) 3
