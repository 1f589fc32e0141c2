-- ===== src/Tools/Tests.antt =====
-- Runs of the benchmarks, and the theorem at a concrete input.
use cns_virtblk_ts.Base.{ℕ, ◌+◌, ◌-◌, ◌≡◌, refl, true, false, none, some, [], ◌∷◌, ◌++◌}
use cns_virtblk_ts.Base.Text.{codes}
use cns_virtblk_ts.Base.Exec.{ok, err, efail, enoent}
use cns_virtblk_ts.Te.{TeLib}
use cns_virtblk_ts.Backend.{CfgLib}
use cns_virtblk_ts.Ceph.Jobs.{JobLib, exited}
use cns_virtblk_ts.Tools.{ToolLib, create_common}
use cns_virtblk_ts.Tools.Create.{
  CompilebenchOpts, DbenchOpts, FsmarkOpts, IozoneOpts, make_app, add_results_filter, dbench_binds,
  destroyed, get_client_txt_location, tsapi_compilebench_create, tsapi_dbench_create,
  tsapi_fsmark_create, tsapi_iozone_create,
}
use cns_virtblk_ts.Tools.Balance.{IsJobCount, tools-balance}

-- The state is the number of jobs. No expression can be added to a filter.
abbrev te : TeLib ℕ
te = record {
  te_string_append = λ s t w. (ok tt, s ++ t, w);
  te_vec_append = λ w. (ok tt, w);
  strdup = λ w. (true, w);
  after_block = λ w. [];
  after_arg = λ arg w. [];
  te_string_cut = λ s n. s;
  strcmp_start = λ p s. false;
  te_str_strip_spaces = λ s. s;
  getenv = λ v. none;
  rcf_ta_get_file = λ ta remote local w. (err efail, w);
  fopen_read = λ p w. (err efail, w);
  fopen_write = λ p w. (err efail, w);
  fwrite = λ p t w. (err efail, w);
  rpc_open = λ p w. (none, w);
  rpc_write_and_close = λ fd t w. (0, w);
  rpc_errno = λ w. ok tt;
}

abbrev jobs : JobLib ℕ
jobs = record {
  tapi_job_factory_rpc_create = λ w. (ok w, w + 1);
  tapi_job_factory_destroy = λ f w. elim f [ some _ ↦ w - 1 | none ↦ w ];
  tapi_job_simple_create = λ f argv w. (err efail, w);
  tapi_job_start = λ j w. (ok tt, w);
  tapi_job_wait = λ j ms w. (ok (record { type = exited; value = 0 }), w);
  tapi_job_destroy = λ j ms w. elim j [ some _ ↦ (ok tt, w - 1) | none ↦ (ok tt, w) ];
  tapi_job_attach_filter = λ c name w. (ok 0, w);
  tapi_job_filter_add_regexp = λ f re w. (err enoent, w);
  tapi_job_receive = λ f ms w. (ok (false, []), w);
}

abbrev cfg : CfgLib ℕ
cfg = record {
  cfg_find_pattern = λ p w. (ok [], w);
  no_instance = λ w. 0;
  cfg_get_inst_name = λ i n w. (err efail, w);
  cfg_get_instance = λ i w. (err efail, w);
  cfg_get_instance_fmt = λ p w. (ok (codes "yes"), w);
  cfg_add_instance_fmt = λ p v w. (ok tt, w);
  te_kvpair_add = λ ps n v w. (ok ps, w);
  te_strtoi = λ s w. (ok 100, w);
  decimal = λ n. codes "24";
  null_text = codes "(null)";
}

abbrev lib : ToolLib ℕ
lib = record {
  te_alloc = λ w. (true, w);
  tapi_job_opt_build_args = λ bin binds w. (ok (bin ∷ []), w);
  tapi_job_simple_create = λ f args re w. (ok (w, 0), w + 1);
  cfg_get_instance_sync_fmt = λ oid w. (ok (codes "/tmp"), w);
  tapi_job_factory_ta = λ f. some (codes "Agt_A");
  tapi_job_clear = λ filter w. (ok tt, w);
  tapi_job_kill = λ j signum w. (ok tt, w);
  tapi_job_stop = λ j ms w. (ok tt, w);
  check_status = λ status. ok tt;
  ring = λ text w. w;
}

abbrev live : ℕ → ℕ
live w = w

counted : IsJobCount te cfg jobs lib live
counted = record {
  append_keeps = λ s t w. refl;
  get_keeps = λ oid w. refl;
  sync_keeps = λ oid w. refl;
  alloc_keeps = λ w. refl;
  build_keeps = λ bin binds w. refl;
  job_made = λ f args re w. refl;
  job_destroyed = λ j ms w. refl;
  attach_keeps = λ c name w. refl;
  regexp_keeps = λ f re w. refl;
}

abbrev c : CompilebenchOpts
c = record {
  buf_size = none;
  initial_dirs = some 10;
  runs = none;
  makej = true;
  working_dir = some (codes "/mnt");
  sources_dir = none;
}

abbrev d : DbenchOpts
d = record {
  client_txt_location = none;
  runtime = some 60;
  working_dir = none;
  numclients = some 4;
}

abbrev f : FsmarkOpts
f = record { numfiles = some 5; file_size = none; working_dir = some (codes "/mnt") }

abbrev i : IozoneOpts
i = record { sync_writes = true; record_size = none; file_size = none; file_under_test = none }

-- The application is there, though creating it fails.
dbench :
    tsapi_dbench_create te cfg jobs lib d 7 (none, 3)
    ≡ (err enoent, (some (record { job = 3; out = 0; results_filter = some 0 }), 4))
unfolding tsapi_dbench_create make_app create_common add_results_filter get_client_txt_location
    dbench_binds
dbench = refl

tools-balance_example :
    (live (destroyed te cfg jobs lib (tsapi_compilebench_create te cfg jobs lib c 7) 3) ≡ live 3)
    × (live (destroyed te cfg jobs lib (tsapi_dbench_create te cfg jobs lib d 7) 3) ≡ live 3)
    × (live (destroyed te cfg jobs lib (tsapi_fsmark_create te cfg jobs lib f 7) 3) ≡ live 3)
    × (live (
          destroyed te cfg jobs lib
            (tsapi_iozone_create te cfg jobs lib i (some (codes "/mnt")) 7)
            3)
        ≡ live 3)
tools-balance_example = tools-balance te cfg jobs lib live counted c d f i (some (codes "/mnt")) 7 3
