-- ===== src/Ceph/Tests.antt =====
-- Runs of the Ceph code, and its theorems at concrete inputs.
use cns_virtblk_ts.Base.{
  ℕ, ◌+◌, ◌-◌, ◌≡◌, refl, true, false, none, some, List, [], ◌∷◌, ◌++◌, if◌then◌else◌,
}
use cns_virtblk_ts.Base.Text.{Bytes, codes}
use cns_virtblk_ts.Base.Exec.{ok, err, efail, Exec}
use cns_virtblk_ts.Te.{TeLib}
use cns_virtblk_ts.Te.Model.{Files, files, files-IsDocumented, files-IsPlentiful}
use cns_virtblk_ts.Conf.Write.{tsapi_conf_flush}
use cns_virtblk_ts.Backend.{CfgLib, tsapi_get_backend_param_bool, tsapi_get_backend_param_str}
use cns_virtblk_ts.Ceph.Cluster.{
  base_options, onload_options, plugin_options, log_options, is_yes, ceph_conf,
  block_ts_ceph_cluster_conf_create,
}
use cns_virtblk_ts.Ceph.Options.{when, global, conf_create-options}
use cns_virtblk_ts.Ceph.{
  CephOpts, add_option, add_option_kv, ceph_common_build_command, add_osd, add_fsid,
  ceph_build_command,
}
use cns_virtblk_ts.Ceph.Jobs.{JobLib, no_common, exited, ceph_generic_desc_init}
use cns_virtblk_ts.Ceph.Live.{IsCount, succeeded, init-live}

-- The state is the number of job factories.
abbrev counting : TeLib ℕ
counting = record {
  te_string_append = λ s t w. (ok tt, s ++ t, w);
  te_vec_append = λ w. (ok tt, w);
  strdup = λ w. (true, w);
  after_block = λ w. [];
  after_arg = λ arg w. [];
  te_string_cut = λ s n. s;
  strcmp_start = λ p s. false;
  te_str_strip_spaces = λ s. s;
  getenv = λ v. none;
  rcf_ta_get_file = λ ta remote local w. (err efail, w);
  fopen_read = λ p w. (err efail, w);
  fopen_write = λ p w. (err efail, w);
  fwrite = λ p t w. (err efail, w);
  rpc_open = λ p w. (none, w);
  rpc_write_and_close = λ fd t w. (0, w);
  rpc_errno = λ w. err efail;
}

-- No job can be made.
abbrev jobs : JobLib ℕ
jobs = record {
  tapi_job_factory_rpc_create = λ w. (ok w, w + 1);
  tapi_job_factory_destroy = λ f w. elim f [ some _ ↦ w - 1 | none ↦ w ];
  tapi_job_simple_create = λ f argv w. (err efail, w);
  tapi_job_start = λ j w. (ok tt, w);
  tapi_job_wait = λ j ms w. (ok (record { type = exited; value = 0 }), w);
  tapi_job_destroy = λ j ms w. (ok tt, w);
  tapi_job_attach_filter = λ c name w. (ok 0, w);
  tapi_job_filter_add_regexp = λ f re w. (ok tt, w);
  tapi_job_receive = λ f ms w. (ok (false, codes "fsid"), w);
}

abbrev same : ℕ → ℕ
same n = n

jobs-IsCount : IsCount counting jobs same
jobs-IsCount = record {
  created = λ w. refl;
  destroyed = λ f w. refl;
  vec_keeps = λ w. refl;
  job_keeps = λ f argv w. refl;
}

abbrev fsid_opts : CephOpts
fsid_opts = record {
  common_opts = record {
    config = some (codes "ceph.conf");
    monmap = none;
    id = none;
    mkfs = false;
  };
  osd_subcommand = some true;
  fsid_subcommand = none;
  status = false;
}

ceph_command :
    (ceph_build_command counting fsid_opts (codes "ceph" ∷ []) 0).0
    ≡ ok (codes "ceph" ∷ codes "--conf" ∷ codes "ceph.conf" ∷ codes "osd" ∷ codes "create" ∷ [])
unfolding ceph_build_command ceph_common_build_command add_osd add_fsid add_option add_option_kv
ceph_command = refl

abbrev no_options : List Bytes → Exec ℕ (List Bytes)
no_options argv w = (ok argv, w)

init-live_example :
    (ceph_generic_desc_init counting jobs (codes "ceph") no_options (no_common, 4)).1.1 ≡ (
      if succeeded (ceph_generic_desc_init counting jobs (codes "ceph") no_options (no_common, 4)).0
      then 5
      else 4)
init-live_example =
    init-live counting jobs same jobs-IsCount (codes "ceph") no_options no_common 4 (λ argv w. refl)

-- Every setting is "yes".
abbrev settings : CfgLib Files
settings = record {
  cfg_find_pattern = λ p w. (ok [], w);
  no_instance = λ w. 0;
  cfg_get_inst_name = λ i n w. (err efail, w);
  cfg_get_instance = λ i w. (err efail, w);
  cfg_get_instance_fmt = λ p w. (ok (codes "yes"), w);
  cfg_add_instance_fmt = λ p v w. (ok tt, w);
  te_kvpair_add = λ ps n v w. (ok ps, w);
  te_strtoi = λ s w. (ok 100, w);
  decimal = λ n. codes "24";
  null_text = codes "(null)";
}

logging_on :
    (w : Files)
    → (w' : Files) × (tsapi_get_backend_param_bool settings
          (codes "ceph")
          (codes "enable_logging")
          w
        ≡ (ok (is_yes (codes "yes")), w'))
unfolding tsapi_get_backend_param_bool tsapi_get_backend_param_str
logging_on w = (w, refl)

conf_create-options_example :
    (w' : Files) × (block_ts_ceph_cluster_conf_create files settings
        (codes "10.0.0.0")
        (codes "10.0.0.1")
        24
        []
      ≡ tsapi_conf_flush files
          (global (
            (base_options (codes "10.0.0.0/24") (codes "10.0.0.1:24/0")
              ++ when
                  (is_yes (codes "yes"))
                  (onload_options ++ when (is_yes (codes "yes")) plugin_options))
            ++ when (is_yes (codes "yes")) log_options))
          ceph_conf
          w')
conf_create-options_example =
    conf_create-options files settings files-IsDocumented files-IsPlentiful (codes "yes")
      (codes "yes") (codes "yes") (λ w. (w, refl)) (λ w. (w, refl)) logging_on (codes "10.0.0.0")
      (codes "10.0.0.1") 24 []
