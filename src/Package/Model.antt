-- ===== src/Package/Model.antt =====
-- Concrete instances of what the tests of the packages call, for every type of states.
use cns_virtblk_ts.Base.{ℕ, ◌+◌, ◌-◌, true, false, ◌||◌, none, some, [], ◌∷◌, ◌++◌}
use cns_virtblk_ts.Base.Text.{codes, strcmp}
use cns_virtblk_ts.Base.Exec.{ok, err, efail}
use cns_virtblk_ts.Te.{TeLib}
use cns_virtblk_ts.Backend.{CfgLib}
use cns_virtblk_ts.Backend.Inventory.{ServerLib}
use cns_virtblk_ts.Virtio.{PciLib}
use cns_virtblk_ts.Fio.{FioLib}
use cns_virtblk_ts.Fio.Options.{FioOpts, ParamLib}
use cns_virtblk_ts.Package.{TestLib}
use cns_virtblk_ts.Package.Owned.{held}

-- A parameter without a suffix is there when it is "name" or "size".
abbrev pub params : ParamLib
params = record {
  test_find_param = λ s. strcmp s (codes "name") || strcmp s (codes "size");
  test_get_uint_param = λ s. ok 4096;
  test_get_int_param = λ s. ok 10;
  test_get_string_param = λ s. ok s;
  test_get_fio_numjobs_param = λ s. ok 2;
  get_ioengine_param = λ s. ok 1;
  get_rwtype_param = λ s. ok 3;
}

abbrev pub defaults : FioOpts
defaults = record {
  filename = none;
  direct = false;
  rand_gen = none;
  blocksize = 512;
  ioengine = 0;
  rwtype = 0;
  runtime_sec = 0;
  iodepth = 1;
  numjobs = 1;
  rwmixread = 50;
  name = some (codes "default.fio");
  user = none;
  rbdname = none;
  pool = none;
  size = none;
}

module _ {W : Type 0} where
  abbrev pub te : TeLib W
  te = record {
    te_string_append = λ s t w. (ok tt, s ++ t, w);
    te_vec_append = λ w. (ok tt, w);
    strdup = λ w. (true, w);
    after_block = λ w. [];
    after_arg = λ arg w. [];
    te_string_cut = λ s n. s;
    strcmp_start = λ p s. false;
    te_str_strip_spaces = λ s. s;
    getenv = λ v. none;
    rcf_ta_get_file = λ ta remote local w. (err efail, w);
    fopen_read = λ p w. (err efail, w);
    fopen_write = λ p w. (err efail, w);
    fwrite = λ p t w. (err efail, w);
    rpc_open = λ p w. (none, w);
    rpc_write_and_close = λ fd t w. (0, w);
    rpc_errno = λ w. ok tt;
  }

  abbrev pub pci : PciLib W
  pci = record {
    tapi_cfg_pci_devices_by_vendor_device =
        λ ta vendor device w. (ok (codes "0000:02:00.0" ∷ []), w);
    tapi_cfg_pci_get_devices = λ dev w. (ok (codes "vda" ∷ codes "vdb" ∷ []), w);
    tapi_cfg_pci_bind_driver = λ dev driver w. (ok tt, w);
    rpc_system = λ s w. (0, w);
    rpc_mkdirp = λ s w. (true, w);
    rpc_remove_dir_with_files = λ s w. (true, w);
    rpc_errno = λ w. ok tt;
  }

  abbrev pub fios : FioLib W
  fios = record {
    rounded = λ n. 0;
    timeout_default = 120;
    tapi_fio_wait = λ t w. (ok tt, w);
    rcf_rpc_server_create_process = λ n w. (err efail, w);
    rcf_rpc_server_destroy = λ r w. (ok tt, w);
    tapi_job_factory_rpc_create = λ r w. (err efail, w);
    tapi_job_factory_destroy = λ f w. w;
    decimal = λ n. [];
  }

  abbrev pub cfg : CfgLib W
  cfg = record {
    cfg_find_pattern = λ p w. (err efail, w);
    no_instance = λ w. 0;
    cfg_get_inst_name = λ i n w. (ok (codes "malloc"), w);
    cfg_get_instance = λ i w. (ok (codes "none"), w);
    cfg_get_instance_fmt = λ p w. (ok (codes "none"), w);
    cfg_add_instance_fmt = λ p v w. (ok tt, w);
    te_kvpair_add = λ ps n v w. (ok ((n, v) ∷ ps), w);
    te_strtoi = λ s w. (err efail, w);
    decimal = λ n. [];
    null_text = codes "(null)";
  }

  abbrev pub server : ServerLib W
  server = record {
    te_expand_kvpairs = λ s params w. (ok s, w);
    before_block = λ w. 0;
    te_string_append_format = λ s format w. (ok tt, s ++ format, w);
    ferror = λ w. (ok tt, w);
    agent_dir = λ ta. codes "/agt";
    set_timeout = λ n w. w;
    rpc_system_ex = λ s w. (0, w);
    ipstr = [];
    double_quotient = λ a b. 0;
    trap = λ w. (err efail, w);
  }

  -- What making and destroying do with the state is given.
  abbrev pub test_lib : (W → W) → (ℕ → W → W) → TestLib W
  test_lib grow shrink = record {
    test_get_rpcs = λ ta w. (ok tt, w);
    tapi_job_factory_rpc_create = λ ta w. (ok 5, grow w);
    tapi_job_factory_destroy = λ f w. shrink (held f) w;
    tapi_job_factory_set_path = λ f w. (ok tt, w);
    fio_opts_defaults = defaults;
    tapi_fio_create = λ opts f path w. (some 9, grow w);
    tapi_fio_start = λ a w. (ok tt, w);
    tapi_fio_wait = λ a t w. (ok tt, w);
    tapi_fio_stop = λ a w. (ok tt, w);
    tapi_fio_get_report = λ a w. (ok 3, w);
    tapi_fio_log_report = λ r w. w;
    tapi_fio_destroy = λ a w. shrink (held a) w;
    agent_dir = λ ta. codes "/agt";
    te_motivated_sleep = λ n w. w;
  }

-- The state counts the job factories and the applications that there are.
abbrev pub lib : TestLib ℕ
lib = test_lib (λ w. w + 1) (λ n w. w - n)
