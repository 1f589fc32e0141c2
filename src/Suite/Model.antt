-- ===== src/Suite/Model.antt =====
-- A concrete instance of all the libraries, to run the prologue on: the files are those of Te/Model, and
-- the processes that have been started stand among them.
use cns_virtblk_ts.Base.{Bool, true, false, ◌||◌, none, some, [], ◌∷◌, ◌++◌}
use cns_virtblk_ts.Base.Text.{Bytes, codes, strcmp}
use cns_virtblk_ts.Base.Exec.{ok, err, efail}
use cns_virtblk_ts.Te.Model.{Files, files}
use cns_virtblk_ts.Plugin.{PsLib}
use cns_virtblk_ts.Backend.{CfgLib}
use cns_virtblk_ts.Backend.Inventory.{ServerLib}
use cns_virtblk_ts.Ceph.Jobs.{JobLib}
use cns_virtblk_ts.Ceph.Daemons.{DaemonLib}
use cns_virtblk_ts.BlkProxy.{ProxyLib}
use cns_virtblk_ts.BlkProxy.Process.{LaunchLib}
use cns_virtblk_ts.Virtio.{PciLib}
use cns_virtblk_ts.Suite.{SuiteLib, Libs, Net}

-- Storage in memory, and every other setting is "none".
abbrev pub cfg : CfgLib Files
cfg = record {
  cfg_find_pattern = λ p w. (ok (7 ∷ []), w);
  no_instance = λ w. 0;
  cfg_get_inst_name = λ i n w. (ok (codes "malloc"), w);
  cfg_get_instance = λ i w. (ok (codes "none"), w);
  cfg_get_instance_fmt = λ p w. (ok (codes "none"), w);
  cfg_add_instance_fmt = λ p v w. (ok tt, w);
  te_kvpair_add = λ ps n v w. (ok ((n, v) ∷ ps), w);
  te_strtoi = λ s w. (err efail, w);
  decimal = λ n. [];
  null_text = codes "(null)";
}

abbrev pub server : ServerLib Files
server = record {
  te_expand_kvpairs = λ s params w. (ok s, w);
  before_block = λ w. 0;
  te_string_append_format = λ s format w. (ok tt, s ++ format, w);
  ferror = λ w. (ok tt, w);
  agent_dir = λ ta. codes "/agt";
  set_timeout = λ n w. w;
  rpc_system_ex = λ s w. (0, w);
  ipstr = [];
  double_quotient = λ a b. 0;
  trap = λ w. (err efail, w);
}

-- The processes that have been started stand among the files.
abbrev pub has : Bytes → Files → Bool
has name [] = false
has name ((k, v) ∷ fs) = strcmp name k || has name fs

abbrev pub ps : PsLib Files
ps = record {
  tapi_cfg_ps_add = λ ta name tool w. (ok tt, w);
  tapi_cfg_ps_add_arg = λ ta name i a w. (ok tt, w);
  tapi_cfg_ps_start = λ ta name w. (ok tt, (name, ta) ∷ w);
  te_motivated_sleep = λ n w. w;
}

abbrev pub launch : LaunchLib Files
launch = record {
  tapi_job_opt_build_args = λ path binds w. (ok (some path ∷ none ∷ []), w);
  te_vec_append_vec = λ w. (ok tt, w);
  out_of_range = λ w. (err efail, w);
  tapi_cfg_get_all_threads = λ ta w. (ok 8, w);
  cfg_get_inst_name = λ h w. (ok (codes "EF_POLL_USEC"), w);
  cfg_del_instance_fmt = λ p w. (ok tt, w);
  rcf_ta_name2type = λ ta w. (ok (codes "linux"), w);
  te_alloc = λ w. (true, w);
  tapi_cfg_ps_add = λ ta name path w. (ok tt, w);
  tapi_cfg_ps_add_env = λ ta name k v w. (ok tt, w);
  tapi_cfg_ps_add_arg = λ ta name n a w. (ok tt, w);
  tapi_cfg_ps_start = λ ta name w. (ok tt, (name, ta) ∷ w);
  tapi_cfg_ps_stop = λ ta name w. (ok tt, w);
  tapi_cfg_ps_get_status = λ ta name w. (ok (has name w), w);
  te_motivated_sleep = λ n w. w;
  rpc_system = λ s w. (0, w);
}

abbrev pub proxy : ProxyLib Files
proxy = record {
  te_string_format = λ s w. (ok s, w);
  te_string_replace_all_substrings = λ s new old w. (ok s, w);
  te_expand_kvpairs = λ s params w. (ok s, w);
  system = λ s w. (false, w);
  rcf_ta_put_file = λ ta local remote w. (ok tt, w);
  ring = λ s w. w;
}

abbrev pub pci : PciLib Files
pci = record {
  tapi_cfg_pci_devices_by_vendor_device = λ ta vendor device w. (ok (codes "0000:02:00.0" ∷ []), w);
  tapi_cfg_pci_get_devices = λ dev w. (ok [], w);
  tapi_cfg_pci_bind_driver = λ dev driver w. (ok tt, w);
  rpc_system = λ s w. (0, w);
  rpc_mkdirp = λ s w. (true, w);
  rpc_remove_dir_with_files = λ s w. (true, w);
  rpc_errno = λ w. ok tt;
}

abbrev pub jobs : JobLib Files
jobs = record {
  tapi_job_factory_rpc_create = λ w. (ok 0, w);
  tapi_job_factory_destroy = λ f w. w;
  tapi_job_simple_create = λ f argv w. (err efail, w);
  tapi_job_start = λ j w. (ok tt, w);
  tapi_job_wait = λ j ms w. (err efail, w);
  tapi_job_destroy = λ j ms w. (ok tt, w);
  tapi_job_attach_filter = λ c name w. (ok 0, w);
  tapi_job_filter_add_regexp = λ f re w. (ok tt, w);
  tapi_job_receive = λ f ms w. (err efail, w);
}

abbrev pub daemon : DaemonLib Files
daemon = record {
  rpc_mkdirp = λ s w. (true, w);
  rpc_setenv = λ k v w. (true, w);
  rpc_errno = λ w. ok tt;
  rpc_system = λ s w. (0, w);
  tapi_sh_env_ta_path_append = λ ta p w. (ok tt, w);
  tapi_job_factory_set_path = λ f w. (ok tt, w);
  te_bool_of_pointer = λ n w. true;
}

abbrev pub suite : SuiteLib Files
suite = record {
  tapi_network_setup = λ w. (ok tt, w);
  test_start_env = λ w. (ok tt, w);
  tapi_cfg_module_add = λ ta name w. (ok tt, w);
  tapi_cfg_module_unload = λ ta name w. (ok tt, w);
  bind_driver_by_vend_dev_inst = λ ta vendor dev inst driver w. (ok tt, w);
  unbind_driver_by_vend_dev_inst = λ ta vendor dev inst w. (ok tt, w);
  cfg_set_instance_fmt = λ oid v w. (ok tt, w);
  cfg_tree_print = λ w. (ok tt, w);
  uninitialised_status = λ w. true;
}

abbrev pub libs : Libs Files
libs = record {
  te = files;
  cfg = cfg;
  server = server;
  ps = ps;
  launch = launch;
  proxy = proxy;
  pci = pci;
  jobs = jobs;
  daemon = daemon;
  suite = suite;
}

abbrev pub net : Net
net = record {
  ip4addr = codes "10.0.0.0";
  ip4pfx = 24;
  srv_addr = codes "10.0.0.1";
  clt_addr = codes "10.0.0.2";
  clt_if = codes "eth0";
}
