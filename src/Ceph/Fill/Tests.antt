-- ===== src/Ceph/Fill/Tests.antt =====
-- Filling two devices, where only one factory can be made.
use cns_virtblk_ts.Base.{ℕ, zero, suc, ◌+◌, ◌≡◌, refl, true, false, none, some, [], ◌∷◌, ◌++◌}
use cns_virtblk_ts.Base.Text.{codes}
use cns_virtblk_ts.Base.Exec.{ok, err, efail, enomem}
use cns_virtblk_ts.Te.{TeLib}
use cns_virtblk_ts.Backend.{CfgLib}
use cns_virtblk_ts.Ceph.Jobs.{JobLib}
use cns_virtblk_ts.Ceph.Fill.{
  FillLib, tsapi_fio_create, tsapi_ceph_fill_devices, fill_devices-twice,
}
use cns_virtblk_ts.Fio.{FioLib}
use cns_virtblk_ts.Virtio.{
  PciLib, tsapi_get_virtio_blocks, append_names, append_devices, tsapi_get_devices,
}

-- The state counts what is made and destroyed.
abbrev te : TeLib ℕ
te = record {
  te_string_append = λ s t w. (ok tt, s ++ t, w);
  te_vec_append = λ w. (ok tt, w);
  strdup = λ w. (true, w);
  after_block = λ w. [];
  after_arg = λ arg w. [];
  te_string_cut = λ s n. s;
  strcmp_start = λ p s. false;
  te_str_strip_spaces = λ s. s;
  getenv = λ v. none;
  rcf_ta_get_file = λ ta remote local w. (err efail, w);
  fopen_read = λ p w. (err efail, w);
  fopen_write = λ p w. (err efail, w);
  fwrite = λ p t w. (err efail, w);
  rpc_open = λ p w. (none, w);
  rpc_write_and_close = λ fd t w. (0, w);
  rpc_errno = λ w. ok tt;
}

abbrev cfg : CfgLib ℕ
cfg = record {
  cfg_find_pattern = λ p w. (err efail, w);
  no_instance = λ w. 0;
  cfg_get_inst_name = λ i n w. (err efail, w);
  cfg_get_instance = λ i w. (err efail, w);
  cfg_get_instance_fmt = λ p w. (err efail, w);
  cfg_add_instance_fmt = λ p v w. (err efail, w);
  te_kvpair_add = λ ps n v w. (err efail, w);
  te_strtoi = λ s w. (err efail, w);
  decimal = λ n. [];
  null_text = codes "(null)";
}

abbrev pci : PciLib ℕ
pci = record {
  tapi_cfg_pci_devices_by_vendor_device = λ ta vendor device w. (ok (codes "0000:02:00.0" ∷ []), w);
  tapi_cfg_pci_get_devices = λ dev w. (ok (codes "vda" ∷ codes "vdb" ∷ []), w);
  tapi_cfg_pci_bind_driver = λ dev driver w. (ok tt, w);
  rpc_system = λ s w. (0, w);
  rpc_mkdirp = λ s w. (true, w);
  rpc_remove_dir_with_files = λ s w. (true, w);
  rpc_errno = λ w. ok tt;
}

abbrev jobs : JobLib ℕ
jobs = record {
  tapi_job_factory_rpc_create = λ w. elim w [ zero ↦ (ok 5, 1) | suc n ↦ (err enomem, suc n) ];
  tapi_job_factory_destroy = λ f w. w + 1;
  tapi_job_simple_create = λ f argv w. (err efail, w);
  tapi_job_start = λ j w. (ok tt, w);
  tapi_job_wait = λ j ms w. (err efail, w);
  tapi_job_destroy = λ j ms w. (ok tt, w);
  tapi_job_attach_filter = λ c name w. (ok 0, w);
  tapi_job_filter_add_regexp = λ f re w. (ok tt, w);
  tapi_job_receive = λ f ms w. (err efail, w);
}

abbrev fios : FioLib ℕ
fios = record {
  rounded = λ n. 0;
  timeout_default = 120;
  tapi_fio_wait = λ t w. (ok tt, w);
  rcf_rpc_server_create_process = λ n w. (err efail, w);
  rcf_rpc_server_destroy = λ r w. (ok tt, w);
  tapi_job_factory_rpc_create = λ r w. (err efail, w);
  tapi_job_factory_destroy = λ f w. w;
  decimal = λ n. [];
}

abbrev lib : FillLib ℕ
lib = record {
  tapi_fio_create = λ opts f path w. (some 9, w + 1);
  tapi_fio_start = λ a w. (ok tt, w);
  tapi_fio_wait = λ a t w. (ok tt, w);
  tapi_fio_stop = λ a w. (ok tt, w);
  tapi_fio_destroy = λ a w. w + 1;
  agent_dir = λ ta. codes "/agt";
}

two-found :
    tsapi_get_devices te cfg pci (codes "Agt_host") 0
    ≡ (ok (codes "/dev/vda" ∷ codes "/dev/vdb" ∷ [], 2), 0)
unfolding tsapi_get_devices tsapi_get_virtio_blocks append_devices append_names
two-found = refl

fill_devices-twice_example :
    tsapi_ceph_fill_devices te cfg pci jobs fios lib (codes "Agt_host") (codes "1G") 0
    ≡ (err enomem, 6)
fill_devices-twice_example =
    fill_devices-twice te cfg pci jobs fios lib (codes "Agt_host") (codes "1G") (codes "/dev/vda")
      (codes "/dev/vdb") [] 2 5 9 enomem 0 0 1 2 2 2 2 4 two-found refl
      (unfold tsapi_fio_create in refl) refl refl refl refl
