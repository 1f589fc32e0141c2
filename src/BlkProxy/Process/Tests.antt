-- ===== src/BlkProxy/Process/Tests.antt =====
-- A run of the blk-proxy process, and the theorems on it at concrete inputs.
use cns_virtblk_ts.Base.{
  ℕ, ◌-◌, ◌≡◌, refl, ◌⊎◌, true, false, Option, none, some, List, [], ◌∷◌, ◌++◌, map, arith,
  if◌then◌else◌,
}
use cns_virtblk_ts.Base.Text.{Bytes, codes, strcmp, tokens_by}
use cns_virtblk_ts.Base.Exec.{Result, ok, err, efail}
use cns_virtblk_ts.Ceph.Cluster.{tsapi_use_onload}
use cns_virtblk_ts.BlkProxy.{Handle, Params, get_agent_config_name}
use cns_virtblk_ts.BlkProxy.Masks.{ReportLib, count_bits_in_mask}
use cns_virtblk_ts.BlkProxy.Process.{
  Opts, mask_for, mask_for_8_cpu, set_cpu_mask, onload_args, tsapi_get_onload_path,
  build_blkproxy_args, add_envs, build_blk_proxy_onload_env, build_blkproxy_env, add_logflags,
  create_optional_logflags, blkproxy_binds, is_old_spdk, tsapi_blkproxy_bin, add_env_list,
  add_arg_list, add_process, tsapi_blkproxy_init,
}
use cns_virtblk_ts.BlkProxy.Reactor.{set_cpu_mask-count}
use cns_virtblk_ts.BlkProxy.Launch.{entries, init-log}
use cns_virtblk_ts.BlkProxy.Arguments.{flag_args, plain_args, config_name, build_args-texts}
use cns_virtblk_ts.BlkProxy.Process.Model.{
  World, te, te-IsPlentiful, cfg, server, decimal, lib, lib-IsOptions, log, lib-IsLog,
}

abbrev handle : Handle
handle = record {
  ta = codes "Agt";
  ps_name = codes "blk-proxy";
  config_name = codes "bp_map";
  config_local_dir = codes "/inst/agents/linux/";
  config_agent_dir = codes "/agt";
  is_old_spdk = false;
}

abbrev start : World
start = ([], false)

-- Two flags.
abbrev opts : Opts
opts = record {
  mem_size = 1200;
  cpu_mask = mask_for_8_cpu;
  config = none;
  pci_whitelist = codes "01:00.1";
  logflags = some (codes "nvme,bdev");
}

use_onload-yes : (w : World) → (tsapi_use_onload te cfg w).0 ≡ ok true
unfolding tsapi_use_onload strcmp
use_onload-yes w = refl

onload_path-yes :
    (w : World) → (tsapi_get_onload_path te cfg server lib w).0 ≡ ok (some (codes "yes"))
unfolding tsapi_get_onload_path
onload_path-yes w = refl

abbrev flags : List Bytes
flags = codes "nvme" ∷ codes "bdev" ∷ []

build_args-texts_example :
    (build_blkproxy_args te cfg server lib handle (opts, start)).0
    ≡ ok (
        (if true then some (codes "yes") ∷ [] else [])
        ++ some (tsapi_blkproxy_bin te cfg server lib handle.ta)
          ∷ (map some (
                plain_args decimal (is_old_spdk te cfg server lib) opts (config_name handle opts)
                ++ flag_args flags)
              ++ none ∷ []))
build_args-texts_example =
    build_args-texts te cfg server lib te-IsPlentiful decimal lib-IsOptions handle opts true
      (codes "yes") flags use_onload-yes (λ e. onload_path-yes) (omega arith) refl start

set_cpu_mask-ok : (set_cpu_mask te cfg server lib (codes "Agt") (opts, start)).0 ≡ ok tt
unfolding set_cpu_mask mask_for
set_cpu_mask-ok = refl

-- The two masks are the only texts that are read.
abbrev report : ReportLib Unit
report = record {
  te_strtoul = λ s. elim s [ [] ↦ err efail | c ∷ t ↦ two_masks t ];
  te_strtol = λ s. err efail;
  te_kvpairs_get = λ ps k. none;
  te_kvpair_add = λ ps k v w. (err efail, w);
  te_mi_logger_add_meas_key = λ k v w. (ok tt, w);
  decimal = λ n. [];
}
  where
    two_masks : Bytes → Result ℕ
    two_masks (x ∷ f ∷ e ∷ []) = ok 0xfe
    two_masks t = ok 0xfffe

set_cpu_mask-count_example :
    (n : ℕ) × ((lib.tapi_cfg_get_all_threads (codes "Agt") start).0 ≡ ok n)
    × ((n ≡ 8) ⊎ (n ≡ 16))
    × (count_bits_in_mask report
          (set_cpu_mask te cfg server lib (codes "Agt") (opts, start)).1.0.cpu_mask
        ≡ ok (some (n - 1)))
set_cpu_mask-count_example =
    set_cpu_mask-count te cfg server lib report (codes "Agt") opts start refl refl set_cpu_mask-ok

init-ok : (tsapi_blkproxy_init te cfg server lib handle (opts, start)).0 ≡ ok tt
unfolding tsapi_blkproxy_init set_cpu_mask mask_for build_blkproxy_args tsapi_use_onload onload_args
    tsapi_get_onload_path blkproxy_binds is_old_spdk create_optional_logflags add_logflags tokens_by
    tsapi_blkproxy_bin get_agent_config_name build_blkproxy_env build_blk_proxy_onload_env add_envs
    add_process add_env_list add_arg_list strcmp
init-ok = refl

init-log_example :
    (path : Option Bytes) × (rest : List (Option Bytes)) × (envs : Params) × (s1 s2 : Opts × World)
    × (w3 : World) × (set_cpu_mask te cfg server lib handle.ta (opts, start) ≡ (ok tt, s1))
    × (build_blkproxy_args te cfg server lib handle s1 ≡ (ok (path ∷ rest), s2))
    × (build_blkproxy_env te cfg server lib [] s2.1 ≡ (ok envs, w3))
    × (log (tsapi_blkproxy_init te cfg server lib handle (opts, start)).1.1
        ≡ log w3 ++ entries handle.ta handle.ps_name path envs rest)
init-log_example = init-log te cfg server lib log lib-IsLog handle opts start init-ok
