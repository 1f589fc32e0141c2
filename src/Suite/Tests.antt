-- ===== src/Suite/Tests.antt =====
-- A run of the prologue, and its theorem at a concrete input.
use cns_virtblk_ts.Base.{ℕ, ◌≡◌, refl, ap, sym, Bool, true, false, none, some, List, [], ◌∷◌}
use cns_virtblk_ts.Base.Text.{Bytes, codes, strcmp, has_prefix, strstr}
use cns_virtblk_ts.Base.Exec.{Result, ok}
use cns_virtblk_ts.Te.Model.{Files, files}
use cns_virtblk_ts.Backend.{
  BackendType, Callbacks, malloc, no_callbacks, backend_callbacks, find_type,
  tsapi_backend_mode2str, tsapi_backend_get_type, tsapi_backend_get_mode, tsapi_backend_need_env,
}
use cns_virtblk_ts.Backend.Inventory.{tsapi_inventory_local_to_kv_pair, add_instances}
use cns_virtblk_ts.BlkProxy.{Handle, build_conf, build_step}
use cns_virtblk_ts.BlkProxy.Process.{
  tsapi_blkproxy_handle_init, build_config_agent_dir, build_config_local_dir, is_old_spdk,
  tsapi_blkproxy_init, set_cpu_mask, mask_for, build_blkproxy_args, onload_args,
  tsapi_blkproxy_get_logflags, build_blkproxy_env, build_blk_proxy_onload_env, add_envs,
  add_process, add_env_list, add_arg_list,
}
use cns_virtblk_ts.BlkProxy.Running.{IsStatus}
use cns_virtblk_ts.Virtio.{
  device_id, bind_all, tsapi_virtio_blocks_bind_driver, tsapi_get_virtio_blocks,
  tsapi_virtio_blocks_count,
}
use cns_virtblk_ts.Suite.{arm_ta, host_ta, uart_ta}
use cns_virtblk_ts.Ceph.Cluster.{tsapi_use_plugin, tsapi_use_onload}
use cns_virtblk_ts.BlkProxy.Create.{
  tsapi_blkproxy_create_conf, inventory_params, create_blkproxy_json_config, append_all,
  copy_config_to_agent, copy_configs_to_agent, print_blkproxy_conf,
}
use cns_virtblk_ts.BlkProxy.Lifecycle.{tsapi_blkproxy_start, tsapi_blkproxy_kill_orphaned_stacks}
use cns_virtblk_ts.Conf.{flush_conf_to_str, flush_sections}
use cns_virtblk_ts.Conf.Write.{tsapi_conf_flush_local}
use cns_virtblk_ts.Te.Files.{tsapi_put_str_to_local_file}
use cns_virtblk_ts.Conf.Parse.{
  tsapi_conf_opts_read, opts_read_loop, nonempty, tsapi_conf_parse_string, extract_section_name,
  extract_key_value,
}
use cns_virtblk_ts.Suite.Prologue.{
  setup_env, known_backend, start_uart_logger, init_proxy, tsapi_sh_env_ta_path_prepend,
  start_tools, prepare_backend, start_proxy, bind_host, prologue,
}
use cns_virtblk_ts.Suite.Runs.{prologue-runs}
use cns_virtblk_ts.Suite.Model.{cfg, server, has, launch, proxy, pci, libs, net}

abbrev argv : List Bytes
argv = codes "prologue" ∷ codes "bp.Rpc-Dev=none" ∷ []

abbrev runs : Bytes → Bytes → Files → Bool
runs ta name w = has name w

launch-IsStatus : IsStatus launch runs
launch-IsStatus = record {
  status_lem =
      λ ta name b w w' h. (sym (ok-eq (has name w) b (ap (λ r. r.0) h)), sym (ap (λ r. r.1) h));
}
  where
    ok-eq : {A : Type 0} (a b : A) → ◌≡◌ {A = Result A} (ok a) (ok b) → a ≡ b
    ok-eq a b h = cc

abbrev with_logger : Files
with_logger = (codes "xilinxtool", uart_ta) ∷ []

abbrev handle : Handle
handle = record {
  ta = arm_ta;
  ps_name = codes "blk-proxy";
  config_name = codes "bp_map";
  config_local_dir = codes "/tmp/agents/linux/";
  config_agent_dir = codes "none";
  is_old_spdk = false;
}

environment : setup_env libs [] ≡ (ok tt, [])
unfolding setup_env tsapi_backend_need_env tsapi_backend_get_mode strcmp
environment = refl

backend : known_backend libs [] ≡ (ok (malloc, no_callbacks), [])
unfolding known_backend tsapi_backend_get_type tsapi_backend_get_mode find_type backend_callbacks
    strcmp tsapi_backend_mode2str
backend = refl

tools : start_tools libs net [] ≡ (ok tt, with_logger)
unfolding start_tools start_uart_logger tsapi_use_plugin strcmp
tools = refl

devices : tsapi_virtio_blocks_count files cfg pci host_ta with_logger ≡ (ok 1, with_logger)
unfolding tsapi_virtio_blocks_count tsapi_get_virtio_blocks device_id
devices = refl

prepared : prepare_backend libs net malloc no_callbacks 1 with_logger ≡ (ok tt, with_logger)
unfolding prepare_backend
prepared = refl

proxy_handle :
    tsapi_blkproxy_handle_init files cfg server launch (some arm_ta) none none with_logger
    ≡ (ok handle, with_logger)
unfolding tsapi_blkproxy_handle_init build_config_agent_dir build_config_local_dir is_old_spdk
    strcmp
proxy_handle = refl

proxy_config :
    (tsapi_blkproxy_create_conf files cfg server proxy handle
      (codes "config_converter.py")
      argv
      with_logger).0
    ≡ ok tt
unfolding tsapi_blkproxy_create_conf tsapi_conf_opts_read opts_read_loop nonempty has_prefix
    inventory_params tsapi_inventory_local_to_kv_pair add_instances build_conf
    tsapi_conf_parse_string extract_section_name strstr extract_key_value build_step strcmp
    tsapi_conf_flush_local flush_conf_to_str flush_sections tsapi_put_str_to_local_file
    create_blkproxy_json_config tsapi_backend_get_mode tsapi_backend_mode2str append_all
    copy_config_to_agent copy_configs_to_agent print_blkproxy_conf
proxy_config = refl

proxy_init : (w : Files) → init_proxy libs handle w ≡ (ok tt, w)
unfolding init_proxy tsapi_blkproxy_init set_cpu_mask mask_for build_blkproxy_args tsapi_use_onload
    strcmp onload_args tsapi_blkproxy_get_logflags build_blkproxy_env build_blk_proxy_onload_env
    add_envs add_process add_env_list add_arg_list
proxy_init w = refl

proxy_start :
    (w : Files)
    → tsapi_blkproxy_start files cfg launch handle w ≡ (ok tt, (codes "blk-proxy", arm_ta) ∷ w)
unfolding tsapi_blkproxy_start tsapi_blkproxy_kill_orphaned_stacks tsapi_use_onload strcmp
proxy_start w = refl

abbrev configured : Files
configured =
    (tsapi_blkproxy_create_conf files cfg server proxy handle (codes "config_converter.py") argv
      with_logger).1

abbrev running : Files
running = (codes "blk-proxy", arm_ta) ∷ configured

proxy_started : start_proxy libs argv with_logger ≡ (ok handle, running)
unfolding start_proxy
proxy_started =
    rw proxy_handle
      (rw proxy_config (rw (proxy_init configured) (rw (proxy_start configured) refl)))

host_bound : (w : Files) → bind_host libs w ≡ (ok tt, w)
unfolding bind_host tsapi_sh_env_ta_path_prepend tsapi_virtio_blocks_bind_driver
    tsapi_get_virtio_blocks device_id bind_all strcmp
host_bound w = refl

succeeded : (prologue libs net argv []).0 ≡ ok tt
unfolding prologue
succeeded = rw environment (
    rw backend
      (rw tools (rw devices (rw prepared (rw proxy_started (rw (host_bound running) refl))))))

prologue-runs_example :
    (type : BackendType) × (row : Callbacks) × (n : ℕ) × (h : Handle) × (w1 w2 w3 w4 w5 w6 : Files)
    × (setup_env libs [] ≡ (ok tt, w1))
    × (tsapi_backend_get_type cfg w1 ≡ (type, w2))
    × (backend_callbacks type ≡ some row)
    × (start_tools libs net w2 ≡ (ok tt, w3))
    × (tsapi_virtio_blocks_count files cfg pci host_ta w3 ≡ (ok n, w4))
    × (prepare_backend libs net type row n w4 ≡ (ok tt, w5))
    × (start_proxy libs argv w5 ≡ (ok h, w6))
    × (runs arm_ta (codes "blk-proxy") w6 ≡ true)
    × (prologue libs net argv [] ≡ bind_host libs w6)
prologue-runs_example = prologue-runs libs runs launch-IsStatus net argv [] succeeded
