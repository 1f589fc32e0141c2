-- ===== src/BlkProxy/Create.antt =====
-- block-ts/lib/tsapi-blkproxy.c: tsapi_blkproxy_create_conf(), from the command line to the files on
-- the agent.
use cns_virtblk_ts.Base.{Bool, true, false, not, List, [], ◌∷◌, ◌++◌, if◌then◌else◌}
use cns_virtblk_ts.Base.Text.{Bytes, codes}
use cns_virtblk_ts.Base.Exec.{Result, ok, err, einval, Status, Exec, pure, ◌>>=◌, ◌>>◌}
use cns_virtblk_ts.Te.{TeLib}
use cns_virtblk_ts.Conf.Parse.{tsapi_conf_opts_read}
use cns_virtblk_ts.Conf.Read.{fgets_lines}
use cns_virtblk_ts.Conf.Write.{tsapi_conf_flush_local}
use cns_virtblk_ts.Backend.{CfgLib, percent_s, tsapi_backend_mode2str, tsapi_backend_get_mode}
use cns_virtblk_ts.Backend.Inventory.{ServerLib, tsapi_inventory_local_to_kv_pair}
use cns_virtblk_ts.BlkProxy.{
  Handle, Params, ProxyLib, get_local_config_name, get_agent_config_name, build_conf,
}

module _ {W : Type 0} (te : TeLib W) (cfg : CfgLib W) (server : ServerLib W) (lib : ProxyLib W)
    (h : Handle) where
  open te use {te_string_append, fopen_read}
  open lib use {system, rcf_ta_put_file, ring}

  abbrev run_convert : Status × Bytes × W → Status × W
  run_convert (err e, cmd, w) = (err e, w)
  run_convert (ok _, cmd, w) =
      let (failed, w') = system cmd w in (if failed then err einval else ok tt, w')

  abbrev config_base : Bytes
  config_base = h.config_local_dir ++ b'/' ∷ h.config_name

  -- `convert` is TSAPI_BLKPROXY_CONFIG_CONVERT_NAME.
  unfoldable pub create_blkproxy_json_config : Bytes → Exec W Unit
  create_blkproxy_json_config convert w = run_convert (
      te_string_append []
        (h.config_local_dir
          ++ b'/' ∷ convert
          ++ codes " < "
          ++ config_base
          ++ codes ".conf > "
          ++ config_base
          ++ codes ".json")
        w)

  unfoldable pub copy_config_to_agent : Bool → Exec W Unit
  copy_config_to_agent json_config =
      rcf_ta_put_file h.ta (get_local_config_name h json_config)
        (get_agent_config_name h json_config)

  unfoldable pub copy_configs_to_agent : Exec W Unit
  copy_configs_to_agent = copy_config_to_agent true >> copy_config_to_agent false

  -- The loop over the strings of fgets().
  unfoldable pub append_all : List Bytes → Bytes → Exec W Bytes
  append_all [] config w = (ok config, w)
  append_all (line ∷ lines) config w =
      let (r, config', w') = te_string_append config line w in
      let rest = append_all lines config' w' in elim r [ ok _ ↦ rest | err e ↦ (err e, w') ]

  unfoldable pub print_blkproxy_conf : Exec W Unit
  print_blkproxy_conf = do
    text ← fopen_read (get_local_config_name h (not h.is_old_spdk))
    config ← append_all (fgets_lines 256 255 [] text) []
    (λ w. (ok tt, ring (codes "Blk-proxy config:\n" ++ config) w))

  -- The status is not looked at, and a failure leaves the list empty.
  abbrev params_or_none : Result Params × W → Result Params × W
  params_or_none (ok params, w) = (ok params, w)
  params_or_none (err e, w) = (ok [], w)

  unfoldable pub inventory_params : Exec W Params
  inventory_params w =
      let (mode, w') = tsapi_backend_get_mode cfg w in
      params_or_none (
        tsapi_inventory_local_to_kv_pair te cfg server (percent_s cfg (tsapi_backend_mode2str mode))
          [] w')

  -- A failure to print the configuration is only warned of.
  abbrev warned : Exec W Unit → Exec W Unit
  warned m w = let (_, w') = m w in (ok tt, w')

  unfoldable pub tsapi_blkproxy_create_conf : Bytes → List Bytes → Exec W Unit
  tsapi_blkproxy_create_conf convert argv = do
    vec ← tsapi_conf_opts_read te argv (codes "bp") []
    params ← inventory_params
    conf ← build_conf te lib params vec []
    tsapi_conf_flush_local te conf (get_local_config_name h false)
    if h.is_old_spdk then pure tt else create_blkproxy_json_config convert
    warned print_blkproxy_conf
    copy_configs_to_agent
