-- ===== src/Plugin/Tests.antt =====
-- A run of the plugin code, and its theorem at a concrete input.
use cns_virtblk_ts.Base.{◌≡◌, refl, [], ◌∷◌, ◌++◌}
use cns_virtblk_ts.Base.Text.{codes}
use cns_virtblk_ts.Base.Exec.{ok, err, efail}
use cns_virtblk_ts.Te.Model.{Files, files}
use cns_virtblk_ts.Backend.{CfgLib}
use cns_virtblk_ts.Backend.Inventory.{ServerLib}
use cns_virtblk_ts.Plugin.{
  PsLib, run_tool, tsapi_plugin_get_plugin_name, tsapi_plugin_load, tsapi_plugin_enable,
  tsapi_plugin_start,
}

abbrev settings : CfgLib Files
settings = record {
  cfg_find_pattern = λ p w. (ok [], w);
  no_instance = λ w. 0;
  cfg_get_inst_name = λ i n w. (err efail, w);
  cfg_get_instance = λ i w. (err efail, w);
  cfg_get_instance_fmt = λ p w. (ok (codes "plugin.o"), w);
  cfg_add_instance_fmt = λ p v w. (ok tt, w);
  te_kvpair_add = λ ps n v w. (ok ps, w);
  te_strtoi = λ s w. (err efail, w);
  decimal = λ n. [];
  null_text = codes "(null)";
}

abbrev server : ServerLib Files
server = record {
  te_expand_kvpairs = λ s params w. (ok s, w);
  before_block = λ w. 0;
  te_string_append_format = λ s format w. (ok tt, s ++ format, w);
  ferror = λ w. (ok tt, w);
  agent_dir = λ ta. codes "/agt";
  set_timeout = λ n w. w;
  rpc_system_ex = λ s w. (0, w);
  ipstr = [];
  double_quotient = λ a b. 0;
  trap = λ w. (err efail, w);
}

-- The started processes with their tools and arguments, the last first.
abbrev processes : PsLib Files
processes = record {
  tapi_cfg_ps_add = λ ta name tool w. (ok tt, (name, tool) ∷ w);
  tapi_cfg_ps_add_arg = λ ta name i arg w. (ok tt, (name, arg) ∷ w);
  tapi_cfg_ps_start = λ ta name w. (ok tt, (name, codes "start") ∷ w);
  te_motivated_sleep = λ n w. w;
}

started :
    (tsapi_plugin_start files settings server processes (codes "Agt") (codes "eth0") []).0 ≡ ok tt
unfolding tsapi_plugin_start tsapi_plugin_load tsapi_plugin_enable tsapi_plugin_get_plugin_name
    run_tool
started = refl
