-- ===== src/BlkProxy.antt =====
-- block-ts/lib/tsapi-blkproxy.c: the configuration file of the blk-proxy process.
pub mod Build
pub mod Masks
pub mod Create
pub mod Counting
pub mod Crossing
pub mod Process
pub mod Lifecycle
pub mod Running
pub mod Launch
pub mod Arguments
pub mod Reactor
mod Tests
use cns_virtblk_ts.Base.{
  Bool, true, false, not, Option, none, some, List, [], ◌∷◌, ◌++◌, if◌then◌else◌,
}
use cns_virtblk_ts.Base.Text.{Bytes, codes, strcmp, strstr}
use cns_virtblk_ts.Base.Exec.{Result, ok, err, Status, Exec, pure, continue, ◌>>=◌, ◌>>◌}
use cns_virtblk_ts.Te.{TeLib}
use cns_virtblk_ts.Conf.{
  Kv, Section, Conf, tsapi_conf_section_get, tsapi_conf_create_section, tsapi_conf_append,
}
use cns_virtblk_ts.Conf.Parse.{tsapi_conf_opts_read, tsapi_conf_parse_string}

-- A list of te_kvpair.
abbrev pub Params : Type 0
Params = List (Bytes × Bytes)

-- What this file calls beside the library of strings and vectors.
pub record ProxyLib (W : Type 0) : Type 0 where
  -- te_string_append(s, fmt) on an empty string, with no argument for the format
  pub te_string_format : Bytes → Exec W Bytes
  -- te_string_replace_all_substrings(s, new, old)
  pub te_string_replace_all_substrings : Bytes → Bytes → Bytes → Exec W Bytes
  pub te_expand_kvpairs : Bytes → Params → Exec W Bytes
  -- system(): whether it returned -1
  pub system : Bytes → W → Bool × W
  -- rcf_ta_put_file(ta, 0, local, remote)
  pub rcf_ta_put_file : Bytes → Bytes → Bytes → Exec W Unit
  -- RING() with a text
  pub ring : Bytes → W → W

pub record Handle : Type 0 where
  pub ta : Bytes
  pub ps_name : Bytes
  pub config_name : Bytes
  pub config_local_dir : Bytes
  pub config_agent_dir : Bytes
  pub is_old_spdk : Bool

abbrev pub suffix : Bool → Bytes
suffix true = codes "json"
suffix false = codes "conf"

unfoldable pub get_local_config_name : Handle → Bool → Bytes
get_local_config_name h json = h.config_local_dir ++ b'/' ∷ (h.config_name ++ b'.' ∷ suffix json)

unfoldable pub get_agent_config_name : Handle → Bool → Bytes
get_agent_config_name h json = h.config_agent_dir ++ b'/' ∷ (h.config_name ++ b'.' ∷ suffix json)

module _ {W : Type 0} (te : TeLib W) (lib : ProxyLib W) where
  open lib use {
    te_string_format, te_string_replace_all_substrings, te_expand_kvpairs, system, rcf_ta_put_file,
    ring,
  }

  unfoldable pub expand_section_val : Bytes → Params → Exec W Bytes
  expand_section_val val params = do
    tmp ← te_string_format val
    tmp' ← te_string_replace_all_substrings tmp (codes "${") (codes "#{")
    te_expand_kvpairs tmp' params

  -- The value that goes to the file: #{name} is expanded.
  unfoldable pub final_value : Bytes → Params → Exec W Bytes
  final_value value params w = elim (strstr value (codes "#{")) [
    | none ↦ (ok value, w)
    | some _ ↦ expand_section_val value params w
  ]

  unfoldable pub section_of : Option Section → Conf → Bytes → Exec W Conf
  section_of none conf name = tsapi_conf_create_section te conf name []
  section_of (some s) conf name = pure conf

  -- An option whose value is not "none".
  unfoldable pub add_option : Params → Conf → Bytes → Kv → Exec W Conf
  add_option params conf name kv = do
    conf' ← section_of (tsapi_conf_section_get conf name) conf name
    value ← final_value kv.value params
    tsapi_conf_append te (some conf') name kv.key value

  unfoldable pub build_step : Params → Conf → Bytes × Kv → Exec W Conf
  build_step params conf (name, kv) =
      if strcmp kv.value (codes "none") then pure conf else add_option params conf name kv

  -- The loop over the strings of the command line.
  unfoldable pub build_conf : Params → List Bytes → Conf → Exec W Conf
  build_conf params [] conf = pure conf
  build_conf params (s ∷ vec) conf = do
    option ← tsapi_conf_parse_string te s []
    conf' ← build_step params conf option
    build_conf params vec conf'
