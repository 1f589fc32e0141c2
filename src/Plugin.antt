-- ===== src/Plugin.antt =====
-- block-ts/lib/tsapi-plugin.c: how the Onload plugin is loaded, enabled and disabled.
mod Tests
use cns_virtblk_ts.Base.{
  ℕ, ◌==◌, ◌≡◌, refl, ap, ◌∙◌, Bool, Option, none, some, List, [], ◌∷◌, ◌++◌, if◌then◌else◌,
}
use cns_virtblk_ts.Base.Text.{Bytes, codes}
use cns_virtblk_ts.Base.Exec.{
  Result, ok, err, efail, enoent, Status, Exec, pure, continue, ◌>>=◌, ◌>>◌, >>=-step,
}
use cns_virtblk_ts.Te.{TeLib}
use cns_virtblk_ts.Backend.{CfgLib}
use cns_virtblk_ts.Backend.Inventory.{ServerLib, append_result}

-- The processes of an agent in the Configurator.
pub record PsLib (W : Type 0) : Type 0 where
  -- tapi_cfg_ps_add(ta, name, tool, FALSE)
  pub tapi_cfg_ps_add : Bytes → Bytes → Bytes → Exec W Unit
  -- the argument at a position
  pub tapi_cfg_ps_add_arg : Bytes → Bytes → ℕ → Bytes → Exec W Unit
  pub tapi_cfg_ps_start : Bytes → Bytes → Exec W Unit
  -- te_motivated_sleep() for some seconds
  pub te_motivated_sleep : ℕ → W → W

abbrev pub plugin_tool : Bytes
plugin_tool = codes "xnpradmin"

module _ {W : Type 0} (te : TeLib W) (cfg : CfgLib W) (server : ServerLib W) (lib : PsLib W)
    (ta : Bytes) where
  open lib use {tapi_cfg_ps_add, tapi_cfg_ps_add_arg, tapi_cfg_ps_start, te_motivated_sleep}

  abbrev name_or_enoent : Result Bytes × W → Result Bytes × W
  name_or_enoent (ok name, w) = (ok name, w)
  name_or_enoent (err e, w) = (err enoent, w)

  -- A name that is not there is TE_ENOENT to the caller.
  unfoldable pub tsapi_plugin_get_plugin_name : Exec W Bytes
  tsapi_plugin_get_plugin_name w =
      name_or_enoent (cfg.cfg_get_instance_fmt (codes "/local:/plugin:/name:") w)

  abbrev ioctl : Bytes → Exec W Bytes
  ioctl ifname w = append_result (te.te_string_append [] (codes "ioctl=" ++ ifname) w)

  abbrev rest_after : ℕ → Exec W Unit
  rest_after seconds w = (ok tt, te_motivated_sleep seconds w)

  -- Adding a process, its three arguments and starting it, for both uses of the tool.
  unfoldable pub run_tool : Bytes → Bytes → Bytes → Bytes → Exec W Unit
  run_tool name ifname word last = do
    tapi_cfg_ps_add ta name plugin_tool
    buf ← ioctl ifname
    tapi_cfg_ps_add_arg ta name 1 buf
    tapi_cfg_ps_add_arg ta name 2 word
    tapi_cfg_ps_add_arg ta name 3 last
    tapi_cfg_ps_start ta name

  unfoldable pub tsapi_plugin_load : Bytes → Bytes → Exec W Unit
  tsapi_plugin_load ifname plugin_path =
      run_tool (codes "load_plugin") ifname (codes "program") plugin_path >> rest_after 15

  unfoldable pub tsapi_plugin_enable : Bytes → Exec W Unit
  tsapi_plugin_enable ifname =
      run_tool (codes "enable_plugin") ifname (codes "enable") (codes "all")

  unfoldable pub tsapi_plugin_start : Bytes → Exec W Unit
  tsapi_plugin_start ifname = do
    plugin_name ← tsapi_plugin_get_plugin_name
    tsapi_plugin_load ifname (server.agent_dir ta ++ b'/' ∷ plugin_name)
    tsapi_plugin_enable ifname

  abbrev status_of : ℕ × W → Status × W
  status_of (value, w) = (if value == 0 then ok tt else err efail, w)

  unfoldable pub tsapi_plugin_disable : Bytes → Exec W Unit
  tsapi_plugin_disable ifname w =
      status_of
        (server.rpc_system_ex (codes "xnpradmin ioctl=" ++ ifname ++ codes " disable all") w)

  name_or_enoent-ok :
      (r : Result Bytes × W) (name : Bytes)
      → (name_or_enoent r).0 ≡ ok name
      → r ≡ (ok name, (name_or_enoent r).1)
  name_or_enoent-ok (ok n, w) name h = ap (λ x. (x, w)) h
  name_or_enoent-ok (err e, w) name h = cc

  get_plugin_name-ok :
      (name : Bytes) (w : W)
      → (tsapi_plugin_get_plugin_name w).0 ≡ ok name
      → cfg.cfg_get_instance_fmt (codes "/local:/plugin:/name:") w
        ≡ (ok name, (tsapi_plugin_get_plugin_name w).1)
  unfolding tsapi_plugin_get_plugin_name
  get_plugin_name-ok name w h =
      name_or_enoent-ok (cfg.cfg_get_instance_fmt (codes "/local:/plugin:/name:") w) name h

  -- Starting the plugin succeeds only when a name is configured, and then first the load of the file of
  -- that name in the directory of the agent and, in the state that it leaves, the enabling have
  -- succeeded.
  plugin_start-order :
      (ifname : Bytes) (w : W)
      → (tsapi_plugin_start ifname w).0 ≡ ok tt
      → (name : Bytes) × (w' w'' : W) × (cfg.cfg_get_instance_fmt (codes "/local:/plugin:/name:") w
          ≡ (ok name, w'))
        × (tsapi_plugin_load ifname (server.agent_dir ta ++ b'/' ∷ name) w' ≡ (ok tt, w''))
        × (tsapi_plugin_start ifname w ≡ tsapi_plugin_enable ifname w'')
  unfolding tsapi_plugin_start
  plugin_start-order ifname w h =
      let named = tsapi_plugin_get_plugin_name w in
      let (name, e1, h1, s1) = >>=-step tsapi_plugin_get_plugin_name _ w tt h in
      let load = tsapi_plugin_load ifname (server.agent_dir ta ++ b'/' ∷ name) in
      let (u, e2, _, s2) = >>=-step load (λ _. tsapi_plugin_enable ifname) named.1 tt h1 in
      (
        name,
        named.1,
        (load named.1).1,
        get_plugin_name-ok name w e1,
        ap (λ r. (r, (load named.1).1)) e2,
        s1 ∙ s2,
      )
