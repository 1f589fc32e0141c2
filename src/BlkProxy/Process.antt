-- ===== src/BlkProxy/Process.antt =====
-- block-ts/lib/tsapi-blkproxy.c: the handle of the blk-proxy process, its command line, its environment
-- and how it is put into the Configurator; block-ts/lib/tsapi.c: the path to Onload.
mod Tests
pub mod Model
use cns_virtblk_ts.Base.{
  ℕ, ◌+◌, ◌==◌, Bool, true, false, not, Option, none, some, List, [], ◌∷◌, ◌++◌, if◌then◌else◌,
}
use cns_virtblk_ts.Base.Text.{Bytes, codes, strcmp, tokens_by}
use cns_virtblk_ts.Base.Exec.{
  Errno, Result, ok, err, einval, efail, enoent, enomem, Status, Exec, pure, raise, ◌>>=◌, ◌>>◌,
}
use cns_virtblk_ts.Te.{TeLib}
use cns_virtblk_ts.Backend.{CfgLib}
use cns_virtblk_ts.Backend.Inventory.{ServerLib, append_result}
use cns_virtblk_ts.Ceph.Cluster.{tsapi_use_onload}
use cns_virtblk_ts.BlkProxy.{Handle, Params, get_agent_config_name}

-- tsapi_blkproxy_opts
pub record Opts : Type 0 where
  pub mem_size : ℕ
  pub cpu_mask : Bytes
  pub config : Option Bytes
  pub pci_whitelist : Bytes
  pub logflags : Option Bytes

abbrev pub mask_for_8_cpu : Bytes
mask_for_8_cpu = codes "0xFE"

abbrev pub mask_for_16_cpu : Bytes
mask_for_16_cpu = codes "0xFFFE"

abbrev pub tsapi_blkproxy_opts_default_opt : Opts
tsapi_blkproxy_opts_default_opt = record {
  mem_size = 1200;
  cpu_mask = mask_for_8_cpu;
  config = none;
  pci_whitelist = codes "01:00.1";
  logflags = none;
}

-- How an option becomes arguments: TAPI_JOB_OPT_UINT and TAPI_JOB_OPT_STRING with a prefix of its own
-- argument, and an option with a function that appends to the vector.
pub data Bind (W : Type 0) : Type 0 where
  opt_uint : Bytes → ℕ → Bind W
  opt_string : Bytes → Option Bytes → Bind W
  opt_custom : (List Bytes → Exec W (List Bytes)) → Bind W

-- What the process of the blk-proxy calls.
pub record LaunchLib (W : Type 0) : Type 0 where
  -- the vector of the arguments, which may hold NULL
  pub tapi_job_opt_build_args : Bytes → List (Bind W) → Exec W (List (Option Bytes))
  pub te_vec_append_vec : Exec W Unit
  -- what TE_VEC_GET() does for an index that is out of range
  pub out_of_range : Exec W Unit
  -- tapi_cfg_get_all_threads(): the number of CPUs
  pub tapi_cfg_get_all_threads : Bytes → Exec W ℕ
  pub cfg_get_inst_name : ℕ → Exec W Bytes
  pub cfg_del_instance_fmt : Bytes → Exec W Unit
  pub rcf_ta_name2type : Bytes → Exec W Bytes
  -- whether TE_ALLOC() found memory
  pub te_alloc : W → Bool × W
  -- tapi_cfg_ps_add(ta, name, exe, FALSE)
  pub tapi_cfg_ps_add : Bytes → Bytes → Option Bytes → Exec W Unit
  pub tapi_cfg_ps_add_env : Bytes → Bytes → Bytes → Bytes → Exec W Unit
  pub tapi_cfg_ps_add_arg : Bytes → Bytes → ℕ → Bytes → Exec W Unit
  pub tapi_cfg_ps_start : Bytes → Bytes → Exec W Unit
  pub tapi_cfg_ps_stop : Bytes → Bytes → Exec W Unit
  pub tapi_cfg_ps_get_status : Bytes → Bytes → Exec W Bool
  -- te_motivated_sleep() for some seconds
  pub te_motivated_sleep : ℕ → W → W
  -- rpc_system(): the value of the status
  pub rpc_system : Bytes → W → ℕ × W

abbrev is_true : Option Bytes → Bool
is_true (some s) = strcmp s (codes "true")
is_true none = false

abbrev pub non_empty : Bytes → Option Bytes
non_empty [] = none
non_empty (c ∷ s) = some (c ∷ s)

abbrev pub or_default : Option Bytes → Bytes → Bytes
or_default (some s) d = s
or_default none d = d

-- The mask that the switch of set_cpu_mask() chooses.
unfoldable pub mask_for : ℕ → Option Bytes
mask_for cpu_n =
    if cpu_n == 8 then some mask_for_8_cpu else if cpu_n == 16 then some mask_for_16_cpu else none

module _ {W : Type 0} (te : TeLib W) (cfg : CfgLib W) (server : ServerLib W)
    (lib : LaunchLib W) where
  open te use {te_string_append, te_vec_append, getenv}
  open cfg use {cfg_find_pattern, cfg_get_instance, cfg_get_instance_fmt, te_kvpair_add}
  open lib use {
    tapi_job_opt_build_args, te_vec_append_vec, out_of_range, tapi_cfg_get_all_threads,
    cfg_get_inst_name, rcf_ta_name2type, te_alloc, tapi_cfg_ps_add, tapi_cfg_ps_add_env,
    tapi_cfg_ps_add_arg,
  }

  -- Operations on the options, which are changed also where an operation then fails.
  abbrev pub Setup : Type 0 → Type 0
  Setup A = Exec (Opts × W) A

  abbrev pub outside : {A : Type 0} → Exec W A → Setup A
  outside m (opts, w) = let (r, w') = m w in (r, (opts, w'))

  abbrev pub change : (Opts → Opts) → Setup Unit
  change f (opts, w) = (ok tt, (f opts, w))

  abbrev or_error : Errno → {A : Type 0} → Result A × W → Result A × W
  or_error e (ok a, w) = (ok a, w)
  or_error e (err e', w) = (err e, w)

  unfoldable pub tsapi_get_onload_path : Exec W (Option Bytes)
  tsapi_get_onload_path =
      cfg_get_instance_fmt (codes "/local:/onload_path:") >>= λ val. pure (non_empty val)

  unfoldable pub tsapi_blkproxy_get_logflags : Exec W (Option Bytes)
  tsapi_blkproxy_get_logflags =
      cfg_get_instance_fmt (codes "/local:/blk_proxy:/logflags:") >>= λ val. pure (non_empty val)

  unfoldable pub is_old_spdk : Bool
  is_old_spdk = is_true (getenv (codes "TE_OLD_SPDK"))

  unfoldable pub tsapi_blkproxy_bin : Bytes → Bytes
  tsapi_blkproxy_bin ta = server.agent_dir ta ++ codes "/blk_proxy"

  -- The loop over the handles.
  unfoldable pub add_envs : List ℕ → Params → Exec W Params
  add_envs [] envs = pure envs
  add_envs (h ∷ hs) envs = do
    env_name ← cfg_get_inst_name h
    env_value ← cfg_get_instance h
    envs' ← te_kvpair_add envs env_name env_value
    add_envs hs envs'

  unfoldable pub build_blk_proxy_onload_env : Params → Exec W Params
  build_blk_proxy_onload_env envs = do
    env_handles ← cfg_find_pattern (codes "/local:/blk_proxy:/onload_env:*")
    add_envs env_handles envs

  unfoldable pub build_blkproxy_env : Params → Exec W Params
  build_blkproxy_env envs = build_blk_proxy_onload_env envs

  -- One te_vec_append_str_fmt(), and what follows its success or its failure.
  abbrev pub appended : {A : Type 0} → Status × W → (W → A) → (W → A) → A
  appended (ok _, w) next out = next w
  appended (err e, w) next out = out w

  -- At an error the loop ends, and the status is 0 all the same.
  unfoldable pub add_logflags : List Bytes → List Bytes → Exec W (List Bytes)
  add_logflags [] args w = (ok args, w)
  add_logflags (tmp ∷ toks) args w =
      appended (te_vec_append w)
        (λ w1.
          appended (te_vec_append w1)
            (λ w2. add_logflags toks (args ++ codes "--logflag" ∷ tmp ∷ []) w2)
            (λ w2. (ok (args ++ codes "--logflag" ∷ []), w2)))
        (λ w1. (ok args, w1))

  unfoldable pub create_optional_logflags : Option Bytes → List Bytes → Exec W (List Bytes)
  create_optional_logflags none args = pure args
  create_optional_logflags (some str) args = add_logflags (tokens_by b',' [] str) args

  abbrev pub path_or_enoent : Option Bytes → Exec W (List (Option Bytes))
  path_or_enoent none w = (err enoent, w)
  path_or_enoent (some path) w = or_error efail ((te_vec_append >> pure (some path ∷ [])) w)

  -- The arguments in front of the program.
  unfoldable pub onload_args : Bool → Exec W (List (Option Bytes))
  onload_args false = pure []
  onload_args true = tsapi_get_onload_path >>= path_or_enoent

  abbrev pub with_config : Bytes → Opts → Opts
  with_config config opts = record {
    mem_size = opts.mem_size;
    cpu_mask = opts.cpu_mask;
    config = some (or_default opts.config config);
    pci_whitelist = opts.pci_whitelist;
    logflags = opts.logflags;
  }

  abbrev pub with_logflags : Option Bytes → Opts → Opts
  with_logflags flags opts = record {
    mem_size = opts.mem_size;
    cpu_mask = opts.cpu_mask;
    config = opts.config;
    pci_whitelist = opts.pci_whitelist;
    logflags = flags;
  }

  abbrev pub fill_logflags : Option Bytes → Setup Unit
  fill_logflags (some flags) = pure tt
  fill_logflags none = outside tsapi_blkproxy_get_logflags >>= λ flags. change (with_logflags flags)

  abbrev pub get_opts : Setup Opts
  get_opts (opts, w) = (ok opts, (opts, w))

  unfoldable pub blkproxy_binds : Opts → List (Bind W)
  blkproxy_binds opts =
      opt_uint (codes "-s") opts.mem_size
      ∷ opt_string (codes "-m") (some opts.cpu_mask)
      ∷ opt_string (codes "-c") opts.config
      ∷ opt_string (if is_old_spdk then codes "-W" else codes "-A") (some opts.pci_whitelist)
      ∷ opt_custom (create_optional_logflags opts.logflags)
      ∷ []

  unfoldable pub build_blkproxy_args : Handle → Setup (List (Option Bytes))
  build_blkproxy_args handle = do
    use_onload ← outside (tsapi_use_onload te cfg)
    result_args ← outside (onload_args use_onload)
    change (with_config (get_agent_config_name handle (not handle.is_old_spdk)))
    opts ← get_opts
    fill_logflags opts.logflags
    opts' ← get_opts
    tmp_args ←
        outside (tapi_job_opt_build_args (tsapi_blkproxy_bin handle.ta) (blkproxy_binds opts'))
    outside te_vec_append_vec
    pure (result_args ++ tmp_args)

  abbrev with_mask : Bytes → Opts → Opts
  with_mask mask opts = record {
    mem_size = opts.mem_size;
    cpu_mask = mask;
    config = opts.config;
    pci_whitelist = opts.pci_whitelist;
    logflags = opts.logflags;
  }

  abbrev pub mask_or_efail : Option Bytes → Setup Unit
  mask_or_efail (some mask) = change (with_mask mask)
  mask_or_efail none = raise efail

  unfoldable pub set_cpu_mask : Bytes → Setup Unit
  set_cpu_mask ta =
      outside (tapi_cfg_get_all_threads ta) >>= λ cpu_n. mask_or_efail (mask_for cpu_n)

  unfoldable pub add_env_list : Bytes → Bytes → Params → Exec W Unit
  add_env_list ta ps_name [] = pure tt
  add_env_list ta ps_name ((key, value) ∷ envs) =
      tapi_cfg_ps_add_env ta ps_name key value >> add_env_list ta ps_name envs

  -- An argument that is NULL is passed over, and does not count.
  unfoldable pub add_arg_list : Bytes → Bytes → ℕ → List (Option Bytes) → Exec W Unit
  add_arg_list ta ps_name counter [] = pure tt
  add_arg_list ta ps_name counter (none ∷ args) = add_arg_list ta ps_name counter args
  add_arg_list ta ps_name counter (some arg ∷ args) =
      tapi_cfg_ps_add_arg ta ps_name counter arg >> add_arg_list ta ps_name (counter + 1) args

  -- The calls of tsapi_blkproxy_init() that make the process, for its arguments and environment.
  unfoldable pub add_process : Bytes → Bytes → List (Option Bytes) → Params → Exec W Unit
  add_process ta ps_name [] envs = out_of_range
  add_process ta ps_name (exe ∷ args) envs = do
    tapi_cfg_ps_add ta ps_name exe
    add_env_list ta ps_name envs
    add_arg_list ta ps_name 1 args

  unfoldable pub tsapi_blkproxy_init : Handle → Setup Unit
  tsapi_blkproxy_init handle = do
    set_cpu_mask handle.ta
    args ← build_blkproxy_args handle
    envs ← outside (build_blkproxy_env [])
    outside (add_process handle.ta handle.ps_name args envs)

  abbrev found : Option Bytes → Exec W Bytes
  found (some s) = pure s
  found none = raise enoent

  unfoldable pub build_config_local_dir : Bytes → Exec W Bytes
  build_config_local_dir ta = do
    ta_type ← rcf_ta_name2type ta
    installdir ← found (getenv (codes "TE_INSTALL"))
    (λ w.
        append_result
          (te_string_append [] (installdir ++ codes "/agents/" ++ ta_type ++ codes "/") w))

  unfoldable pub build_config_agent_dir : Bytes → Exec W Bytes
  build_config_agent_dir ta = do
    ta_dir ← cfg_get_instance_fmt (codes "/agent:" ++ ta ++ codes "/dir:")
    (λ w. append_result (te_string_append [] ta_dir w))

  abbrev pub allocated : Bool × W → Status × W
  allocated (true, w) = (ok tt, w)
  allocated (false, w) = (err enomem, w)

  -- The RPC server is given by its agent; `none` is NULL.
  unfoldable pub tsapi_blkproxy_handle_init :
      Option Bytes → Option Bytes → Option Bytes → Exec W Handle
  tsapi_blkproxy_handle_init none ps_name config_name = raise einval
  tsapi_blkproxy_handle_init (some ta) ps_name config_name = do
    (λ w. allocated (te_alloc w))
    agent_dir ← build_config_agent_dir ta
    local_dir ← build_config_local_dir ta
    pure (record {
      ta = ta;
      ps_name = or_default ps_name (codes "blk-proxy");
      config_name = or_default config_name (codes "bp_map");
      config_local_dir = local_dir;
      config_agent_dir = agent_dir;
      is_old_spdk = is_old_spdk;
    })
