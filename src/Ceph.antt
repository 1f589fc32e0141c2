-- ===== src/Ceph.antt =====
-- block-ts/lib/tsapi-ceph.c and .h: the command lines of the Ceph programs and the jobs that run
-- them; block-ts/lib/block-ts.c: how the suite asks Ceph for its FSID.
pub mod Jobs
pub mod Live
pub mod Cluster
pub mod Options
pub mod Daemons
pub mod Logger
pub mod Fill
mod Tests
use cns_virtblk_ts.Base.{
  ℕ, ◌==◌, Bool, true, false, not, Option, none, some, List, [], ◌∷◌, ◌++◌, if◌then◌else◌,
}
use cns_virtblk_ts.Base.Text.{Bytes, codes}
use cns_virtblk_ts.Base.Exec.{Result, ok, err, Status, Exec, pure, continue, ◌>>=◌, ◌>>◌}
use cns_virtblk_ts.Te.{TeLib}

-- tsapi_ceph_common_opts; `none` is NULL.
pub record CommonOpts : Type 0 where
  pub config : Option Bytes
  pub monmap : Option Bytes
  pub id : Option Bytes
  pub mkfs : Bool

-- tsapi_ceph_opts, with the only field of each subcommand.
pub record CephOpts : Type 0 where
  pub common_opts : CommonOpts
  pub osd_subcommand : Option Bool
  pub fsid_subcommand : Option Bool
  pub status : Bool

pub record MmtAddOpt : Type 0 where
  pub name : Bytes
  pub ip : Option Bytes
  pub port : ℕ

pub record MmtOpts : Type 0 where
  pub config : Option Bytes
  pub monmap : Option Bytes
  pub fsid : Option Bytes
  pub need_create : Bool
  pub need_print : Bool
  pub add : Option MmtAddOpt

module _ {W : Type 0} (te : TeLib W) where
  open te use {te_vec_append, te_string_append}

  abbrev pub Command : Type 0
  Command = List Bytes → Exec W (List Bytes)

  -- ADD_OPTION
  unfoldable pub add_option : Bool → Bytes → Command
  add_option false option vec_opts = pure vec_opts
  add_option true option vec_opts = te_vec_append >> pure (vec_opts ++ option ∷ [])

  -- ADD_OPTION_KV for a pointer that is not NULL
  unfoldable pub add_option_kv : Bytes → Option Bytes → Command
  add_option_kv key none vec_opts = pure vec_opts
  add_option_kv key (some value) vec_opts = do
    vec' ← add_option true key vec_opts
    add_option true value vec'

  unfoldable pub ceph_common_build_command : CommonOpts → Command
  ceph_common_build_command opts vec_opts = do
    vec1 ← add_option_kv (codes "--id") opts.id vec_opts
    vec2 ← add_option_kv (codes "--conf") opts.config vec1
    vec3 ← add_option_kv (codes "--monmap") opts.monmap vec2
    add_option opts.mkfs (codes "--mkfs") vec3

  unfoldable pub add_osd : Option Bool → Command
  add_osd none vec_opts = pure vec_opts
  add_osd (some create) vec_opts = do
    vec' ← add_option true (codes "osd") vec_opts
    add_option create (codes "create") vec'

  unfoldable pub add_fsid : Option Bool → Command
  add_fsid none vec_opts = pure vec_opts
  add_fsid (some get_fsid) vec_opts = add_option get_fsid (codes "fsid") vec_opts

  unfoldable pub ceph_build_command : CephOpts → Command
  ceph_build_command opts vec_opts = do
    vec1 ← ceph_common_build_command opts.common_opts vec_opts
    vec2 ← add_osd opts.osd_subcommand vec1
    vec3 ← add_fsid opts.fsid_subcommand vec2
    add_option opts.status (codes "-s") vec3

  -- `decimal` is what "%d" prints.
  module _ (decimal : ℕ → Bytes) where
    -- te_string_append() to the string, which is kept where there is nothing to append.
    abbrev add_ip : Option Bytes → Bytes → W → Bytes × W
    add_ip none str w = (str, w)
    add_ip (some ip) str w = let (_, str', w') = te_string_append str ip w in (str', w')

    abbrev add_port : ℕ → Bytes → W → Bytes × W
    add_port port str w =
        let (_, str', w') = te_string_append str (b':' ∷ decimal port) w in
        if port == 0 then (str, w) else (str', w')

    -- The status is not looked at by the caller.
    unfoldable pub ceph_mmt_add_opt_host_str : MmtAddOpt → Bytes → W → Bytes × W
    ceph_mmt_add_opt_host_str opt str w =
        let (str', w') = add_ip opt.ip str w in add_port opt.port str' w'

    unfoldable pub add_mon : Option MmtAddOpt → Command
    add_mon none vec_opts = pure vec_opts
    add_mon (some opt) vec_opts = do
      add_opt ← (λ w. let (str, w') = ceph_mmt_add_opt_host_str opt [] w in (ok str, w'))
      vec' ← add_option_kv (codes "--add") (some opt.name) vec_opts
      add_option true add_opt vec'

    abbrev add_word : Option Bytes → Command
    add_word none vec_opts = pure vec_opts
    add_word (some word) vec_opts = add_option true word vec_opts

    unfoldable pub ceph_mmt_build_command : MmtOpts → Command
    ceph_mmt_build_command opts vec_opts = do
      vec1 ← add_option opts.need_create (codes "--create") vec_opts
      vec2 ← add_option opts.need_print (codes "--print") vec1
      vec3 ← add_mon opts.add vec2
      vec4 ← add_option_kv (codes "--fsid") opts.fsid vec3
      vec5 ← add_option_kv (codes "--conf") opts.config vec4
      add_word opts.monmap vec5
