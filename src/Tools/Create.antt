-- ===== src/Tools/Create.antt =====
-- block-ts/lib/tool: how the application of each benchmark is made.
use cns_virtblk_ts.Base.{ℕ, Bool, Option, none, some, List, [], ◌∷◌, ◌++◌, take}
use cns_virtblk_ts.Base.Text.{Bytes, codes}
use cns_virtblk_ts.Base.Exec.{Result, ok, err, efail, enomem, Status, Exec, pure, ◌>>=◌, ◌>>◌}
use cns_virtblk_ts.Te.{TeLib}
use cns_virtblk_ts.Backend.{CfgLib}
use cns_virtblk_ts.Ceph.Jobs.{JobLib}
use cns_virtblk_ts.Tools.{
  ToolBind, opt_bool, opt_string, opt_uint_omittable, App, ToolLib, create_common, tool_destroy,
}

-- tsapi_compilebench_opt; a number that is `none` is TAPI_JOB_OPT_OMIT_UINT.
pub record CompilebenchOpts : Type 0 where
  pub buf_size : Option ℕ
  pub initial_dirs : Option ℕ
  pub runs : Option ℕ
  pub makej : Bool
  pub working_dir : Option Bytes
  pub sources_dir : Option Bytes

pub record DbenchOpts : Type 0 where
  pub client_txt_location : Option Bytes
  pub runtime : Option ℕ
  pub working_dir : Option Bytes
  pub numclients : Option ℕ

pub record FsmarkOpts : Type 0 where
  pub numfiles : Option ℕ
  pub file_size : Option ℕ
  pub working_dir : Option Bytes

pub record IozoneOpts : Type 0 where
  pub sync_writes : Bool
  pub record_size : Option Bytes
  pub file_size : Option Bytes
  pub file_under_test : Option Bytes

unfoldable pub compilebench_binds : CompilebenchOpts → List ToolBind
compilebench_binds opt =
    opt_uint_omittable (some (codes "-b")) opt.buf_size
    ∷ opt_uint_omittable (some (codes "-i")) opt.initial_dirs
    ∷ opt_uint_omittable (some (codes "-r")) opt.runs
    ∷ opt_bool (codes "-m") opt.makej
    ∷ opt_string (codes "-D") opt.working_dir
    ∷ opt_string (codes "-s") opt.sources_dir
    ∷ []

unfoldable pub dbench_binds : DbenchOpts → List ToolBind
dbench_binds opt =
    opt_string (codes "-c") opt.client_txt_location
    ∷ opt_uint_omittable (some (codes "-t")) opt.runtime
    ∷ opt_string (codes "-D") opt.working_dir
    ∷ opt_uint_omittable none opt.numclients
    ∷ []

unfoldable pub fsmark_binds : FsmarkOpts → List ToolBind
fsmark_binds opt =
    opt_uint_omittable (some (codes "-n")) opt.numfiles
    ∷ opt_uint_omittable (some (codes "-s")) opt.file_size
    ∷ opt_string (codes "-d") opt.working_dir
    ∷ []

unfoldable pub iozone_binds : IozoneOpts → List ToolBind
iozone_binds opt =
    opt_bool (codes "-o") opt.sync_writes
    ∷ opt_string (codes "-r") opt.record_size
    ∷ opt_string (codes "-s") opt.file_size
    ∷ opt_string (codes "-f") opt.file_under_test
    ∷ []

-- The messages of compilebench that are no errors.
abbrev pub stderr_regexp : Bytes
stderr_regexp =
    codes "^(?!using working directory|native unpatched|"
    ++ codes "native patched|create dir|patch dir|"
    ++ codes "compile dir|read dir|stat dir|clean kernel|"
    ++ codes "delete kernel).+"

abbrev pub iozone_regexp : Bytes
iozone_regexp =
    codes " +\\d+ +\\d+ +\\d+ +\\d+ +\\d+ +\\d+ +\\d+ +\\d+"
    ++ codes " +\\d+ +\\d+ +\\d+ +\\d+ +\\d+ +\\d+ +\\d+"

module _ {W : Type 0} (te : TeLib W) (cfg : CfgLib W) (jobs : JobLib W) (lib : ToolLib W) where
  open jobs use {tapi_job_attach_filter, tapi_job_filter_add_regexp}

  -- The pointer to the application, which is written also where a later step fails.
  abbrev pub Make : Type 0 → Type 0
  Make A = Exec (Option App × W) A

  abbrev pub aside : {A : Type 0} → Exec W A → Make A
  aside m (app, w) = let (r, w') = m w in (r, (app, w'))

  abbrev pub write_app : App → Make Unit
  write_app app (_, w) = (ok tt, (some app, w))

  unfoldable pub make_app : Bytes → List ToolBind → Option Bytes → ℕ → Make App
  make_app bin binds stderr_re factory = do
    app ← aside (create_common jobs lib bin binds stderr_re factory)
    write_app app
    pure app

  abbrev pub with_results : ℕ → Option App → Option App
  with_results filter (some app) =
      some (record { job = app.job; out = app.out; results_filter = some filter })
  with_results filter none = none

  abbrev pub write_filter : ℕ → Make Unit
  write_filter filter (app, w) = (ok tt, (with_results filter app, w))

  -- The filter that gets the results.
  unfoldable pub add_results_filter : Bytes → App → Make Unit
  add_results_filter regexp app = do
    filter ← aside (tapi_job_attach_filter (some app.out) [])
    write_filter filter
    aside (tapi_job_filter_add_regexp filter regexp)

  abbrev pub agent : Option Bytes → Make Bytes
  agent none s = (err efail, s)
  agent (some ta) s = (ok ta, s)

  abbrev pub dir_oid : Bytes → Bytes
  dir_oid ta = codes "/agent:" ++ ta ++ codes "/dir:"

  -- get_compilebench_sources(): a directory that is set is kept; otherwise it is that of the agent, cut to
  -- a buffer of PATH_MAX bytes.
  unfoldable pub get_compilebench_sources : Bytes → Option Bytes → Exec W Bytes
  get_compilebench_sources ta (some dir) = pure dir
  get_compilebench_sources ta none =
      cfg.cfg_get_instance_fmt (dir_oid ta) >>= λ ta_dir. pure (take 4095 ta_dir)

  unfoldable pub get_client_txt_location : Bytes → Option Bytes → Exec W Bytes
  get_client_txt_location ta (some location) = pure location
  get_client_txt_location ta none = lib.cfg_get_instance_sync_fmt (dir_oid ta) >>= λ ta_dir.
      pure (take 4095 (ta_dir ++ codes "/client.txt"))

  abbrev pub with_sources : Bytes → CompilebenchOpts → CompilebenchOpts
  with_sources dir opt = record {
    buf_size = opt.buf_size;
    initial_dirs = opt.initial_dirs;
    runs = opt.runs;
    makej = opt.makej;
    working_dir = opt.working_dir;
    sources_dir = some dir;
  }

  unfoldable pub tsapi_compilebench_create : CompilebenchOpts → ℕ → Make Unit
  tsapi_compilebench_create opt factory = do
    ta ← agent (lib.tapi_job_factory_ta factory)
    sources_dir ← aside (get_compilebench_sources ta opt.sources_dir)
    app ←
        make_app (codes "compilebench") (compilebench_binds (with_sources sources_dir opt))
          (some stderr_regexp) factory
    add_results_filter (codes "run complete:\\n=+(.|\\n)*") app

  abbrev pub with_client : Bytes → DbenchOpts → DbenchOpts
  with_client location opt = record {
    client_txt_location = some location;
    runtime = opt.runtime;
    working_dir = opt.working_dir;
    numclients = opt.numclients;
  }

  unfoldable pub tsapi_dbench_create : DbenchOpts → ℕ → Make Unit
  tsapi_dbench_create opt factory = do
    ta ← agent (lib.tapi_job_factory_ta factory)
    location ← aside (get_client_txt_location ta opt.client_txt_location)
    app ← make_app (codes "dbench") (dbench_binds (with_client location opt)) none factory
    add_results_filter (codes " Operation +Count.*\\n -+(.|\\n)*") app

  unfoldable pub tsapi_fsmark_create : FsmarkOpts → ℕ → Make Unit
  tsapi_fsmark_create opt factory = do
    app ← make_app (codes "fs_mark") (fsmark_binds opt) none factory
    filter ← aside (tapi_job_attach_filter (some app.out) (codes "fsmark stdout"))
    pure tt

  -- te_string_fmt() of the file in the working directory; without memory it is NULL.
  abbrev pub formatted : Status × Bytes × W → Result (Option Bytes) × W
  formatted (ok _, s, w) = (ok (some s), w)
  formatted (err e, s, w) = (err enomem, w)

  abbrev pub file_in : Option Bytes → Option Bytes → Exec W (Option Bytes)
  file_in (some file) working_dir w = (ok (some file), w)
  file_in none none w = (ok none, w)
  file_in none (some dir) w = formatted (te.te_string_append [] (dir ++ codes "/file_under_test") w)

  abbrev pub with_file : Option Bytes → IozoneOpts → IozoneOpts
  with_file file opt = record {
    sync_writes = opt.sync_writes;
    record_size = opt.record_size;
    file_size = opt.file_size;
    file_under_test = file;
  }

  unfoldable pub tsapi_iozone_create : IozoneOpts → Option Bytes → ℕ → Make Unit
  tsapi_iozone_create opt working_dir factory = do
    file ← aside (file_in opt.file_under_test working_dir)
    app ← make_app (codes "iozone") (iozone_binds (with_file file opt)) none factory
    add_results_filter iozone_regexp app

  -- The clean-up of a caller, whose pointer to the application is NULL before the application is made.
  abbrev pub destroyed : {A : Type 0} → Make A → W → W
  destroyed m w = let (_, (app, w1)) = m (none, w) in (tool_destroy jobs lib app w1).1
