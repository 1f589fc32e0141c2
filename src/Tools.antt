-- ===== src/Tools.antt =====
-- block-ts/lib/tool: the benchmarks compilebench, dbench, fs_mark and iozone. What they share is
-- block-ts/lib/tool/ts-tool.h; Tools/Create is how each of them is made.
pub mod Create
pub mod Owned
pub mod Balance
mod Tests
use cns_virtblk_ts.Base.{
  ℕ, ◌==◌, Bool, true, false, ◌&&◌, Option, none, some, List, [], ◌∷◌, ◌++◌, if◌then◌else◌,
}
use cns_virtblk_ts.Base.Text.{Bytes, codes}
use cns_virtblk_ts.Base.Exec.{
  Result, ok, err, efail, enomem, eshcmd, Status, Exec, pure, raise, lift, ◌>>=◌, ◌>>◌,
}
use cns_virtblk_ts.Ceph.Jobs.{JobLib, JobStatus}
use cns_virtblk_ts.FileSystem.{is_done}

-- An option of a tool: a flag, a text, or a number that may be omitted (TAPI_JOB_OPT_OMIT_UINT), which
-- may stand without a prefix.
pub data ToolBind : Type 0 where
  opt_bool : Bytes → Bool → ToolBind
  opt_string : Bytes → Option Bytes → ToolBind
  opt_uint_omittable : Option Bytes → Option ℕ → ToolBind

-- The handle of a tool, with its stdout; `none` is NULL.
pub record App : Type 0 where
  pub job : ℕ
  pub out : ℕ
  pub results_filter : Option ℕ

-- What the tools call beside the jobs of JobLib.
pub record ToolLib (W : Type 0) : Type 0 where
  -- whether TE_ALLOC() found memory
  pub te_alloc : W → Bool × W
  -- tapi_job_opt_build_args(), whose vector tapi_job_simple_create() takes
  pub tapi_job_opt_build_args : Bytes → List ToolBind → Exec W (List Bytes)
  -- the job and the channel of its stdout, with an expression for what is logged of its stderr
  pub tapi_job_simple_create : ℕ → List Bytes → Option Bytes → Exec W (ℕ × ℕ)
  pub cfg_get_instance_sync_fmt : Bytes → Exec W Bytes
  -- the agent of a factory; `none` is NULL
  pub tapi_job_factory_ta : ℕ → Option Bytes
  pub tapi_job_clear : Option ℕ → Exec W Unit
  -- tapi_job_kill() for a signal, and tapi_job_stop() for SIGTERM with a timeout
  pub tapi_job_kill : ℕ → ℕ → Exec W Unit
  pub tapi_job_stop : ℕ → ℕ → Exec W Unit
  -- TAPI_JOB_CHECK_STATUS(): the error of a status, where it is one
  pub check_status : JobStatus → Status
  -- RING() with a text
  pub ring : Bytes → W → W

module _ {W : Type 0} (jobs : JobLib W) (lib : ToolLib W) where
  open jobs use {tapi_job_start, tapi_job_wait, tapi_job_destroy, tapi_job_receive}
  open lib use {
    te_alloc, tapi_job_opt_build_args, tapi_job_simple_create, tapi_job_clear, tapi_job_kill,
    tapi_job_stop, check_status, ring,
  }

  abbrev pub app_allocated : Bool × W → Status × W
  app_allocated (true, w) = (ok tt, w)
  app_allocated (false, w) = (err enomem, w)

  -- TS_TOOL_DEF_CREATE
  unfoldable pub create_common : Bytes → List ToolBind → Option Bytes → ℕ → Exec W App
  create_common bin binds stderr_re factory = do
    (λ w. app_allocated (te_alloc w))
    args ← tapi_job_opt_build_args bin binds
    made ← tapi_job_simple_create factory args stderr_re
    pure (record { job = made.0; out = made.1; results_filter = none })

  -- TS_TOOL_DEF_WAIT
  unfoldable pub tool_wait : App → ℕ → Exec W Unit
  tool_wait app timeout_ms =
      tapi_job_wait (some app.job) timeout_ms >>= λ status. lift (check_status status)

  -- TS_TOOL_DEF_KILL
  unfoldable pub tool_kill : App → ℕ → Exec W Unit
  tool_kill app signum = tapi_job_kill app.job signum

  -- TS_TOOL_DEF_STOP, where each tool has a timeout of a second
  unfoldable pub tool_stop : App → Exec W Unit
  tool_stop app = tapi_job_stop app.job 1000

  -- TS_TOOL_DEF_DESTROY
  unfoldable pub tool_destroy : Option App → Exec W Unit
  tool_destroy none w = (ok tt, w)
  tool_destroy (some app) w = tapi_job_destroy (some app.job) 1000 w

  -- tsapi_compilebench_start() and the same for dbench and iozone.
  unfoldable pub tool_start : App → Exec W Unit
  tool_start app = tapi_job_clear app.results_filter >> tapi_job_start (some app.job)

  unfoldable pub tsapi_fsmark_start : App → Exec W Unit
  tsapi_fsmark_start app = tapi_job_start (some app.job)

  abbrev pub printed : Bytes → Result (Bool × Bytes) × W → Status × W
  printed title (err e, w) = (err e, w)
  printed title (ok (true, text), w) = (err efail, w)
  printed title (ok (false, text), w) = (ok tt, ring (title ++ text) w)

  -- What the three print_results functions share, for the title of each.
  unfoldable pub print_results : Bytes → App → Exec W Unit
  print_results title app w = printed title (tapi_job_receive app.results_filter 1000 w)

  unfoldable pub tsapi_compilebench_print_results : App → Exec W Unit
  tsapi_compilebench_print_results app = print_results (codes "Compilebench results:\n") app

  unfoldable pub tsapi_dbench_print_results : App → Exec W Unit
  tsapi_dbench_print_results app = print_results (codes "Dbench results:\n") app

  unfoldable pub tsapi_iozone_print_results : App → Exec W Unit
  tsapi_iozone_print_results app =
      print_results
        (codes "IOzone results:\nkB reclen write rewrite read reread random_read "
          ++ codes
              "random_write bkwd_read record_rewrite stride_read fwrite frewrite fread freread\n")
        app
