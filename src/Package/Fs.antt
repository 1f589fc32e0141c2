-- ===== src/Package/Fs.antt =====
-- block-ts/blk-proxy/fs: the prologue, the benchmarks on a file system, and the epilogue;
-- block-ts/blk-proxy/mke2fs/mke2fs.c.
use cns_virtblk_ts.Base.{ℕ, ◌*◌, Bool, true, Option, none, some, List, [], ◌∷◌, if◌then◌else◌}
use cns_virtblk_ts.Base.Text.{Bytes, codes, strcmp}
use cns_virtblk_ts.Base.Exec.{Result, ok, err, Status, Exec, pure, lift, ◌>>=◌, ◌>>◌}
use cns_virtblk_ts.Te.{TeLib}
use cns_virtblk_ts.Backend.{CfgLib}
use cns_virtblk_ts.Virtio.{
  PciLib, tsapi_get_devices, tsapi_get_mount_dir_name, tsapi_create_mount_dir,
  tsapi_remove_mount_dir,
}
use cns_virtblk_ts.Ceph.Jobs.{JobLib}
use cns_virtblk_ts.FileSystem.{
  FsLib, fs_ts_create_filesystem, fs_ts_mount_filesystem, fs_ts_umount_filesystem,
  fs_ts_recreate_filesystem,
}
use cns_virtblk_ts.Tools.{
  App, ToolLib, tool_start, tool_wait, tool_destroy, tsapi_fsmark_start,
  tsapi_compilebench_print_results, tsapi_dbench_print_results, tsapi_iozone_print_results,
}
use cns_virtblk_ts.Tools.Create.{
  Make, tsapi_compilebench_create, tsapi_dbench_create, tsapi_fsmark_create, tsapi_iozone_create,
}
use cns_virtblk_ts.Fio.Options.{ParamLib}
use cns_virtblk_ts.Package.{Test, aside, reading, store, finish, run_test, host_ta}

-- The variables of a test of a benchmark; `none` is NULL.
pub record ToolVars : Type 0 where
  pub mount_dir : Option Bytes
  pub factory : Option ℕ
  pub app : Option App

abbrev pub no_tool : ToolVars
no_tool = record { mount_dir = none; factory = none; app = none }

abbrev pub with_dir : Bytes → ToolVars → ToolVars
with_dir dir v = record v { mount_dir = some dir }

abbrev pub with_tool_factory : ℕ → ToolVars → ToolVars
with_tool_factory f v = record v { factory = some f }

abbrev pub with_tool : Option App → ToolVars → ToolVars
with_tool app v = record v { app = app }

-- What a test does with a NULL pointer, and with the names of the devices where they have not been set.
pub record PointerLib (W : Type 0) : Type 0 where
  pub null_pointer : Exec W Unit
  pub unset_blocks : Exec W Unit

-- IOZONE_TIMEOUT_DEFAULT_S and IOZONE_TIMEOUT_MAX_S, in milliseconds
abbrev pub iozone_timeout : Bytes → ℕ
iozone_timeout record_size = if strcmp record_size (codes "4k") then 60000 * 1000 else 6000 * 1000

module _ (params : ParamLib) {W : Type 0} (te : TeLib W) (cfg : CfgLib W) (pci : PciLib W)
    (jobs : JobLib W) (tools : ToolLib W) (fs : FsLib W) (pointers : PointerLib W) where
  open params use {test_get_uint_param, test_get_string_param}
  open jobs use {tapi_job_factory_rpc_create, tapi_job_factory_destroy}
  open pointers use {null_pointer, unset_blocks}

  abbrev pub Tool : Type 0 → Type 0
  Tool A = Test ToolVars W A

  unfoldable pub set_mount_dir : Tool Bytes
  set_mount_dir = do
    mount_dir ← aside (tsapi_get_mount_dir_name te cfg pci host_ta 0)
    store (with_dir mount_dir)
    pure mount_dir

  abbrev pub into_app : Make te cfg jobs tools Unit → Tool Unit
  into_app m (v, w) = let (r, (app, w')) = m (v.app, w) in (r, (with_tool app v, w'))

  unfoldable pub make_tool : (ℕ → Make te cfg jobs tools Unit) → Tool Unit
  make_tool create = do
    factory ← aside tapi_job_factory_rpc_create
    store (with_tool_factory factory)
    into_app (create factory)

  abbrev pub on_app : (App → Exec W Unit) → Option App → Exec W Unit
  on_app m none = null_pointer
  on_app m (some app) = m app

  unfoldable pub run_tool : (App → Exec W Unit) → ℕ → Tool Unit
  run_tool start timeout_ms = do
    reading (λ v. on_app start v.app)
    reading (λ v. on_app (λ app. tool_wait jobs tools app timeout_ms) v.app)

  abbrev pub uint_param : Bytes → Tool ℕ
  uint_param name = aside (lift (test_get_uint_param name))

  -- main() of compilebench.c; a parameter that is an enumeration is given with its error.
  unfoldable pub compilebench_steps : Result Bool → Tool Unit
  compilebench_steps makej_param = do
    mount_dir ← set_mount_dir
    initial_dirs ← uint_param (codes "initial_dirs")
    runs ← uint_param (codes "runs")
    makej ← aside (lift makej_param)
    make_tool (
        tsapi_compilebench_create te cfg jobs tools (record {
          buf_size = none;
          initial_dirs = some initial_dirs;
          runs = some runs;
          makej = makej;
          working_dir = some mount_dir;
          sources_dir = none;
        }))
    run_tool (tool_start jobs tools) (1200 * 1000)
    reading (λ v. on_app (tsapi_compilebench_print_results jobs tools) v.app)

  unfoldable pub dbench_steps : Tool Unit
  dbench_steps = do
    mount_dir ← set_mount_dir
    numclients ← uint_param (codes "numclients")
    make_tool (
        tsapi_dbench_create te cfg jobs tools (record {
          client_txt_location = none;
          runtime = none;
          working_dir = some mount_dir;
          numclients = some numclients;
        }))
    run_tool (tool_start jobs tools) (2 * 600 * 1000)
    reading (λ v. on_app (tsapi_dbench_print_results jobs tools) v.app)

  unfoldable pub fsmark_steps : Tool Unit
  fsmark_steps = do
    mount_dir ← set_mount_dir
    numfiles ← uint_param (codes "numfiles")
    file_size ← uint_param (codes "file_size")
    make_tool (
        tsapi_fsmark_create te cfg jobs tools (record {
          numfiles = some numfiles;
          file_size = some file_size;
          working_dir = some mount_dir;
        }))
    run_tool (tsapi_fsmark_start jobs tools) (120 * 1000)

  unfoldable pub iozone_steps : Tool Unit
  iozone_steps = do
    mount_dir ← set_mount_dir
    record_size ← aside (lift (test_get_string_param (codes "record_size")))
    file_size ← aside (lift (test_get_string_param (codes "file_size")))
    make_tool (λ factory.
        tsapi_iozone_create te cfg jobs tools
          (record {
            sync_writes = true;
            record_size = some record_size;
            file_size = some file_size;
            file_under_test = none;
          })
          (some mount_dir) factory)
    run_tool (tool_start jobs tools) (iozone_timeout record_size)
    reading (λ v. on_app (tsapi_iozone_print_results jobs tools) v.app)

  -- The label `cleanup`, whose later steps are done also where an earlier one fails.
  unfoldable pub destroy_tool : ToolVars → Exec W Unit
  destroy_tool v w =
      let (r, w1) = tool_destroy jobs tools v.app w in (r, tapi_job_factory_destroy v.factory w1)

  abbrev pub shown_dir : Option Bytes → Bytes
  shown_dir none = cfg.null_text
  shown_dir (some dir) = dir

  abbrev pub on_first : List Bytes → (Bytes → Exec W Unit) → Exec W Unit
  on_first [] m = null_pointer
  on_first (block ∷ blocks) m = m block

  abbrev pub recreated : Option Bytes → Result (List Bytes × ℕ) × W → Status × W
  recreated mount_dir (err e, w) = finish (err e) (unset_blocks w)
  recreated mount_dir (ok found, w) =
      on_first found.0 (λ b. fs_ts_recreate_filesystem jobs fs b (shown_dir mount_dir)) w

  unfoldable pub recreate : Option Bytes → Exec W Unit
  recreate mount_dir w = recreated mount_dir (tsapi_get_devices te cfg pci host_ta w)

  unfoldable pub destroy_and_recreate : ToolVars → Exec W Unit
  destroy_and_recreate v w = let (r, w1) = destroy_tool v w in finish r (recreate v.mount_dir w1)

  -- main() of each benchmark, from the RPC server on.
  unfoldable pub compilebench_test : Result Bool → Exec W Unit
  compilebench_test makej = run_test no_tool (compilebench_steps makej) destroy_and_recreate

  unfoldable pub dbench_test : Exec W Unit
  dbench_test = run_test no_tool dbench_steps destroy_and_recreate

  unfoldable pub fsmark_test : Exec W Unit
  fsmark_test = run_test no_tool fsmark_steps destroy_and_recreate

  unfoldable pub iozone_test : Exec W Unit
  iozone_test = run_test no_tool iozone_steps destroy_tool

  -- main() of fs/prologue.c, from the RPC server on.
  unfoldable pub fs_prologue : Exec W Unit
  fs_prologue = do
    found ← tsapi_get_devices te cfg pci host_ta
    on_first found.0 (fs_ts_create_filesystem jobs fs)
    mount_dir ← tsapi_get_mount_dir_name te cfg pci host_ta 0
    tsapi_create_mount_dir te cfg pci host_ta 0
    on_first found.0 (λ b. fs_ts_mount_filesystem jobs fs b mount_dir)

  unfoldable pub fs_epilogue : Exec W Unit
  fs_epilogue = do
    mount_dir ← tsapi_get_mount_dir_name te cfg pci host_ta 0
    fs_ts_umount_filesystem jobs fs mount_dir
    tsapi_remove_mount_dir te cfg pci host_ta 0
