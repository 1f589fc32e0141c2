-- ===== src/Package/Benches/Balance.antt =====
-- block-ts/blk-proxy/fs: what the benchmarks on a file system leave.
use cns_virtblk_ts.Base.{ℕ, ◌+◌, ◌*◌, ◌≡◌, refl, arith, Bool, some}
use cns_virtblk_ts.Base.Text.{Bytes, codes}
use cns_virtblk_ts.Base.Exec.{Result, Exec, lift, ◌>>=◌, ◌>>◌}
use cns_virtblk_ts.Te.{TeLib}
use cns_virtblk_ts.Backend.{CfgLib}
use cns_virtblk_ts.Virtio.{PciLib}
use cns_virtblk_ts.Ceph.Jobs.{JobLib}
use cns_virtblk_ts.FileSystem.{FsLib}
use cns_virtblk_ts.Tools.{
  App, ToolLib, tool_start, tsapi_fsmark_start, tsapi_compilebench_print_results,
  tsapi_dbench_print_results, tsapi_iozone_print_results,
}
use cns_virtblk_ts.Tools.Create.{Make}
use cns_virtblk_ts.Tools.Owned
use cns_virtblk_ts.Tools.Balance.{compilebench-Fresh, dbench-Fresh, fsmark-Fresh, iozone-Fresh}
use cns_virtblk_ts.Fio.Options.{ParamLib}
use cns_virtblk_ts.Package.{Test, aside, reading}
use cns_virtblk_ts.Package.Owned.{Keeps, >>=-Stays, Fresh, >>=-Fresh, aside-Fresh, run_test-live}
use cns_virtblk_ts.Package.Fs.{
  ToolVars, no_tool, with_dir, PointerLib, make_tool, on_app, run_tool, iozone_timeout,
  compilebench_steps, dbench_steps, fsmark_steps, iozone_steps, destroy_tool, destroy_and_recreate,
  compilebench_test, dbench_test, fsmark_test, iozone_test,
}
use cns_virtblk_ts.Package.Benches.{
  IsBenchCount, owned, in_dir-Fresh, make_tool-Fresh, start-Keeps, fsmark_start-Keeps, print-Keeps,
  reading_app-Stays, run_tool-Stays,
}
use cns_virtblk_ts.Package.Benches.Cleanup.{destroy_tool-live, destroy_and_recreate-live}

module _ (params : ParamLib) {W : Type 0} (te : TeLib W) (cfg : CfgLib W) (pci : PciLib W)
    (jobs : JobLib W) (tools : ToolLib W) (fs : FsLib W) (pointers : PointerLib W) (live : W → ℕ)
    (count : IsBenchCount te cfg pci jobs tools fs pointers live) where
  compilebench_print-Keeps :
      (app : App) → Keeps live (tsapi_compilebench_print_results jobs tools app)
  unfolding tsapi_compilebench_print_results
  compilebench_print-Keeps app =
      print-Keeps params te cfg pci jobs tools fs pointers live count _ app

  dbench_print-Keeps : (app : App) → Keeps live (tsapi_dbench_print_results jobs tools app)
  unfolding tsapi_dbench_print_results
  dbench_print-Keeps app = print-Keeps params te cfg pci jobs tools fs pointers live count _ app

  iozone_print-Keeps : (app : App) → Keeps live (tsapi_iozone_print_results jobs tools app)
  unfolding tsapi_iozone_print_results
  iozone_print-Keeps app = print-Keeps params te cfg pci jobs tools fs pointers live count _ app

  -- A tool is made and run, and its results are printed.
  printing-Fresh :
      (dir : Bytes) (create : ℕ → Make te cfg jobs tools Unit) (ms : ℕ) (print : App → Exec W Unit)
      → ((f : ℕ) → Owned.Fresh te cfg jobs tools live (create f))
      → ((app : App) → Keeps live (print app))
      → Fresh owned live (with_dir dir no_tool) (do
        make_tool params te cfg pci jobs tools fs pointers create
        run_tool params te cfg pci jobs tools fs pointers (tool_start jobs tools) ms
        reading (λ v. on_app params te cfg pci jobs tools fs pointers print v.app))
  printing-Fresh dir create ms print k l =
      >>=-Fresh owned live (with_dir dir no_tool)
        (make_tool params te cfg pci jobs tools fs pointers create) _
        (make_tool-Fresh params te cfg pci jobs tools fs pointers live count dir create k)
        (λ _.
          >>=-Stays owned live
            (run_tool params te cfg pci jobs tools fs pointers (tool_start jobs tools) ms) _
            (run_tool-Stays params te cfg pci jobs tools fs pointers live count
              (tool_start jobs tools) ms
              (start-Keeps params te cfg pci jobs tools fs pointers live count))
            (λ _. reading_app-Stays params te cfg pci jobs tools fs pointers live count print l))

  -- A parameter.
  param-Fresh :
      {A B : Type 0} (dir : Bytes) (r : Result A) (f : A → Test ToolVars W B)
      → ((a : A) → Fresh owned live (with_dir dir no_tool) (f a))
      → Fresh owned live (with_dir dir no_tool) (aside (lift r) >>= f)
  param-Fresh dir r f k = aside-Fresh owned live (with_dir dir no_tool) (lift r) f (λ w. refl) k

  compilebench_steps-Fresh :
      (makej : Result Bool)
      → Fresh owned live no_tool (compilebench_steps params te cfg pci jobs tools fs pointers makej)
  unfolding compilebench_steps
  compilebench_steps-Fresh makej =
      in_dir-Fresh params te cfg pci jobs tools fs pointers live count _ (λ dir.
        param-Fresh dir (params.test_get_uint_param (codes "initial_dirs")) _ (λ initial_dirs.
          param-Fresh dir (params.test_get_uint_param (codes "runs")) _ (λ runs.
            param-Fresh dir makej _ (λ b.
              printing-Fresh dir _ (1200 * 1000) (tsapi_compilebench_print_results jobs tools)
                (compilebench-Fresh te cfg jobs tools live count.tools_count _)
                compilebench_print-Keeps))))

  dbench_steps-Fresh :
      Fresh owned live no_tool (dbench_steps params te cfg pci jobs tools fs pointers)
  unfolding dbench_steps
  dbench_steps-Fresh = in_dir-Fresh params te cfg pci jobs tools fs pointers live count _ (λ dir.
      param-Fresh dir (params.test_get_uint_param (codes "numclients")) _ (λ numclients.
        printing-Fresh dir _ (2 * 600 * 1000) (tsapi_dbench_print_results jobs tools)
          (dbench-Fresh te cfg jobs tools live count.tools_count _) dbench_print-Keeps))

  fsmark_steps-Fresh :
      Fresh owned live no_tool (fsmark_steps params te cfg pci jobs tools fs pointers)
  unfolding fsmark_steps
  fsmark_steps-Fresh = in_dir-Fresh params te cfg pci jobs tools fs pointers live count _ (λ dir.
      param-Fresh dir (params.test_get_uint_param (codes "numfiles")) _ (λ numfiles.
        param-Fresh dir (params.test_get_uint_param (codes "file_size")) _ (λ file_size.
          >>=-Fresh owned live (with_dir dir no_tool)
            (make_tool params te cfg pci jobs tools fs pointers _) _
            (make_tool-Fresh params te cfg pci jobs tools fs pointers live count dir _
              (fsmark-Fresh te cfg jobs tools live count.tools_count _))
            (λ _.
              run_tool-Stays params te cfg pci jobs tools fs pointers live count
                (tsapi_fsmark_start jobs tools) (120 * 1000)
                (fsmark_start-Keeps params te cfg pci jobs tools fs pointers live count)))))

  iozone_steps-Fresh :
      Fresh owned live no_tool (iozone_steps params te cfg pci jobs tools fs pointers)
  unfolding iozone_steps
  iozone_steps-Fresh = in_dir-Fresh params te cfg pci jobs tools fs pointers live count _ (λ dir.
      param-Fresh dir (params.test_get_string_param (codes "record_size")) _ (λ record_size.
        param-Fresh dir (params.test_get_string_param (codes "file_size")) _ (λ file_size.
          printing-Fresh dir _ (iozone_timeout record_size) (tsapi_iozone_print_results jobs tools)
            (iozone-Fresh te cfg jobs tools live count.tools_count _ (some dir))
            iozone_print-Keeps)))

  -- Where `live` counts the job factories, the jobs and the applications of mke2fs: each of the tests
  -- compilebench, dbench, fsmark and iozone leaves as many as there were before, whatever its parameters
  -- are, whatever step of it or of making the file system anew fails.
  pub fs_tests-balance :
      (makej : Result Bool) (w : W)
      → (live (compilebench_test params te cfg pci jobs tools fs pointers makej w).1 ≡ live w)
        × (live (dbench_test params te cfg pci jobs tools fs pointers w).1 ≡ live w)
        × (live (fsmark_test params te cfg pci jobs tools fs pointers w).1 ≡ live w)
        × (live (iozone_test params te cfg pci jobs tools fs pointers w).1 ≡ live w)
  unfolding compilebench_test dbench_test fsmark_test iozone_test
  fs_tests-balance makej w =
      let again = destroy_and_recreate params te cfg pci jobs tools fs pointers in
      let clean = λ (n : ℕ) (s : ToolVars × W).
        destroy_and_recreate-live params te cfg pci jobs tools fs pointers live count n s.0 s.1 in
      let e : live w ≡ live w + 0 + 0 = omega arith in
      (
        run_test-live owned live no_tool
            (compilebench_steps params te cfg pci jobs tools fs pointers makej) again w e
            (compilebench_steps-Fresh makej) clean,
        run_test-live owned live no_tool (dbench_steps params te cfg pci jobs tools fs pointers)
            again w e dbench_steps-Fresh clean,
        run_test-live owned live no_tool (fsmark_steps params te cfg pci jobs tools fs pointers)
            again w e fsmark_steps-Fresh clean,
        run_test-live owned live no_tool (iozone_steps params te cfg pci jobs tools fs pointers)
            (destroy_tool params te cfg pci jobs tools fs pointers) w e iozone_steps-Fresh
            (λ n s.
              destroy_tool-live params te cfg pci jobs tools fs pointers live count n s.0 s.1),
      )
