-- ===== src/Package/Benches.antt =====
-- block-ts/blk-proxy/fs: how the steps of the benchmarks on a file system change the number of job
-- factories, jobs and applications of mke2fs. Benches/Balance is what the tests leave.
pub mod Cleanup
pub mod Balance
mod Tests
use cns_virtblk_ts.Base.{
  ℕ, ◌+◌, ◌-◌, ◌≡◌, refl, sym, ◌∙◌, ap, arith, Bool, true, false, Option, none, some, List, [], ◌∷◌,
  ◌++◌, if◌then◌else◌,
}
use cns_virtblk_ts.Base.Text.{Bytes, codes}
use cns_virtblk_ts.Base.Exec.{Result, ok, err, Status, Exec, continue, pure, lift, ◌>>=◌, ◌>>◌}
use cns_virtblk_ts.Te.{TeLib}
use cns_virtblk_ts.Backend.{CfgLib}
use cns_virtblk_ts.Backend.Inventory.{append_result}
use cns_virtblk_ts.Virtio.{PciLib, tsapi_get_devices, tsapi_get_mount_dir_name}
use cns_virtblk_ts.Ceph.Jobs.{JobLib}
use cns_virtblk_ts.Ceph.Live.{succeeded}
use cns_virtblk_ts.FileSystem.{
  FsLib, command_status, fs_ts_create_filesystem, fs_ts_mount_filesystem, fs_ts_umount_filesystem,
  fs_ts_recreate_filesystem,
}
use cns_virtblk_ts.FileSystem.Balance.{IsCount, create-balance}
use cns_virtblk_ts.Tools.{
  App, ToolLib, tool_start, tool_wait, tool_destroy, tsapi_fsmark_start, printed, print_results,
  tsapi_compilebench_print_results, tsapi_dbench_print_results, tsapi_iozone_print_results,
}
use cns_virtblk_ts.Tools.Create.{Make}
use cns_virtblk_ts.Tools.Owned
use cns_virtblk_ts.Tools.Balance.{
  IsJobCount, compilebench-Fresh, dbench-Fresh, fsmark-Fresh, iozone-Fresh, destroyed-live,
}
use cns_virtblk_ts.Fio.Options.{ParamLib}
use cns_virtblk_ts.Package.{Test, aside, reading, store, finish, host_ta}
use cns_virtblk_ts.Package.Owned.{
  Owns, held, Keeps, >>=-Keeps, finish-live, Stays, reading-Stays, >>=-Stays, Fresh, >>=-Fresh,
  aside-Fresh, run_test-live, aside-either,
}
use cns_virtblk_ts.Package.Found.{appended-live, IsDeviceCount, get_devices-Keeps}
use cns_virtblk_ts.Package.Fs.{
  ToolVars, no_tool, with_dir, with_tool_factory, PointerLib, set_mount_dir, into_app, make_tool,
  on_app, run_tool, compilebench_steps, dbench_steps, fsmark_steps, iozone_steps, destroy_tool,
  on_first, recreated, recreate, destroy_and_recreate, compilebench_test, dbench_test, fsmark_test,
  iozone_test,
}

-- `live` counts the job factories, the jobs and the applications of mke2fs.
pub record IsBenchCount {W : Type 0} (te : TeLib W) (cfg : CfgLib W) (pci : PciLib W)
    (jobs : JobLib W) (tools : ToolLib W) (fs : FsLib W) (pointers : PointerLib W) (live : W → ℕ)
    : Type 0 where
  pub tools_count : IsJobCount te cfg jobs tools live
  pub fs_count : IsCount jobs fs live
  pub devices : IsDeviceCount te pci live
  pub no_factory : (w : W) → live (jobs.tapi_job_factory_destroy none w) ≡ live w
  pub clear_keeps : (f : Option ℕ) → Keeps live (tools.tapi_job_clear f)
  pub receive_keeps : (f : Option ℕ) (ms : ℕ) → Keeps live (jobs.tapi_job_receive f ms)
  pub ring_keeps : (text : Bytes) (w : W) → live (tools.ring text w) ≡ live w
  pub system_keeps : (s : Bytes) (w : W) → live (fs.rpc_system_ex s w).2 ≡ live w
  pub null_keeps : Keeps live pointers.null_pointer
  pub unset_keeps : Keeps live pointers.unset_blocks

-- What the variables hold.
abbrev pub owned : ℕ → ToolVars → ℕ
owned n v = n + held v.factory + held v.app

module _ (params : ParamLib) {W : Type 0} (te : TeLib W) (cfg : CfgLib W) (pci : PciLib W)
    (jobs : JobLib W) (tools : ToolLib W) (fs : FsLib W) (pointers : PointerLib W) (live : W → ℕ)
    (count : IsBenchCount te cfg pci jobs tools fs pointers live) where
  dir_name-Keeps : Keeps live (tsapi_get_mount_dir_name te cfg pci host_ta 0)
  unfolding tsapi_get_mount_dir_name
  dir_name-Keeps =
      >>=-Keeps live (cfg.cfg_get_instance_fmt _) _ (count.tools_count.get_keeps _) (λ prefix w.
        appended-live live (te.te_string_append [] (prefix ++ cfg.decimal 0) w)
        ∙ count.tools_count.append_keeps [] (prefix ++ cfg.decimal 0) w)

  -- The directory of a test that has nothing else yet.
  pub in_dir-Fresh :
      (f : Bytes → Test ToolVars W Unit)
      → ((dir : Bytes) → Fresh owned live (with_dir dir no_tool) (f dir))
      → Fresh owned live no_tool (set_mount_dir params te cfg pci jobs tools fs pointers >>= f)
  unfolding set_mount_dir
  in_dir-Fresh f k n w h =
      let m = tsapi_get_mount_dir_name te cfg pci host_ta 0 in
      by_result (m w).0 (m w).1 (dir_name-Keeps w ∙ h)
    where
      by_result :
          (r : Result Bytes) (w' : W)
          → live w' ≡ n + 0 + 0
          → Owns owned live n
              ((((λ (s : ToolVars × W). (r, (no_tool, w'))) >>= λ dir.
                    store (with_dir dir) >>= λ _. pure dir)
                  >>= f)
                (no_tool, w)).1
      by_result (ok dir) w' e = k dir n w' e
      by_result (err x) w' e = e

  -- What a benchmark that is made from its factory holds.
  into_app-live :
      (dir : Option Bytes) (f n : ℕ) (m : Make te cfg jobs tools Unit) (w : W)
      → Owned.Fresh te cfg jobs tools live m
      → live w ≡ n + 1
      → live (m (none, w)).1.1 ≡ n + 1 + held (m (none, w)).1.0
  into_app-live dir f n m w k h = by_app (m (none, w)).1.0 (m (none, w)).1.1 (k w)
    where
      by_app :
          (app : Option App) (w' : W)
          → live w' ≡ Owned.with_own te cfg jobs tools live (live w) app
          → live w' ≡ n + 1 + held app
      by_app none w' e = omega (arith, e, h)
      by_app (some app) w' e = omega (arith, e, h)

  pub make_tool-Fresh :
      (dir : Bytes) (create : ℕ → Make te cfg jobs tools Unit)
      → ((f : ℕ) → Owned.Fresh te cfg jobs tools live (create f))
      → Fresh owned live
          (with_dir dir no_tool)
          (make_tool params te cfg pci jobs tools fs pointers create)
  unfolding make_tool
  make_tool-Fresh dir create k n w h =
      aside-either owned live jobs.tapi_job_factory_rpc_create _ n (with_dir dir no_tool) w
        (λ f w' e.
          into_app-live (some dir) f n (create f) w' (k f) (omega (arith, made (ok f) w' e, h)))
        (λ x w' e. made (err x) w' e ∙ h)
    where
      made :
          (r : Result ℕ) (w' : W)
          → jobs.tapi_job_factory_rpc_create w ≡ (r, w')
          → live w' ≡ (if succeeded r then live w + 1 else live w)
      made r w' e =
          ap (λ p. live p.1) (sym e)
          ∙ count.fs_count.factory_made w
          ∙ ap (λ p. if succeeded p.0 then live w + 1 else live w) e

  on_app-Keeps :
      (m : App → Exec W Unit)
      → ((app : App) → Keeps live (m app))
      → (v : Option App) → Keeps live (on_app params te cfg pci jobs tools fs pointers m v)
  on_app-Keeps m k none = count.null_keeps
  on_app-Keeps m k (some app) = k app

  pub start-Keeps : (app : App) → Keeps live (tool_start jobs tools app)
  unfolding tool_start
  start-Keeps app =
      >>=-Keeps live (tools.tapi_job_clear app.results_filter) _
        (count.clear_keeps app.results_filter) (λ _. count.fs_count.start_keeps (some app.job))

  pub fsmark_start-Keeps : (app : App) → Keeps live (tsapi_fsmark_start jobs tools app)
  unfolding tsapi_fsmark_start
  fsmark_start-Keeps app = count.fs_count.start_keeps (some app.job)

  wait-Keeps : (ms : ℕ) (app : App) → Keeps live (tool_wait jobs tools app ms)
  unfolding tool_wait
  wait-Keeps ms app =
      >>=-Keeps live (jobs.tapi_job_wait (some app.job) ms) _
        (count.fs_count.wait_keeps (some app.job) ms) (λ status w. refl)

  printed-live :
      (title : Bytes) (r : Result (Bool × Bytes) × W)
      → live (printed jobs tools title r).1 ≡ live r.1
  printed-live title (err e, w) = refl
  printed-live title (ok (true, text), w) = refl
  printed-live title (ok (false, text), w) = count.ring_keeps (title ++ text) w

  pub print-Keeps : (title : Bytes) (app : App) → Keeps live (print_results jobs tools title app)
  unfolding print_results
  print-Keeps title app w =
      printed-live title (jobs.tapi_job_receive app.results_filter 1000 w)
      ∙ count.receive_keeps app.results_filter 1000 w

  pub reading_app-Stays :
      (m : App → Exec W Unit)
      → ((app : App) → Keeps live (m app))
      → Stays owned live (reading (λ v. on_app params te cfg pci jobs tools fs pointers m v.app))
  reading_app-Stays m k =
      reading-Stays owned live (λ v. on_app params te cfg pci jobs tools fs pointers m v.app)
        (λ v. on_app-Keeps m k v.app)

  pub run_tool-Stays :
      (start : App → Exec W Unit) (ms : ℕ)
      → ((app : App) → Keeps live (start app))
      → Stays owned live (run_tool params te cfg pci jobs tools fs pointers start ms)
  unfolding run_tool
  run_tool-Stays start ms k =
      >>=-Stays owned live
        (reading (λ v. on_app params te cfg pci jobs tools fs pointers start v.app)) _
        (reading_app-Stays start k)
        (λ _. reading_app-Stays (λ app. tool_wait jobs tools app ms) (wait-Keeps ms))
