-- ===== src/Package/Benches/Cleanup.antt =====
-- block-ts/blk-proxy/fs: how the label `cleanup` of the benchmarks changes the count.
use cns_virtblk_ts.Base.{ℕ, ◌+◌, ◌≡◌, refl, ◌∙◌, arith, Option, none, some, List, [], ◌∷◌, ◌++◌}
use cns_virtblk_ts.Base.Text.{Bytes, codes}
use cns_virtblk_ts.Base.Exec.{Result, ok, err, Exec}
use cns_virtblk_ts.Te.{TeLib}
use cns_virtblk_ts.Backend.{CfgLib}
use cns_virtblk_ts.Virtio.{PciLib, tsapi_get_devices}
use cns_virtblk_ts.Ceph.Jobs.{JobLib}
use cns_virtblk_ts.FileSystem.{
  FsLib, command_status, fs_ts_create_filesystem, fs_ts_mount_filesystem, fs_ts_umount_filesystem,
  fs_ts_recreate_filesystem,
}
use cns_virtblk_ts.FileSystem.Balance.{create-balance}
use cns_virtblk_ts.Tools.{App, ToolLib, tool_destroy}
use cns_virtblk_ts.Tools.Owned
use cns_virtblk_ts.Tools.Balance.{destroyed-live}
use cns_virtblk_ts.Fio.Options.{ParamLib}
use cns_virtblk_ts.Package.{host_ta}
use cns_virtblk_ts.Package.Owned.{held, Keeps, >>=-Keeps, finish-live}
use cns_virtblk_ts.Package.Found.{get_devices-Keeps}
use cns_virtblk_ts.Package.Fs.{
  ToolVars, PointerLib, destroy_tool, on_first, recreated, recreate, destroy_and_recreate,
}
use cns_virtblk_ts.Package.Benches.{IsBenchCount, owned}

module _ (params : ParamLib) {W : Type 0} (te : TeLib W) (cfg : CfgLib W) (pci : PciLib W)
    (jobs : JobLib W) (tools : ToolLib W) (fs : FsLib W) (pointers : PointerLib W) (live : W → ℕ)
    (count : IsBenchCount te cfg pci jobs tools fs pointers live) where
  command-Keeps : (s : Bytes) → Keeps live (λ w. command_status jobs fs (fs.rpc_system_ex s w))
  command-Keeps s w = count.system_keeps s w

  recreate_fs-Keeps :
      (device dir : Bytes) → Keeps live (fs_ts_recreate_filesystem jobs fs device dir)
  unfolding fs_ts_recreate_filesystem fs_ts_umount_filesystem fs_ts_mount_filesystem
  recreate_fs-Keeps device dir =
      >>=-Keeps live (fs_ts_umount_filesystem jobs fs dir) _
        (command-Keeps (codes "umount " ++ dir))
        (λ _.
          >>=-Keeps live (fs_ts_create_filesystem jobs fs device) _
            (create-balance jobs fs live count.fs_count device)
            (λ _. command-Keeps (codes "mount " ++ device ++ b' ' ∷ dir)))

  on_first-Keeps :
      (blocks : List Bytes) (m : Bytes → Exec W Unit)
      → ((b : Bytes) → Keeps live (m b))
      → Keeps live (on_first params te cfg pci jobs tools fs pointers blocks m)
  on_first-Keeps [] m k = count.null_keeps
  on_first-Keeps (b ∷ blocks) m k = k b

  recreated-live :
      (dir : Option Bytes) (r : Result (List Bytes × ℕ) × W)
      → live (recreated params te cfg pci jobs tools fs pointers dir r).1 ≡ live r.1
  recreated-live dir (err e, w) = count.unset_keeps w
  recreated-live dir (ok found, w) = on_first-Keeps found.0 _ (λ b. recreate_fs-Keeps b _) w

  recreate-Keeps :
      (dir : Option Bytes) → Keeps live (recreate params te cfg pci jobs tools fs pointers dir)
  unfolding recreate
  recreate-Keeps dir w =
      recreated-live dir (tsapi_get_devices te cfg pci host_ta w)
      ∙ get_devices-Keeps te cfg pci live count.devices host_ta w

  pub destroy_tool-live :
      (n : ℕ) (v : ToolVars) (w : W)
      → live w ≡ owned n v
      → live (destroy_tool params te cfg pci jobs tools fs pointers v w).1 ≡ n
  unfolding destroy_tool
  destroy_tool-live n v w h = by_factory v.factory (tool_destroy jobs tools v.app w).1 destroyed
    where
      own_app :
          (app : Option App)
          → n + held v.factory + held app
            ≡ Owned.with_own te cfg jobs tools live (n + held v.factory) app
      own_app none = omega arith
      own_app (some app) = refl

      destroyed : live (tool_destroy jobs tools v.app w).1 ≡ n + held v.factory
      destroyed =
          destroyed-live te cfg jobs tools live count.tools_count (n + held v.factory) v.app w
            (h ∙ own_app v.app)

      by_factory :
          (f : Option ℕ) (w' : W)
          → live w' ≡ n + held f
          → live (jobs.tapi_job_factory_destroy f w') ≡ n
      by_factory none w' e = omega (arith, count.no_factory w', e)
      by_factory (some f) w' e = omega (arith, count.fs_count.factory_destroyed f w', e)

  pub destroy_and_recreate-live :
      (n : ℕ) (v : ToolVars) (w : W)
      → live w ≡ owned n v
      → live (destroy_and_recreate params te cfg pci jobs tools fs pointers v w).1 ≡ n
  unfolding destroy_and_recreate
  destroy_and_recreate-live n v w h =
      let (r, w1) = destroy_tool params te cfg pci jobs tools fs pointers v w in
      finish-live live r (recreate params te cfg pci jobs tools fs pointers v.mount_dir w1)
      ∙ recreate-Keeps v.mount_dir w1
      ∙ destroy_tool-live n v w h
