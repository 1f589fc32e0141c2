-- ===== src/Package/XfsSuite.antt =====
-- block-ts/blk-proxy/xfs: the XFS test suite on two devices; block-ts/blk-proxy/mke2fs/mke2fs.c.
use cns_virtblk_ts.Base.{
  ℕ, suc, ◌*◌, ◌%◌, ◌==◌, ltb, Bool, true, false, Option, none, some, List, [], ◌∷◌, ◌++◌,
  if◌then◌else◌,
}
use cns_virtblk_ts.Base.Text.{Bytes, codes}
use cns_virtblk_ts.Base.Exec.{
  Result, ok, err, efail, enomem, Status, Exec, pure, raise, lift, ◌>>=◌, ◌>>◌,
}
use cns_virtblk_ts.Te.{TeLib}
use cns_virtblk_ts.Backend.{CfgLib}
use cns_virtblk_ts.Backend.Inventory.{append_result}
use cns_virtblk_ts.Virtio.{
  PciLib, tsapi_get_devices, tsapi_create_mount_dir, tsapi_remove_mount_dir,
}
use cns_virtblk_ts.Ceph.Jobs.{JobLib}
use cns_virtblk_ts.FileSystem.{FsLib, mke2fs_ts_check_fs}
use cns_virtblk_ts.FileSystem.Xfs.{
  Suite, xfs_test_suite_init, xfs_test_suite_start, xfs_test_suite_wait, xfs_test_suite_destroy,
  xfs_test_suite_make_xfs,
}
use cns_virtblk_ts.Fio.Options.{ParamLib}
use cns_virtblk_ts.Package.{Test, aside, reading, store, run_test, host_ta}

abbrev pub fail_without : Option Bytes → {W : Type 0} → Exec W Unit
fail_without none = raise efail
fail_without (some dir) = pure tt

-- XFS_TEST_SUITE_DEFAULT; a device that is NULL is the empty text.
abbrev pub xfs_default : Suite
xfs_default = record {
  job = none;
  factory = none;
  group = none;
  name = none;
  test_dev = [];
  test_dir = [];
  scratch_dev = [];
  scratch_dir = [];
}

abbrev pub with_device : ℕ → Bytes → Bytes → Suite → Suite
with_device index dir dev s =
    if index % 2 == 0
    then record s { test_dir = dir; test_dev = dev }
    else record s { scratch_dir = dir; scratch_dev = dev }

module _ {W : Type 0} (te : TeLib W) (cfg : CfgLib W) (pci : PciLib W) (jobs : JobLib W)
    (fs : FsLib W) where
  unfoldable pub make_each : ℕ → List Bytes → Exec W Unit
  make_each i [] = pure tt
  make_each i (block ∷ blocks) = do
    xfs_test_suite_make_xfs te jobs fs block
    tsapi_create_mount_dir te cfg pci host_ta i
    make_each (suc i) blocks

  -- main() of xfs/prologue.c, from the RPC server on.
  unfoldable pub xfs_prologue : Exec W Unit
  xfs_prologue = do
    fail_without (te.getenv (codes "XFS_TS_DIR"))
    found ← tsapi_get_devices te cfg pci host_ta
    make_each 0 found.0

  unfoldable pub remove_each : ℕ → List Bytes → Exec W Unit
  remove_each i [] = pure tt
  remove_each i (block ∷ blocks) =
      tsapi_remove_mount_dir te cfg pci host_ta i >> remove_each (suc i) blocks

  unfoldable pub xfs_epilogue : Exec W Unit
  xfs_epilogue = tsapi_get_devices te cfg pci host_ta >>= λ found. remove_each 0 found.0

  abbrev copy_block : Bytes → Bool × W → Result Bytes × W
  copy_block block (true, w) = (ok block, w)
  copy_block block (false, w) = (err enomem, w)

  unfoldable pub prepare_xfs : Bytes → ℕ → Test Suite W Unit
  prepare_xfs block index = do
    dir ←
        aside
          (λ w. append_result (te.te_string_append [] (codes "/tmp/disk" ++ cfg.decimal index) w))
    blk ← aside (λ w. copy_block block (te.strdup w))
    store (with_device index dir blk)

  -- The loop, for at least two devices.
  unfoldable pub prepare_each : ℕ → List Bytes → Test Suite W Unit
  prepare_each i [] = pure tt
  prepare_each i (block ∷ blocks) = prepare_xfs block i >> prepare_each (suc i) blocks

  unfoldable pub xfs_steps : Bytes → Bytes → Bytes → List Bytes → Test Suite W Unit
  xfs_steps xfs_dir group name blocks = do
    prepare_each 0 blocks
    xfs_test_suite_init te jobs fs cfg.null_text xfs_dir group name
    xfs_test_suite_start te jobs fs
    xfs_test_suite_wait te jobs fs 300

  abbrev pub destroy_suite : Suite → Exec W Unit
  destroy_suite s w = let (r, (s', w')) = xfs_test_suite_destroy te jobs fs (s, w) in (r, w')

  -- For less than two devices the test is skipped; the verdict is not kept.
  unfoldable pub xfs_on : Bytes → Bytes → Bytes → List Bytes × ℕ → Test Suite W Unit
  xfs_on xfs_dir group name found =
      if ltb found.1 2 then pure tt else xfs_steps xfs_dir group name found.0

  -- main() of xfs/xfs.c, from its parameters on.
  unfoldable pub xfs_test : Bytes → Bytes → Exec W Unit
  xfs_test group name =
      run_test xfs_default
        (do
          xfs_dir ← aside (cfg.cfg_get_instance_fmt (codes "/agent:" ++ host_ta ++ codes "/dir:"))
          found ← aside (tsapi_get_devices te cfg pci host_ta)
          xfs_on xfs_dir group name found)
        destroy_suite

-- tapi_mke2fs_opt, as far as the test sets it.
pub record Mke2fsOpts : Type 0 where
  pub device : Bytes
  pub block_size : ℕ
  pub use_journal : Bool
  pub fs_type : Bytes

pub record Mke2fsLib (W : Type 0) : Type 0 where
  -- tapi_mke2fs_do() with a timeout: the status, and the application that it leaves
  pub tapi_mke2fs_do : ℕ → Mke2fsOpts → ℕ → W → Status × Option ℕ × W
  pub null_pointer : Exec W Unit

-- The factory and the application; `none` is NULL.
pub record Mke2fsVars : Type 0 where
  pub factory : Option ℕ
  pub app : Option ℕ

abbrev pub no_mke2fs : Mke2fsVars
no_mke2fs = record { factory = none; app = none }

abbrev pub with_mke2fs_factory : ℕ → Mke2fsVars → Mke2fsVars
with_mke2fs_factory f v = record v { factory = some f }

abbrev pub with_mke2fs_app : Option ℕ → Mke2fsVars → Mke2fsVars
with_mke2fs_app app v = record v { app = app }

module _ (params : ParamLib) {W : Type 0} (te : TeLib W) (cfg : CfgLib W) (pci : PciLib W)
    (jobs : JobLib W) (fs : FsLib W) (mke2fs : Mke2fsLib W) where
  unfoldable pub do_mke2fs : ℕ → Mke2fsOpts → Test Mke2fsVars W Unit
  do_mke2fs factory opt (v, w) =
      let (r, app, w') = mke2fs.tapi_mke2fs_do factory opt (600 * 1000) w in
      (r, (with_mke2fs_app app v, w'))

  -- From the factory on.
  unfoldable pub make_and_check : Mke2fsOpts → Test Mke2fsVars W Unit
  make_and_check opt = do
    factory ← aside jobs.tapi_job_factory_rpc_create
    store (with_mke2fs_factory factory)
    do_mke2fs factory opt
    reading (λ v. mke2fs_ts_check_fs jobs fs factory v.app (some opt.fs_type) opt.device (2 * 1000))

  unfoldable pub mke2fs_on : Result Bool → List Bytes → Test Mke2fsVars W Unit
  mke2fs_on journal [] = aside mke2fs.null_pointer
  mke2fs_on journal (device ∷ blocks) = do
    block_size ← aside (lift (params.test_get_uint_param (codes "block_size")))
    use_journal ← aside (lift journal)
    fs_type ← aside (lift (params.test_get_string_param (codes "fs_type")))
    make_and_check (record {
      device = device;
      block_size = block_size;
      use_journal = use_journal;
      fs_type = fs_type;
    })

  unfoldable pub destroy_mke2fs : Mke2fsVars → Exec W Unit
  destroy_mke2fs v w =
      let (r, w') = fs.tapi_mke2fs_destroy v.app w in
      (r, jobs.tapi_job_factory_destroy v.factory w')

  -- main() of mke2fs/mke2fs.c, from the RPC server on.
  unfoldable pub mke2fs_test : Result Bool → Exec W Unit
  mke2fs_test journal =
      run_test no_mke2fs
        (do found ← aside (tsapi_get_devices te cfg pci host_ta); mke2fs_on journal found.0)
        destroy_mke2fs
