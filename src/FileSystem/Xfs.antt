-- ===== src/FileSystem/Xfs.antt =====
-- block-ts/lib/tsapi-xfs.c: runs of the XFS test suite, and making an XFS.
use cns_virtblk_ts.Base.{
  ℕ, ◌*◌, Bool, true, false, Option, none, some, [], ◌∷◌, ◌++◌, if◌then◌else◌,
}
use cns_virtblk_ts.Base.Text.{Bytes, codes}
use cns_virtblk_ts.Base.Exec.{Errno, Result, ok, err, efail, einprogress, Status, Exec, ◌>>=◌, ◌>>◌}
use cns_virtblk_ts.Te.{TeLib}
use cns_virtblk_ts.Backend.Inventory.{append_result}
use cns_virtblk_ts.Ceph.Jobs.{JobLib, JobStatus}
use cns_virtblk_ts.FileSystem.{FsLib, is_done}

-- xfs_test_suite; the devices and directories are set by the test, and `none` is NULL.
pub record Suite : Type 0 where
  pub job : Option ℕ
  pub factory : Option ℕ
  pub group : Option Bytes
  pub name : Option Bytes
  pub test_dev : Bytes
  pub test_dir : Bytes
  pub scratch_dev : Bytes
  pub scratch_dir : Bytes

-- The bits of the int -1.
abbrev pub no_timeout : ℕ
no_timeout = 0xffffffff

module _ {W : Type 0} (te : TeLib W) (jobs : JobLib W) (lib : FsLib W) where
  open te use {te_string_append, strdup}
  open jobs use {
    tapi_job_factory_rpc_create, tapi_job_factory_destroy, tapi_job_start, tapi_job_wait,
    tapi_job_destroy,
  }
  open lib use {tapi_job_simple_create, tapi_job_simple_create_env, tapi_job_kill}

  -- Operations on the handle, which is written also where an operation then fails.
  abbrev pub Xfs : Type 0 → Type 0
  Xfs A = Exec (Suite × W) A

  abbrev pub in_world : {A : Type 0} → (Suite → Exec W A) → Xfs A
  in_world m (s, w) = let (r, w') = m s w in (r, (s, w'))

  abbrev write : (Suite → Suite) → Xfs Unit
  write f (s, w) = (ok tt, (f s, w))

  abbrev copied : Bytes → Bool × W → Option Bytes × W
  copied s (true, w) = (some s, w)
  copied s (false, w) = (none, w)

  abbrev with_names : Option Bytes → Option Bytes → Suite → Suite
  with_names group name s = record {
    job = s.job;
    factory = s.factory;
    group = group;
    name = name;
    test_dev = s.test_dev;
    test_dir = s.test_dir;
    scratch_dev = s.scratch_dev;
    scratch_dir = s.scratch_dir;
  }

  -- A copy that fails is not looked for.
  unfoldable pub copy_names : Bytes → Bytes → Xfs Unit
  copy_names group name (s, w) =
      let (group', w') = copied group (strdup w) in
      let (name', w'') = copied name (strdup w') in (ok tt, (with_names group' name' s, w''))

  abbrev with_factory : ℕ → Suite → Suite
  with_factory f s = record {
    job = s.job;
    factory = some f;
    group = s.group;
    name = s.name;
    test_dev = s.test_dev;
    test_dir = s.test_dir;
    scratch_dev = s.scratch_dev;
    scratch_dir = s.scratch_dir;
  }

  abbrev with_job : ℕ → Suite → Suite
  with_job j s = record {
    job = some j;
    factory = s.factory;
    group = s.group;
    name = s.name;
    test_dev = s.test_dev;
    test_dir = s.test_dir;
    scratch_dev = s.scratch_dev;
    scratch_dir = s.scratch_dir;
  }

  abbrev print : Bytes → Xfs Bytes
  print text (s, w) = let (r, w') = append_result (te_string_append [] text w) in (r, (s, w'))

  -- What "%s" prints; `null_text` is what it prints for NULL.
  abbrev shown : Bytes → Option Bytes → Bytes
  shown null_text (some s) = s
  shown null_text none = null_text

  abbrev get_suite : Xfs Suite
  get_suite (s, w) = (ok s, (s, w))

  unfoldable pub xfs_test_suite_init : Bytes → Bytes → Bytes → Bytes → Xfs Unit
  xfs_test_suite_init null_text xfs_path group name = do
    copy_names group name
    factory ← in_world (λ _. tapi_job_factory_rpc_create)
    write (with_factory factory)
    s ← get_suite
    command ← print (
        codes "cd "
        ++ xfs_path
        ++ codes "; ./check "
        ++ shown null_text s.group
        ++ b'/' ∷ shown null_text s.name)
    test_dev ← print (codes "TEST_DEV=" ++ s.test_dev)
    test_dir ← print (codes "TEST_DIR=" ++ s.test_dir)
    scratch_dev ← print (codes "SCRATCH_DEV=" ++ s.scratch_dev)
    scratch_dir ← print (codes "SCRATCH_MNT=" ++ s.scratch_dir)
    path ← print (codes "PATH=/bin:/usr/bin:/usr/sbin:/sbin")
    made ← in_world (λ _.
        tapi_job_simple_create_env factory (codes "/bin/bash" ∷ codes "-c" ∷ command ∷ [])
          (test_dev ∷ test_dir ∷ scratch_dev ∷ scratch_dir ∷ path ∷ codes "RESULT_BASE=/tmp" ∷ []))
    write (with_job (made.0))

  unfoldable pub xfs_test_suite_start : Xfs Unit
  xfs_test_suite_start = in_world (λ s. tapi_job_start s.job)

  abbrev pub done_or_efail : JobStatus → Status
  done_or_efail status = if is_done status then ok tt else err efail

  abbrev is_in_progress : Errno → Bool
  is_in_progress einprogress = true
  is_in_progress _ = false

  -- A suite that hangs is killed, which is an error too.
  abbrev pub waited : Option ℕ → Result JobStatus × W → Status × W
  waited job (ok status, w) = (done_or_efail status, w)
  waited job (err e, w) =
      if is_in_progress e then (tapi_job_kill job >> λ w'. (err efail, w')) w else (err e, w)

  unfoldable pub xfs_test_suite_wait : ℕ → Xfs Unit
  xfs_test_suite_wait seconds =
      in_world (λ s w. waited s.job (tapi_job_wait s.job (seconds * 1000) w))

  -- The handle is not NULL.
  unfoldable pub xfs_test_suite_destroy : Xfs Unit
  xfs_test_suite_destroy (s, w) =
      let (rc, w') = tapi_job_destroy s.job no_timeout w in
      (rc, (s, tapi_job_factory_destroy s.factory w'))

  -- The job and the factory are destroyed only when the job has been waited for.
  unfoldable pub xfs_test_suite_make_xfs : Bytes → Exec W Unit
  xfs_test_suite_make_xfs block = do
    factory ← tapi_job_factory_rpc_create
    made ← tapi_job_simple_create factory (codes "mkfs.xfs" ∷ codes "-f" ∷ block ∷ []) none
    tapi_job_start (some (made.0))
    status ← tapi_job_wait (some (made.0)) (60 * 1000)
    (λ w.
        let (_, w') = tapi_job_destroy (some (made.0)) no_timeout w in
        (done_or_efail status, tapi_job_factory_destroy (some factory) w'))
