-- ===== src/FileSystem.antt =====
-- block-ts/lib/tsapi-mke2fs.c, tsapi-fs.c: a file system is made, checked and mounted by jobs and shell
-- commands on the agent. FileSystem/Xfs is block-ts/lib/tsapi-xfs.c.
mod Tests
pub mod Xfs
pub mod Balance
pub mod Order
use cns_virtblk_ts.Base.{
  ℕ, ◌*◌, ◌==◌, Bool, true, false, ◌&&◌, Option, none, some, List, [], ◌∷◌, ◌++◌, if◌then◌else◌,
}
use cns_virtblk_ts.Base.Text.{Bytes, codes}
use cns_virtblk_ts.Base.Exec.{
  Result, ok, err, eshcmd, eproto, Status, Exec, pure, raise, lift, ◌>>=◌, ◌>>◌,
}
use cns_virtblk_ts.Ceph.Jobs.{JobLib, JobStatus, JobStatusType, exited, signaled, unknown_status}

-- What the file systems call beside the jobs of JobLib. A job comes with the channel of its filter.
pub record FsLib (W : Type 0) : Type 0 where
  -- tapi_job_simple_create(): the arguments, and the expression of the readable filter on stdout
  pub tapi_job_simple_create : ℕ → List Bytes → Option Bytes → Exec W (ℕ × ℕ)
  -- the same with an environment instead of a filter
  pub tapi_job_simple_create_env : ℕ → List Bytes → List Bytes → Exec W (ℕ × ℕ)
  -- tapi_job_kill(job, SIGKILL)
  pub tapi_job_kill : Option ℕ → Exec W Unit
  pub tapi_job_filters_have_data : ℕ → ℕ → W → Bool × W
  -- tapi_mke2fs_do() for a device and a type, with a timeout: the status, and the application that it
  -- leaves
  pub tapi_mke2fs_do : ℕ → Bytes → Bytes → ℕ → W → Status × Option ℕ × W
  pub tapi_mke2fs_check_journal : Option ℕ → Exec W Unit
  pub tapi_mke2fs_destroy : Option ℕ → Exec W Unit
  -- rpc_system_ex(): whether the command exited, and its value
  pub rpc_system_ex : Bytes → W → Bool × ℕ × W

abbrev pub is_exited : JobStatusType → Bool
is_exited exited = true
is_exited signaled = false
is_exited unknown_status = false

-- `status.type == TAPI_JOB_STATUS_EXITED && status.value == 0`
abbrev pub is_done : JobStatus → Bool
is_done status = is_exited status.type && (status.value == 0)

abbrev pub ext4 : Bytes
ext4 = codes "ext4"

unfoldable pub e2fsck_status : JobStatus → Status
e2fsck_status status =
    if is_exited status.type then (if status.value == 0 then ok tt else err eproto) else err eshcmd

module _ {W : Type 0} (jobs : JobLib W) (lib : FsLib W) where
  open jobs use {
    tapi_job_factory_rpc_create, tapi_job_factory_destroy, tapi_job_start, tapi_job_wait,
    tapi_job_destroy,
  }
  open lib use {
    tapi_job_simple_create, tapi_job_filters_have_data, tapi_mke2fs_do, tapi_mke2fs_check_journal,
    tapi_mke2fs_destroy, rpc_system_ex,
  }

  -- A job that is made is destroyed after the steps that use it, whatever their status is.
  unfoldable pub with_job : Result (ℕ × ℕ) × W → (ℕ → ℕ → Exec W Unit) → Status × W
  with_job (err e, w) steps = (err e, w)
  with_job (ok (job, channel), w) steps =
      let (rc, w') = steps job channel w in
      let (_, w'') = tapi_job_destroy (some job) 1000 w' in (rc, w'')

  unfoldable pub e2fsck_steps : ℕ → ℕ → ℕ → Exec W Unit
  e2fsck_steps timeout_ms job channel = do
    tapi_job_start (some job)
    status ← tapi_job_wait (some job) timeout_ms
    lift (e2fsck_status status)

  unfoldable pub e2fsck_check : ℕ → Bytes → ℕ → Exec W Unit
  e2fsck_check factory device timeout_ms w =
      with_job (tapi_job_simple_create factory (codes "e2fsck" ∷ codes "-n" ∷ device ∷ []) none w)
        (e2fsck_steps timeout_ms)

  abbrev matched : Bool × W → Status × W
  matched (true, w) = (ok tt, w)
  matched (false, w) = (err eproto, w)

  unfoldable pub type_steps : ℕ → ℕ → Exec W Unit
  type_steps job fs_type_filter = do
    tapi_job_start (some job)
    status ← tapi_job_wait (some job) 10000
    if is_done status
        then (λ w. matched (tapi_job_filters_have_data fs_type_filter 1000 w))
        else raise eshcmd

  unfoldable pub fs_type_check : ℕ → Option Bytes → Bytes → Exec W Unit
  fs_type_check factory none device w = (ok tt, w)
  fs_type_check factory (some fs_type) device w =
      with_job
        (tapi_job_simple_create factory (codes "file" ∷ codes "-s" ∷ device ∷ []) (some fs_type) w)
        type_steps

  unfoldable pub mke2fs_ts_check_fs : ℕ → Option ℕ → Option Bytes → Bytes → ℕ → Exec W Unit
  mke2fs_ts_check_fs factory app fs_type device e2fsck_timeout_ms = do
    e2fsck_check factory device e2fsck_timeout_ms
    fs_type_check factory fs_type device
    tapi_mke2fs_check_journal app

  -- The check of a file system that could be made.
  abbrev pub checked : ℕ → Bytes → Status × Option ℕ × W → Option ℕ × Status × W
  checked factory device (err e, app, w) = (app, err e, w)
  checked factory device (ok _, app, w) =
      let (rc, w') = mke2fs_ts_check_fs factory app (some ext4) device (30 * 1000) w in
      (app, rc, w')

  -- The application and the factory are destroyed whatever the status is.
  abbrev pub cleaned : ℕ → Option ℕ × Status × W → Status × W
  cleaned factory (app, rc, w) =
      let (_, w') = tapi_mke2fs_destroy app w in (rc, tapi_job_factory_destroy (some factory) w')

  unfoldable pub create_with : Bytes → ℕ → Exec W Unit
  create_with device factory w =
      cleaned factory (checked factory device (tapi_mke2fs_do factory device ext4 (120 * 1000) w))

  unfoldable pub fs_ts_create_filesystem : Bytes → Exec W Unit
  fs_ts_create_filesystem device = tapi_job_factory_rpc_create >>= create_with device

  abbrev pub command_status : Bool × ℕ × W → Status × W
  command_status (has_exited, value, w) =
      (if has_exited && (value == 0) then ok tt else err eshcmd, w)

  unfoldable pub fs_ts_mount_filesystem : Bytes → Bytes → Exec W Unit
  fs_ts_mount_filesystem device mount_dir w =
      command_status (rpc_system_ex (codes "mount " ++ device ++ b' ' ∷ mount_dir) w)

  unfoldable pub fs_ts_umount_filesystem : Bytes → Exec W Unit
  fs_ts_umount_filesystem mount_dir w =
      command_status (rpc_system_ex (codes "umount " ++ mount_dir) w)

  unfoldable pub fs_ts_recreate_filesystem : Bytes → Bytes → Exec W Unit
  fs_ts_recreate_filesystem device mount_dir = do
    fs_ts_umount_filesystem mount_dir
    fs_ts_create_filesystem device
    fs_ts_mount_filesystem device mount_dir
