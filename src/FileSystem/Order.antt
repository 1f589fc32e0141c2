-- ===== src/FileSystem/Order.antt =====
-- The steps in which a file system is made anew.
use cns_virtblk_ts.Base.{ℕ, ◌≡◌, refl, ap, ◌∙◌, sym, Option, some}
use cns_virtblk_ts.Base.Text.{Bytes}
use cns_virtblk_ts.Base.Exec.{ok, err, Status, ◌>>=◌, >>=-run}
use cns_virtblk_ts.Ceph.Jobs.{JobLib}
use cns_virtblk_ts.FileSystem.{
  FsLib, mke2fs_ts_check_fs, checked, cleaned, create_with, fs_ts_create_filesystem, ext4,
  fs_ts_mount_filesystem, fs_ts_umount_filesystem, fs_ts_recreate_filesystem,
}

module _ {W : Type 0} (jobs : JobLib W) (lib : FsLib W) where
  checked-ok :
      (f : ℕ) (device : Bytes) (r : Status × Option ℕ × W)
      → (checked jobs lib f device r).1 ≡ ok tt
      → (app : Option ℕ) × (w : W) × (r ≡ (ok tt, app, w))
        × ((mke2fs_ts_check_fs jobs lib f app (some ext4) device 30000 w).0 ≡ ok tt)
  checked-ok f device (err e, app, w) h = cc
  checked-ok f device (ok u, app, w) h = (app, w, refl, h)

  cleaned-status : (f : ℕ) (r : Option ℕ × Status × W) → (cleaned jobs lib f r).0 ≡ r.1
  cleaned-status f (app, rc, w) = refl

  create_with-ok :
      (f : ℕ) (device : Bytes) (w : W)
      → (create_with jobs lib device f w).0 ≡ ok tt
      → (app : Option ℕ) × (w' : W) × (lib.tapi_mke2fs_do f device ext4 120000 w ≡ (ok tt, app, w'))
        × ((mke2fs_ts_check_fs jobs lib f app (some ext4) device 30000 w').0 ≡ ok tt)
  unfolding create_with
  create_with-ok f device w h =
      let made = lib.tapi_mke2fs_do f device ext4 120000 w in
      checked-ok f device made (sym (cleaned-status f (checked jobs lib f device made)) ∙ h)

  -- A file system is made anew only when the directory could be unmounted, then mke2fs has made it on the
  -- device, with the type ext4 and within two minutes, and has left an application with which its checks
  -- succeed within half a minute, and then the device could be mounted on the directory.
  recreate-order :
      (device mount_dir : Bytes) (w : W)
      → (fs_ts_recreate_filesystem jobs lib device mount_dir w).0 ≡ ok tt
      → (w1 w2 w3 w4 : W) × (f : ℕ) × (app : Option ℕ) × (fs_ts_umount_filesystem jobs lib mount_dir
            w
          ≡ (ok tt, w1))
        × (jobs.tapi_job_factory_rpc_create w1 ≡ (ok f, w2))
        × (lib.tapi_mke2fs_do f device ext4 120000 w2 ≡ (ok tt, app, w3))
        × ((mke2fs_ts_check_fs jobs lib f app (some ext4) device 30000 w3).0 ≡ ok tt)
        × (fs_ts_create_filesystem jobs lib device w1 ≡ (ok tt, w4))
        × (fs_ts_recreate_filesystem jobs lib device mount_dir w
            ≡ fs_ts_mount_filesystem jobs lib device mount_dir w4)
        × ((fs_ts_mount_filesystem jobs lib device mount_dir w4).0 ≡ ok tt)
  unfolding fs_ts_recreate_filesystem fs_ts_create_filesystem
  recreate-order device mount_dir w h =
      let (u1, w1, e1, h1, s1) = >>=-run (fs_ts_umount_filesystem jobs lib mount_dir) _ w tt h in
      let make = jobs.tapi_job_factory_rpc_create >>= create_with jobs lib device in
      let (u4, w4, e4, h4, s4) = >>=-run make _ w1 tt h1 in
      let (f, w2, e2, h2, s2) =
        >>=-run jobs.tapi_job_factory_rpc_create (create_with jobs lib device) w1 u4
          (ap (λ r. r.0) e4) in
      let (app, w3, e3, h3) = create_with-ok f device w2 h2 in
      (w1, w2, w3, w4, f, app, e1, e2, e3, h3, e4, s1 ∙ s4, h4)
