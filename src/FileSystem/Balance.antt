-- ===== src/FileSystem/Balance.antt =====
-- Which jobs, factories and applications are left by making a file system.
use cns_virtblk_ts.Base.{
  ℕ, ◌+◌, ◌-◌, ◌*◌, ◌≡◌, refl, ap, ◌∙◌, sym, arith, Bool, true, false, Option, none, some, List, [],
  ◌∷◌, if◌then◌else◌,
}
use cns_virtblk_ts.Base.Text.{Bytes, codes}
use cns_virtblk_ts.Base.Exec.{Result, ok, err, eshcmd, Status, Exec, raise, continue, ◌>>=◌}
use cns_virtblk_ts.Te.{TeLib}
use cns_virtblk_ts.Ceph.Jobs.{JobLib, JobStatus}
use cns_virtblk_ts.Ceph.Live.{succeeded}
use cns_virtblk_ts.FileSystem.{
  FsLib, is_done, with_job, e2fsck_steps, e2fsck_check, matched, type_steps, fs_type_check,
  mke2fs_ts_check_fs, checked, cleaned, create_with, fs_ts_create_filesystem, ext4,
}
use cns_virtblk_ts.FileSystem.Xfs.{no_timeout, done_or_efail, xfs_test_suite_make_xfs}

abbrev pub is_there : Option ℕ → Bool
is_there (some a) = true
is_there none = false

-- `live` counts the factories, jobs and applications: making one adds one where it succeeds, destroying
-- one takes one away, and the other operations leave it as it is.
pub record IsCount {W : Type 0} (jobs : JobLib W) (lib : FsLib W) (live : W → ℕ) : Type 0 where
  pub factory_made :
      (w : W)
      → live (jobs.tapi_job_factory_rpc_create w).1
        ≡ (if succeeded (jobs.tapi_job_factory_rpc_create w).0 then live w + 1 else live w)
  pub factory_destroyed :
      (f : ℕ) (w : W) → live (jobs.tapi_job_factory_destroy (some f) w) ≡ live w - 1
  pub job_made :
      (f : ℕ) (argv : List Bytes) (re : Option Bytes) (w : W)
      → live (lib.tapi_job_simple_create f argv re w).1
        ≡ (if succeeded (lib.tapi_job_simple_create f argv re w).0 then live w + 1 else live w)
  pub job_destroyed : (j ms : ℕ) (w : W) → live (jobs.tapi_job_destroy (some j) ms w).1 ≡ live w - 1
  pub start_keeps : (j : Option ℕ) (w : W) → live (jobs.tapi_job_start j w).1 ≡ live w
  pub wait_keeps : (j : Option ℕ) (ms : ℕ) (w : W) → live (jobs.tapi_job_wait j ms w).1 ≡ live w
  pub data_keeps : (c ms : ℕ) (w : W) → live (lib.tapi_job_filters_have_data c ms w).1 ≡ live w
  pub app_made :
      (f : ℕ) (device fs_type : Bytes) (ms : ℕ) (w : W)
      → live (lib.tapi_mke2fs_do f device fs_type ms w).2
        ≡ (if is_there (lib.tapi_mke2fs_do f device fs_type ms w).1 then live w + 1 else live w)
  pub journal_keeps :
      (app : Option ℕ) (w : W) → live (lib.tapi_mke2fs_check_journal app w).1 ≡ live w
  pub app_destroyed :
      (app : Option ℕ) (w : W)
      → live (lib.tapi_mke2fs_destroy app w).1 ≡ (if is_there app then live w - 1 else live w)

module _ {W : Type 0} (jobs : JobLib W) (lib : FsLib W) (live : W → ℕ)
    (count : IsCount jobs lib live) where
  -- An operation that leaves as many as there were.
  abbrev Keeps : {A : Type 0} → Exec W A → Type 0
  Keeps m = (w : W) → live (m w).1 ≡ live w

  continue-Keeps :
      {A B : Type 0} (r : Result A) (f : A → Exec W B) (w : W)
      → ((a : A) → Keeps (f a))
      → live (continue r f w).1 ≡ live w
  continue-Keeps (ok a) f w k = k a w
  continue-Keeps (err e) f w k = refl

  >>=-Keeps :
      {A B : Type 0} (m : Exec W A) (f : A → Exec W B)
      → Keeps m
      → ((a : A) → Keeps (f a))
      → Keeps (m >>= f)
  >>=-Keeps m f h k w = continue-Keeps (m w).0 f (m w).1 k ∙ h w

  with_job-live :
      (n : ℕ) (r : Result (ℕ × ℕ)) (w : W) (steps : ℕ → ℕ → Exec W Unit)
      → live w ≡ (if succeeded r then n + 1 else n)
      → ((job channel : ℕ) → Keeps (steps job channel))
      → live (with_job jobs lib (r, w) steps).1 ≡ n
  unfolding with_job
  with_job-live n (err e) w steps h k = h
  with_job-live n (ok (job, channel)) w steps h k =
      count.job_destroyed job 1000 (steps job channel w).1 ∙ omega (arith, k job channel w, h)

  e2fsck_steps-Keeps : (ms job channel : ℕ) → Keeps (e2fsck_steps jobs lib ms job channel)
  unfolding e2fsck_steps
  e2fsck_steps-Keeps ms job channel =
      >>=-Keeps (jobs.tapi_job_start (some job)) _ (count.start_keeps (some job)) (λ _.
        >>=-Keeps (jobs.tapi_job_wait (some job) ms) _ (count.wait_keeps (some job) ms)
          (λ status w. refl))

  e2fsck_check-Keeps : (f : ℕ) (device : Bytes) (ms : ℕ) → Keeps (e2fsck_check jobs lib f device ms)
  unfolding e2fsck_check
  e2fsck_check-Keeps f device ms w =
      let argv = codes "e2fsck" ∷ codes "-n" ∷ device ∷ [] in
      with_job-live (live w) (lib.tapi_job_simple_create f argv none w).0
        (lib.tapi_job_simple_create f argv none w).1 (e2fsck_steps jobs lib ms)
        (count.job_made f argv none w) (e2fsck_steps-Keeps ms)

  matched-live : (r : Bool × W) → live (matched jobs lib r).1 ≡ live r.1
  matched-live (true, w) = refl
  matched-live (false, w) = refl

  after_wait-Keeps :
      (b : Bool) (channel : ℕ)
      → Keeps {A = Unit} (
          if b
          then (λ w. matched jobs lib (lib.tapi_job_filters_have_data channel 1000 w))
          else raise eshcmd)
  after_wait-Keeps true channel w =
      matched-live (lib.tapi_job_filters_have_data channel 1000 w) ∙ count.data_keeps channel 1000 w
  after_wait-Keeps false channel w = refl

  type_steps-Keeps : (job channel : ℕ) → Keeps (type_steps jobs lib job channel)
  unfolding type_steps
  type_steps-Keeps job channel =
      >>=-Keeps (jobs.tapi_job_start (some job)) _ (count.start_keeps (some job)) (λ _.
        >>=-Keeps (jobs.tapi_job_wait (some job) 10000) _ (count.wait_keeps (some job) 10000)
          (λ status. after_wait-Keeps (is_done status) channel))

  fs_type_check-Keeps :
      (f : ℕ) (re : Option Bytes) (device : Bytes) → Keeps (fs_type_check jobs lib f re device)
  unfolding fs_type_check
  fs_type_check-Keeps f none device w = refl
  fs_type_check-Keeps f (some re) device w =
      let argv = codes "file" ∷ codes "-s" ∷ device ∷ [] in
      with_job-live (live w) (lib.tapi_job_simple_create f argv (some re) w).0
        (lib.tapi_job_simple_create f argv (some re) w).1 (type_steps jobs lib)
        (count.job_made f argv (some re) w) type_steps-Keeps

  check_fs-Keeps :
      (f : ℕ) (app : Option ℕ) (re : Option Bytes) (device : Bytes) (ms : ℕ)
      → Keeps (mke2fs_ts_check_fs jobs lib f app re device ms)
  unfolding mke2fs_ts_check_fs
  check_fs-Keeps f app re device ms =
      >>=-Keeps (e2fsck_check jobs lib f device ms) _ (e2fsck_check-Keeps f device ms) (λ _.
        >>=-Keeps (fs_type_check jobs lib f re device) _ (fs_type_check-Keeps f re device)
          (λ _. count.journal_keeps app))

  checked-live :
      (f : ℕ) (device : Bytes) (r : Status × Option ℕ × W)
      → ((checked jobs lib f device r).0 ≡ r.1) × (live (checked jobs lib f device r).2 ≡ live r.2)
  checked-live f device (err e, app, w) = (refl, refl)
  checked-live f device (ok u, app, w) = (refl, check_fs-Keeps f app (some ext4) device 30000 w)

  cleaned-live :
      (n f : ℕ) (r : Option ℕ × Status × W)
      → live r.2 ≡ (if is_there r.0 then n + 2 else n + 1)
      → live (cleaned jobs lib f r).1 ≡ n
  cleaned-live n f (app, rc, w) h =
      count.factory_destroyed f (lib.tapi_mke2fs_destroy app w).1
      ∙ take_one app h (count.app_destroyed app w)
    where
      take_one :
          {m : ℕ} (a : Option ℕ)
          → live w ≡ (if is_there a then n + 2 else n + 1)
          → m ≡ (if is_there a then live w - 1 else live w)
          → m - 1 ≡ n
      take_one none h k = omega arith
      take_one (some a) h k = omega arith

  create_with-live :
      (n f : ℕ) (device : Bytes) (w : W)
      → live w ≡ n + 1
      → live (create_with jobs lib device f w).1 ≡ n
  unfolding create_with
  create_with-live n f device w h =
      let made = lib.tapi_mke2fs_do f device ext4 120000 w in
      let (a, l) = checked-live f device made in
      cleaned-live n f (checked jobs lib f device made)
        (l ∙ count.app_made f device ext4 120000 w ∙ rw a (one_more (is_there made.1)))
    where
      one_more : (b : Bool) → (if b then live w + 1 else live w) ≡ (if b then n + 2 else n + 1)
      one_more true = omega arith
      one_more false = h

  continue-create :
      (n : ℕ) (r : Result ℕ) (device : Bytes) (w : W)
      → live w ≡ (if succeeded r then n + 1 else n)
      → live (continue r (create_with jobs lib device) w).1 ≡ n
  continue-create n (ok f) device w h = create_with-live n f device w h
  continue-create n (err e) device w h = h

  -- Where `live` counts the job factories, the jobs and the mke2fs applications: whatever step fails,
  -- making a file system leaves as many of them as there were before.
  pub create-balance :
      (device : Bytes) (w : W) → live (fs_ts_create_filesystem jobs lib device w).1 ≡ live w
  unfolding fs_ts_create_filesystem
  create-balance device w =
      continue-create (live w) (jobs.tapi_job_factory_rpc_create w).0 device
        (jobs.tapi_job_factory_rpc_create w).1 (count.factory_made w)

  made-ok :
      {A : Type 0} (n : ℕ) (r : Result A × W) (a : A) (w' : W)
      → live r.1 ≡ (if succeeded r.0 then n + 1 else n)
      → r ≡ (ok a, w')
      → live w' ≡ n + 1
  made-ok n r a w' h e =
      ap (λ q. live q.1) (sym e) ∙ h ∙ ap (λ q. if succeeded q.0 then n + 1 else n) e

  -- Two are destroyed where the job was waited for, and none elsewhere.
  waited-live :
      (f job n : ℕ) (r : Result JobStatus) (g : JobStatus → Status) (w : W)
      → live w ≡ n + 2
      → live
          (continue {B = Unit} r
            (λ status v.
              let (_, v') = jobs.tapi_job_destroy (some job) no_timeout v in
              (g status, jobs.tapi_job_factory_destroy (some f) v'))
            w).1
        ≡ n + (if succeeded r then 0 else 2)
  waited-live f job n (ok status) g w h =
      let w' = (jobs.tapi_job_destroy (some job) no_timeout w).1 in
      omega (arith, h, count.job_destroyed job no_timeout w, count.factory_destroyed f w')
  waited-live f job n (err e) g w h = h

  started-live :
      (f job n : ℕ) (r : Status) (g : JobStatus → Status) (w : W)
      → live w ≡ n + 2
      → live
          (continue {B = Unit} r
            (λ _. jobs.tapi_job_wait (some job) (60 * 1000) >>= λ status v.
              let (_, v') = jobs.tapi_job_destroy (some job) no_timeout v in
              (g status, jobs.tapi_job_factory_destroy (some f) v'))
            w).1
        ≡ n
          + (if succeeded (continue r (λ _. jobs.tapi_job_wait (some job) (60 * 1000)) w).0
              then 0
              else 2)
  started-live f job n (ok u) g w h =
      let (r, w') = jobs.tapi_job_wait (some job) (60 * 1000) w in
      waited-live f job n r g w' (count.wait_keeps (some job) (60 * 1000) w ∙ h)
  started-live f job n (err e) g w h = h

  -- Where `live` counts the job factories and the jobs: once xfs_test_suite_make_xfs() has made the
  -- factory and the job of mkfs.xfs, it leaves both when starting the job or waiting for it fails, and
  -- neither otherwise, whatever status the job then has.
  pub make_xfs-leaks :
      (te : TeLib W) (block : Bytes) (f job channel : ℕ) (w w1 w2 : W)
      → jobs.tapi_job_factory_rpc_create w ≡ (ok f, w1)
      → lib.tapi_job_simple_create f (codes "mkfs.xfs" ∷ codes "-f" ∷ block ∷ []) none w1
        ≡ (ok (job, channel), w2)
      → live (xfs_test_suite_make_xfs te jobs lib block w).1
        ≡ live w
          + (if succeeded
                ((jobs.tapi_job_start (some job) >>= λ _. jobs.tapi_job_wait (some job) (60 * 1000))
                  w2).0
              then 0
              else 2)
  unfolding xfs_test_suite_make_xfs
  make_xfs-leaks te block f job channel w w1 w2 h1 h2 =
      let argv = codes "mkfs.xfs" ∷ codes "-f" ∷ block ∷ [] in
      let l1 =
        made-ok (live w) (jobs.tapi_job_factory_rpc_create w) f w1 (count.factory_made w) h1 in
      let l2 =
        made-ok (live w1) (lib.tapi_job_simple_create f argv none w1) (job, channel) w2
          (count.job_made f argv none w1) h2 in
      let (r, w3) = jobs.tapi_job_start (some job) w2 in
      let l3 : live w3 ≡ live w + 2 = omega (arith, l1, l2, count.start_keeps (some job) w2) in
      rw h1 (rw h2 (started-live f job (live w) r (done_or_efail te jobs lib) w3 l3))
