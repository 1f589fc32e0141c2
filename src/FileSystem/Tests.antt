-- ===== src/FileSystem/Tests.antt =====
-- Runs of the file system helpers, and their theorems at concrete inputs.
use cns_virtblk_ts.Base.{
  ℕ, zero, suc, ◌+◌, ◌-◌, ◌≡◌, refl, true, false, Option, none, some, List, [], ◌∷◌, ◌++◌,
  if◌then◌else◌,
}
use cns_virtblk_ts.Base.Text.{Bytes, codes, strcmp}
use cns_virtblk_ts.Base.Exec.{ok, err, efail, enoent}
use cns_virtblk_ts.Te.{TeLib}
use cns_virtblk_ts.Ceph.Jobs.{JobLib, exited}
use cns_virtblk_ts.FileSystem.{FsLib, fs_ts_create_filesystem}
use cns_virtblk_ts.FileSystem.Xfs.{xfs_test_suite_make_xfs}
use cns_virtblk_ts.FileSystem.Balance.{is_there, IsCount, create-balance, make_xfs-leaks}

-- The state is the number of factories, jobs and applications. A job of mkfs.xfs cannot be started: its
-- number is 1.
abbrev te : TeLib ℕ
te = record {
  te_string_append = λ s t w. (ok tt, s ++ t, w);
  te_vec_append = λ w. (ok tt, w);
  strdup = λ w. (true, w);
  after_block = λ w. [];
  after_arg = λ arg w. [];
  te_string_cut = λ s n. s;
  strcmp_start = λ p s. false;
  te_str_strip_spaces = λ s. s;
  getenv = λ v. none;
  rcf_ta_get_file = λ ta remote local w. (err efail, w);
  fopen_read = λ p w. (err efail, w);
  fopen_write = λ p w. (err efail, w);
  fwrite = λ p t w. (err efail, w);
  rpc_open = λ p w. (none, w);
  rpc_write_and_close = λ fd t w. (0, w);
  rpc_errno = λ w. ok tt;
}

abbrev jobs : JobLib ℕ
jobs = record {
  tapi_job_factory_rpc_create = λ w. (ok w, w + 1);
  tapi_job_factory_destroy = λ f w. elim f [ some _ ↦ w - 1 | none ↦ w ];
  tapi_job_simple_create = λ f argv w. (err efail, w);
  tapi_job_start = λ j w. elim j [ some (suc n) ↦ (err enoent, w) | _ ↦ (ok tt, w) ];
  tapi_job_wait = λ j ms w. (ok (record { type = exited; value = 0 }), w);
  tapi_job_destroy = λ j ms w. elim j [ some _ ↦ (ok tt, w - 1) | none ↦ (ok tt, w) ];
  tapi_job_attach_filter = λ c name w. (ok 0, w);
  tapi_job_filter_add_regexp = λ f re w. (ok tt, w);
  tapi_job_receive = λ f ms w. (ok (false, []), w);
}

-- 1 for the job that cannot be started.
abbrev job_number : List Bytes → ℕ
job_number (p ∷ f ∷ d ∷ []) = if strcmp p (codes "mkfs.xfs") then 1 else 0
job_number argv = 0

abbrev lib : FsLib ℕ
lib = record {
  tapi_job_simple_create = λ f argv re w. (ok (job_number argv, 0), w + 1);
  tapi_job_simple_create_env = λ f argv env w. (ok (0, 0), w + 1);
  tapi_job_kill = λ j w. (ok tt, w);
  tapi_job_filters_have_data = λ c ms w. (true, w);
  tapi_mke2fs_do = λ f device fs_type ms w. (ok tt, some 0, w + 1);
  tapi_mke2fs_check_journal = λ app w. (ok tt, w);
  tapi_mke2fs_destroy = λ app w. elim app [ some _ ↦ (ok tt, w - 1) | none ↦ (ok tt, w) ];
  rpc_system_ex = λ s w. (true, 0, w);
}

abbrev live : ℕ → ℕ
live w = w

app_destroyed :
    (app : Option ℕ) (w : ℕ)
    → live (lib.tapi_mke2fs_destroy app w).1 ≡ (if is_there app then live w - 1 else live w)
app_destroyed none w = refl
app_destroyed (some a) w = refl

start_keeps : (j : Option ℕ) (w : ℕ) → live (jobs.tapi_job_start j w).1 ≡ live w
start_keeps none w = refl
start_keeps (some zero) w = refl
start_keeps (some (suc n)) w = refl

counted : IsCount jobs lib live
counted = record {
  factory_made = λ w. refl;
  factory_destroyed = λ f w. refl;
  job_made = λ f argv re w. refl;
  job_destroyed = λ j ms w. refl;
  start_keeps = start_keeps;
  wait_keeps = λ j ms w. refl;
  data_keeps = λ c ms w. refl;
  app_made = λ f device fs_type ms w. refl;
  journal_keeps = λ app w. refl;
  app_destroyed = app_destroyed;
}

create-balance_example : live (fs_ts_create_filesystem jobs lib (codes "/dev/vda") 3).1 ≡ live 3
create-balance_example = create-balance jobs lib live counted (codes "/dev/vda") 3

make_xfs-leaks_example : live (xfs_test_suite_make_xfs te jobs lib (codes "/dev/vda") 0).1 ≡ 0 + 2
make_xfs-leaks_example =
    make_xfs-leaks jobs lib live counted te (codes "/dev/vda") 0 1 0 0 1 2 refl
      (unfold strcmp in refl)
