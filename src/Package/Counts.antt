-- ===== src/Package/Counts.antt =====
-- block-ts/blk-proxy: how the steps that the tests of FIO share change the number of job factories and FIO
-- applications.
use cns_virtblk_ts.Base.{
  ℕ, ◌+◌, ◌-◌, ◌≡◌, refl, subst, arith, Bool, true, false, Option, none, some, [], ◌++◌,
  if◌then◌else◌,
}
use cns_virtblk_ts.Base.Text.{Bytes, codes}
use cns_virtblk_ts.Base.Exec.{Result, ok, err, Exec, continue, pure, lift, ◌>>=◌}
use cns_virtblk_ts.Te.{TeLib}
use cns_virtblk_ts.Backend.{CfgLib}
use cns_virtblk_ts.Virtio.{PciLib, tsapi_get_devices}
use cns_virtblk_ts.Fio.{FioLib, flex_timeout}
use cns_virtblk_ts.Fio.Options.{
  FioOpts, ParamLib, wait_of, fio_suffix, some_text, optional, tsapi_fio_opts_read_suf, first,
  with_filename, tsapi_fio_opts_read,
}
use cns_virtblk_ts.Ceph.Live.{succeeded}
use cns_virtblk_ts.Package.{
  Test, aside, reading, store, Fio, TestLib, FioVars, no_fio, host_ta, with_factory, read_opts,
  get_opts, created, create_fio, prepare_fio, flex_wait, run_fio, log, report_fio, destroy_fio,
}
use cns_virtblk_ts.Package.Found.{IsDeviceCount, get_devices-Keeps}
use cns_virtblk_ts.Package.Owned.{
  held, Keeps, >>=-Keeps, Owns, Stays, aside-Stays, reading-Stays, >>=-Stays, Fresh,
}

-- `live` counts the job factories and the FIO applications: making one adds one where it succeeds,
-- destroying one takes one away, and all else leaves the number as it is.
pub record IsTestCount {W : Type 0} (te : TeLib W) (pci : PciLib W) (lib : TestLib W) (live : W → ℕ)
    : Type 0 where
  pub factory_made :
      (ta : Bytes) (w : W)
      → live (lib.tapi_job_factory_rpc_create ta w).1
        ≡ (if succeeded (lib.tapi_job_factory_rpc_create ta w).0 then live w + 1 else live w)
  pub factory_destroyed :
      (f : Option ℕ) (w : W) → live (lib.tapi_job_factory_destroy f w) ≡ live w - held f
  pub fio_made :
      (opts : FioOpts) (f : ℕ) (path : Bytes) (w : W)
      → live (lib.tapi_fio_create opts f path w).1
        ≡ live w + held (lib.tapi_fio_create opts f path w).0
  pub fio_destroyed : (a : Option Fio) (w : W) → live (lib.tapi_fio_destroy a w) ≡ live w - held a
  pub rpcs_keeps : (ta : Bytes) → Keeps live (lib.test_get_rpcs ta)
  pub path_keeps : (f : ℕ) → Keeps live (lib.tapi_job_factory_set_path f)
  pub start_keeps : (a : Option Fio) → Keeps live (lib.tapi_fio_start a)
  pub wait_keeps : (a : Fio) (t : ℕ) → Keeps live (lib.tapi_fio_wait a t)
  pub stop_keeps : (a : Option Fio) → Keeps live (lib.tapi_fio_stop a)
  pub report_keeps : (a : Option Fio) → Keeps live (lib.tapi_fio_get_report a)
  pub log_keeps : (r : ℕ) (w : W) → live (lib.tapi_fio_log_report r w) ≡ live w
  pub append_keeps : (s t : Bytes) (w : W) → live (te.te_string_append s t w).2 ≡ live w
  pub devices : IsDeviceCount te pci live

abbrev pub own : ℕ → FioVars → ℕ
own n v = n + held v.factory + held v.fio

module _ (params : ParamLib) {W : Type 0} (te : TeLib W) (cfg : CfgLib W) (pci : PciLib W)
    (fios : FioLib W) (lib : TestLib W) (live : W → ℕ) (count : IsTestCount te pci lib live) where
  -- A parameter, and what is done with it.
  lift-Keeps :
      {A B : Type 0} (r : Result A) (f : A → Exec W B)
      → ((a : A) → Keeps live (f a))
      → Keeps live (lift r >>= f)
  lift-Keeps r f k = >>=-Keeps live (lift r) f (λ w. refl) k

  text-Keeps : (r : Result Bytes) → Keeps live (some_text params (lift r))
  text-Keeps (ok s) w = refl
  text-Keeps (err e) w = refl

  optional-Keeps :
      (name suffix : Bytes) (old : Option Bytes) → Keeps live (optional params name suffix old)
  unfolding optional
  optional-Keeps name suffix old w = by_test (params.test_find_param name)
    where
      text : Exec W (Option Bytes)
      text = some_text params (lift (params.test_get_string_param (fio_suffix name suffix)))

      by_test : (b : Bool) → live ((if b then text else pure old) w).1 ≡ live w
      by_test true = text-Keeps (params.test_get_string_param (fio_suffix name suffix)) w
      by_test false = refl

  optional_then :
      {B : Type 0} (name suffix : Bytes) (old : Option Bytes) (f : Option Bytes → Exec W B)
      → ((a : Option Bytes) → Keeps live (f a))
      → Keeps live (optional params name suffix old >>= f)
  optional_then name suffix old f k =
      >>=-Keeps live (optional params name suffix old) f (optional-Keeps name suffix old) k

  pub read_suf-Keeps :
      (opts : FioOpts) (suffix : Bytes) → Keeps live (tsapi_fio_opts_read_suf params opts suffix)
  unfolding tsapi_fio_opts_read_suf
  read_suf-Keeps opts suffix =
      lift-Keeps (params.test_get_uint_param (fio_suffix (codes "blocksize") suffix)) _ (λ _.
        lift-Keeps (params.get_ioengine_param (fio_suffix (codes "ioengine") suffix)) _ (λ _.
          lift-Keeps (params.get_rwtype_param (fio_suffix (codes "rwtype") suffix)) _ (λ _.
            lift-Keeps (params.test_get_int_param (fio_suffix (codes "runtime_sec") suffix)) _ (λ _.
              lift-Keeps (params.test_get_uint_param (fio_suffix (codes "iodepth") suffix)) _ (λ _.
                lift-Keeps (params.test_get_fio_numjobs_param (fio_suffix (codes "numjobs") suffix))
                  _
                  (λ _.
                    lift-Keeps (params.test_get_uint_param (fio_suffix (codes "rwmixread") suffix))
                      _
                      (λ _. optional_then (codes "name") suffix opts.name _ (λ _.
                        optional_then (codes "user") suffix opts.user _ (λ _.
                          optional_then (codes "rbdname") suffix opts.rbdname _ (λ _.
                            optional_then (codes "pool") suffix opts.pool _ (λ _.
                              optional_then (codes "size") suffix opts.size _
                                (λ _ w. refl))))))))))))

  pub read_opts-Keeps : Keeps live (read_opts params te cfg pci fios lib)
  unfolding read_opts tsapi_fio_opts_read
  read_opts-Keeps =
      >>=-Keeps live (tsapi_get_devices te cfg pci host_ta) _
        (get_devices-Keeps te cfg pci live count.devices host_ta)
        (λ found. read_suf-Keeps (with_filename (first found.0) lib.fio_opts_defaults) [])

  pub get_opts-Keeps : Keeps live (get_opts params te cfg pci fios lib)
  unfolding get_opts
  get_opts-Keeps =
      >>=-Keeps live (lib.test_get_rpcs host_ta) _ (count.rpcs_keeps host_ta) (λ _. read_opts-Keeps)

  created-Owns :
      (opts : FioOpts) (h : Option ℕ) (n : ℕ) (w : W) (v : FioVars)
      → live w ≡ n + held v.factory + held h
      → Owns own live n (created params te cfg pci fios lib opts (h, w) v).1
  created-Owns opts none n w v e = e
  created-Owns opts (some h) n w v e = e

  -- With no application yet.
  pub create_fio-Owns :
      (opts : FioOpts) (f n : ℕ) (v : FioVars) (w : W)
      → live w ≡ n + held v.factory
      → Owns own live n (create_fio params te cfg pci fios lib opts f (v, w)).1
  unfolding create_fio
  create_fio-Owns opts f n v w h =
      let path = lib.agent_dir host_ta ++ codes "/fio" in
      let (a, w') = lib.tapi_fio_create opts f path w in
      created-Owns opts a n w' v (omega (arith, count.fio_made opts f path w, h))

  pub flex_wait-Keeps : (a : Option Fio) → Keeps live (flex_wait params te cfg pci fios lib a)
  unfolding flex_wait
  flex_wait-Keeps none = λ w. refl
  flex_wait-Keeps (some a) = count.wait_keeps a (flex_timeout te fios (wait_of a.opts))

  pub run_fio-Stays : Stays own live (run_fio params te cfg pci fios lib)
  unfolding run_fio
  run_fio-Stays =
      >>=-Stays own live (reading (λ v. lib.tapi_fio_start v.fio)) _
        (reading-Stays own live (λ v. lib.tapi_fio_start v.fio) (λ v. count.start_keeps v.fio))
        (λ _.
          >>=-Stays own live (reading (λ v. flex_wait params te cfg pci fios lib v.fio)) _
            (reading-Stays own live (λ v. flex_wait params te cfg pci fios lib v.fio)
              (λ v. flex_wait-Keeps v.fio))
            (λ _.
              reading-Stays own live (λ v. lib.tapi_fio_stop v.fio) (λ v. count.stop_keeps v.fio)))

  pub report_fio-Stays : Stays own live (report_fio params te cfg pci fios lib)
  unfolding report_fio
  report_fio-Stays =
      >>=-Stays own live (reading (λ v. lib.tapi_fio_get_report v.fio)) _
        (reading-Stays own live (λ v. lib.tapi_fio_get_report v.fio)
          (λ v. count.report_keeps v.fio))
        (λ report.
          aside-Stays own live (log params te cfg pci fios lib report) (count.log_keeps report))

  factory-Owns :
      {A : Type 0} (n : ℕ) (r : Result ℕ) (w : W) (f : ℕ → Test FioVars W A)
      → live w ≡ (if succeeded r then n + 1 else n)
      → ((factory : ℕ) (w' : W) → live w' ≡ n + 1 → Owns own live n (f factory (no_fio, w')).1)
      → Owns own live n (continue r f (no_fio, w)).1
  factory-Owns n (ok factory) w f h k = k factory w h
  factory-Owns n (err e) w f h k = omega (arith, h)

  -- A factory, and then what is done with it.
  pub with_factory-Fresh :
      {A : Type 0} (f : ℕ → Test FioVars W A)
      → ((n factory : ℕ) (w' : W) → live w' ≡ n + 1 → Owns own live n (f factory (no_fio, w')).1)
      → Fresh own live no_fio (aside (lib.tapi_job_factory_rpc_create host_ta) >>= f)
  with_factory-Fresh f k n w o =
      let r = lib.tapi_job_factory_rpc_create host_ta w in
      let e : live w ≡ n = omega (arith, o) in
      factory-Owns n r.0 r.1 f
        (subst (λ m. live r.1 ≡ (if succeeded r.0 then m + 1 else m)) e
          (count.factory_made host_ta w))
        (k n)

  pub prepare_fio-Fresh :
      (opts : FioOpts) → Fresh own live no_fio (prepare_fio params te cfg pci fios lib opts)
  unfolding prepare_fio
  prepare_fio-Fresh opts =
      with_factory-Fresh
        (λ f. store (with_factory f) >>= λ _. create_fio params te cfg pci fios lib opts f)
        (λ n f w' h. create_fio-Owns opts f n (with_factory f no_fio) w' h)

  pub destroy_fio-live :
      (n : ℕ) (s : FioVars × W)
      → Owns own live n s
      → live (destroy_fio params te cfg pci fios lib s.0 s.1) ≡ n
  unfolding destroy_fio
  destroy_fio-live n (v, w) h = omega (
    arith,
    h,
    count.fio_destroyed v.fio w,
    count.factory_destroyed v.factory (lib.tapi_fio_destroy v.fio w),
  )
