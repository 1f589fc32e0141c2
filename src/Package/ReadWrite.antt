-- ===== src/Package/ReadWrite.antt =====
-- block-ts/blk-proxy/readwrite: fio_pattern.c and fio_stability.c.
use cns_virtblk_ts.Base.{ℕ, ltb, Option, none, some, [], ◌++◌, if◌then◌else◌}
use cns_virtblk_ts.Base.Text.{Bytes, codes, strcmp}
use cns_virtblk_ts.Base.Exec.{Result, ok, err, efail, ended, Status, Exec, pure, raise, ◌>>=◌, ◌>>◌}
use cns_virtblk_ts.Te.{TeLib}
use cns_virtblk_ts.Backend.{CfgLib}
use cns_virtblk_ts.Backend.Inventory.{append_result}
use cns_virtblk_ts.Virtio.{PciLib}
use cns_virtblk_ts.Fio.{FioLib}
use cns_virtblk_ts.Fio.Options.{FioOpts, ParamLib}
use cns_virtblk_ts.Package.{
  Test, aside, reading, store, run_or_end, Fio, TestLib, FioVars, no_fio, host_ta, arm_ta,
  with_factory, read_opts, get_opts, create_fio, prepare_fio, run_fio, report_fio, cleanup_fio,
}

-- The stress application of the Test Environment.
pub record LoadLib (W : Type 0) : Type 0 where
  -- tapi_stress_create() for the CPU 0
  pub tapi_stress_create : ℕ → Exec W ℕ
  pub tapi_stress_start : Option ℕ → Exec W Unit
  pub tapi_stress_stop : Option ℕ → Exec W Unit
  pub tapi_stress_destroy : Option ℕ → W → W

abbrev pub with_user : Bytes → FioOpts → FioOpts
with_user vopts opts = record opts { user = some vopts }

abbrev pub with_user_read : Bytes → FioOpts → FioOpts
with_user_read vopts opts = record opts { user = some vopts; rwmixread = 100 }

abbrev pub set_opts : FioVars → Fio → FioOpts → FioVars
set_opts v fio opts = record {
  factory = v.factory;
  fio = some (record { handle = fio.handle; opts = opts });
}

-- A part of a test whose variables are the first of a pair.
abbrev pub within : {V X W A : Type 0} → Test V W A → Test (V × X) W A
within m ((v, x), w) = let (r, (v', w')) = m (v, w) in (r, ((v', x), w'))

abbrev pub with_app : {V : Type 0} → Option ℕ → V × Option ℕ → V × Option ℕ
with_app app (v, _) = (v, app)

module _ (params : ParamLib) {W : Type 0} (te : TeLib W) (cfg : CfgLib W) (pci : PciLib W)
    (fios : FioLib W) (lib : TestLib W) where
  open lib use {test_get_rpcs, tapi_job_factory_rpc_create, tapi_job_factory_set_path}

  abbrev pub append : Bytes → Bytes → Exec W Bytes
  append vopts s w = append_result (te.te_string_append vopts s w)

  unfoldable pub get_common_verify_opts : FioOpts → Exec W Bytes
  get_common_verify_opts opts = do
    vopts ← append [] (codes " --verify=md5")
    append vopts (codes " --verify_interval=" ++ cfg.decimal opts.blocksize)

  abbrev pub append_overlap : Bytes → Exec W Bytes
  append_overlap vopts = append vopts (codes " --serialize_overlap=1") >>= λ vopts'.
      append vopts' (codes " --overwrite=1")

  unfoldable pub get_writter_verify_opts : FioOpts → Exec W FioOpts
  get_writter_verify_opts opts = do
    vopts ← get_common_verify_opts opts
    vopts ← append vopts (codes " --do_verify=0")
    vopts ← append vopts (codes " --verify_state_save=1")
    vopts ← append vopts (codes " --rw=randwrite")
    vopts ← if ltb 1 opts.iodepth then append_overlap vopts else pure vopts
    pure (with_user vopts opts)

  unfoldable pub get_verification_opts : FioOpts → Exec W FioOpts
  get_verification_opts opts = do
    vopts ← get_common_verify_opts opts
    vopts ← append vopts (codes " --verify_state_load=1")
    vopts ← append vopts (codes " --do_verify=1")
    vopts ← append vopts (codes " --verify_fatal=1")
    vopts ← append vopts (codes " --verify_dump=1")
    vopts ← append vopts (codes " --rw=randread")
    pure (with_user_read vopts opts)

  abbrev pub changed : FioVars → Fio → Result FioOpts × W → Status × (FioVars × W)
  changed v fio (ok opts, w) = (ok tt, (set_opts v fio opts, w))
  changed v fio (err e, w) = (err e, (v, w))

  abbrev pub change_of : (FioOpts → Exec W FioOpts) → Option Fio → Test FioVars W Unit
  change_of m none s = raise ended s
  change_of m (some fio) (v, w) = changed v fio (m fio.opts w)

  -- A change of fio->app.opts.
  unfoldable pub change_opts : (FioOpts → Exec W FioOpts) → Test FioVars W Unit
  change_opts m (v, w) = change_of m v.fio (v, w)

  abbrev pub get_report : Test FioVars W ℕ
  get_report = reading (λ v. lib.tapi_fio_get_report v.fio)

  -- FIO writes with the options of the writer, and then reads with those of the verification.
  unfoldable pub pattern_runs : Test FioVars W Unit
  pattern_runs = do
    change_opts get_writter_verify_opts
    run_fio params te cfg pci fios lib
    report ← get_report
    change_opts get_verification_opts
    run_fio params te cfg pci fios lib
    report_fio params te cfg pci fios lib

  unfoldable pub pattern_steps : Test FioVars W Unit
  pattern_steps = do
    opts ← aside (get_opts params te cfg pci fios lib)
    factory ← aside (tapi_job_factory_rpc_create host_ta)
    store (with_factory factory)
    aside (tapi_job_factory_set_path factory)
    create_fio params te cfg pci fios lib opts factory
    pattern_runs

  unfoldable pub fio_pattern : Exec W Unit
  fio_pattern = run_or_end no_fio pattern_steps (cleanup_fio params te cfg pci fios lib)

  module _ (load : LoadLib W) where
    open load use {tapi_stress_create, tapi_stress_start, tapi_stress_stop, tapi_stress_destroy}

    -- The agent for the stress, which is that of FIO or the ARM.
    unfoldable pub get_stress_rpcs : Bytes → Exec W Unit
    get_stress_rpcs stress_ta =
        if strcmp stress_ta host_ta
        then pure tt
        else if strcmp stress_ta arm_ta
        then test_get_rpcs arm_ta
        else raise efail

    -- From the stress application on. No label reads the pointer to its factory.
    unfoldable pub stability_steps : ℕ → Test (FioVars × Option ℕ) W Unit
    stability_steps stress_factory = do
      stress_app ← aside (tapi_stress_create stress_factory)
      store (with_app (some stress_app))
      opts ← aside (read_opts params te cfg pci fios lib)
      within (prepare_fio params te cfg pci fios lib opts)
      aside (tapi_stress_start (some stress_app))
      within (run_fio params te cfg pci fios lib)
      aside (tapi_stress_stop (some stress_app))
      within (report_fio params te cfg pci fios lib)

    abbrev pub cleanup_stability : FioVars × Option ℕ → Exec W Unit
    cleanup_stability (v, app) w =
        let w1 = lib.tapi_fio_destroy v.fio w in
        let w2 = tapi_stress_destroy app w1 in (ok tt, lib.tapi_job_factory_destroy v.factory w2)

    unfoldable pub fio_stability : Bytes → Exec W Unit
    fio_stability stress_ta =
        run_or_end (no_fio, none)
          (do
            aside (test_get_rpcs host_ta)
            aside (get_stress_rpcs stress_ta)
            stress_factory ← aside (tapi_job_factory_rpc_create stress_ta)
            stability_steps stress_factory)
          cleanup_stability
