-- ===== src/Package.antt =====
-- block-ts/blk-proxy: the packages of tests. How a test runs, and the steps that the tests of FIO share.
pub mod Owned
pub mod Found
pub mod Counts
pub mod Pattern
pub mod Balance
pub mod Leak
pub mod Drivers
pub mod Setting
pub mod Restart
pub mod Scene
pub mod Reverse
pub mod Stimuli
pub mod ReadWrite
pub mod Network
pub mod Config
pub mod Multi
pub mod Stress
pub mod Fs
pub mod Performance
pub mod XfsSuite
pub mod StabilityPerf
pub mod Benches
pub mod Model
pub mod Tests
use cns_virtblk_ts.Base.{ℕ, Option, none, some, List, ◌++◌, if◌then◌else◌}
use cns_virtblk_ts.Base.Text.{Bytes, codes}
use cns_virtblk_ts.Base.Exec.{
  Result, ok, err, Status, Exec, ended, ended_by, pure, raise, ◌>>=◌, ◌>>◌,
}
use cns_virtblk_ts.Te.{TeLib}
use cns_virtblk_ts.Backend.{CfgLib}
use cns_virtblk_ts.Virtio.{PciLib}
use cns_virtblk_ts.Fio.{FioLib, flex_timeout}
use cns_virtblk_ts.Fio.Options.{FioOpts, ParamLib, wait_of, tsapi_fio_opts_read}

-- The status of a part, and that of a later part, which runs whatever the first one gives.
abbrev pub finish : {W : Type 0} → Status → Status × W → Status × W
finish (err e) (r, w) = (err e, w)
finish (ok _) (r, w) = (r, w)

-- The variables of main() that its label `cleanup` reads, with the state. A failed check jumps to the
-- label, with the variables as they are.
abbrev pub Test : Type 0 → Type 0 → Type 0 → Type 0
Test V W A = Exec (V × W) A

module _ {V W : Type 0} where
  abbrev pub aside : {A : Type 0} → Exec W A → Test V W A
  aside m (v, w) = let (r, w') = m w in (r, (v, w'))

  abbrev pub reading : {A : Type 0} → (V → Exec W A) → Test V W A
  reading m (v, w) = let (r, w') = m v w in (r, (v, w'))

  abbrev pub store : (V → V) → Test V W Unit
  store f (v, w) = (ok tt, (f v, w))

  -- The clean-up runs whether the steps succeed or not, and the test fails if either does.
  unfoldable pub run_test : V → Test V W Unit → (V → Exec W Unit) → Exec W Unit
  run_test start steps cleanup w = let (r, (v, w')) = steps (start, w) in finish r (cleanup v w')

  -- The same where the steps may end the process, and then nothing runs after them.
  unfoldable pub run_or_end : V → Test V W Unit → (V → Exec W Unit) → Exec W Unit
  run_or_end start steps cleanup w =
      let (r, (v, w')) = steps (start, w) in if ended_by r then (r, w') else finish r (cleanup v w')

-- tapi_fio: the application with its options, `fio->app.opts`.
pub record Fio : Type 0 where
  pub handle : ℕ
  pub opts : FioOpts

-- What the tests call. A pointer that is `none` is NULL, and an RPC server is given by its agent.
pub record TestLib (W : Type 0) : Type 0 where
  pub test_get_rpcs : Bytes → Exec W Unit
  pub tapi_job_factory_rpc_create : Bytes → Exec W ℕ
  pub tapi_job_factory_destroy : Option ℕ → W → W
  pub tapi_job_factory_set_path : ℕ → Exec W Unit
  pub fio_opts_defaults : FioOpts
  -- tapi_fio_create(options, factory, path)
  pub tapi_fio_create : FioOpts → ℕ → Bytes → W → Option ℕ × W
  pub tapi_fio_start : Option Fio → Exec W Unit
  -- tapi_fio_wait(), with the bits of the timeout
  pub tapi_fio_wait : Fio → ℕ → Exec W Unit
  pub tapi_fio_stop : Option Fio → Exec W Unit
  pub tapi_fio_get_report : Option Fio → Exec W ℕ
  pub tapi_fio_log_report : ℕ → W → W
  pub tapi_fio_destroy : Option Fio → W → W
  -- the directory of an agent, for tsapi_append_path_to_agt_dir()
  pub agent_dir : Bytes → Bytes
  -- te_motivated_sleep() for some seconds
  pub te_motivated_sleep : ℕ → W → W

pub record FioVars : Type 0 where
  pub factory : Option ℕ
  pub fio : Option Fio

abbrev pub no_fio : FioVars
no_fio = record { factory = none; fio = none }

abbrev pub host_ta : Bytes
host_ta = codes "Agt_host"

abbrev pub arm_ta : Bytes
arm_ta = codes "Agt_ARM"

abbrev pub disk_ta : Bytes
disk_ta = codes "Agt_disk"

abbrev pub with_factory : ℕ → FioVars → FioVars
with_factory f v = record { factory = some f; fio = v.fio }

abbrev pub with_fio : FioOpts → Option ℕ → FioVars → FioVars
with_fio opts none v = record { factory = v.factory; fio = none }
with_fio opts (some h) v = record {
  factory = v.factory;
  fio = some (record { handle = h; opts = opts });
}

module _ (params : ParamLib) {W : Type 0} (te : TeLib W) (cfg : CfgLib W) (pci : PciLib W)
    (fios : FioLib W) (lib : TestLib W) where
  open lib use {
    test_get_rpcs, tapi_job_factory_rpc_create, tapi_job_factory_destroy, fio_opts_defaults,
    tapi_fio_create, tapi_fio_start, tapi_fio_wait, tapi_fio_stop, tapi_fio_get_report,
    tapi_fio_log_report, tapi_fio_destroy, agent_dir,
  }

  abbrev pub Fios : Type 0 → Type 0
  Fios A = Test FioVars W A

  unfoldable pub read_opts : Exec W FioOpts
  read_opts = tsapi_fio_opts_read params te cfg pci fio_opts_defaults host_ta

  -- TEST_GET_RPCS(), and the options.
  unfoldable pub get_opts : Exec W FioOpts
  get_opts = test_get_rpcs host_ta >> read_opts

  abbrev pub created : FioOpts → Option ℕ × W → FioVars → Status × (FioVars × W)
  created opts (h, w) v = (ok tt, (with_fio opts h v, w))

  -- tsapi_fio_create() into the variable, which succeeds also for NULL.
  unfoldable pub create_fio : FioOpts → ℕ → Fios Unit
  create_fio opts factory (v, w) =
      created opts (tapi_fio_create opts factory (agent_dir host_ta ++ codes "/fio") w) v

  unfoldable pub prepare_fio : FioOpts → Fios Unit
  prepare_fio opts = do
    factory ← aside (tapi_job_factory_rpc_create host_ta)
    store (with_factory factory)
    create_fio opts factory

  unfoldable pub flex_wait : Option Fio → Exec W Unit
  flex_wait none = raise ended
  flex_wait (some fio) = tapi_fio_wait fio (flex_timeout te fios (wait_of fio.opts))

  unfoldable pub run_fio : Fios Unit
  run_fio = do
    reading (λ v. tapi_fio_start v.fio)
    reading (λ v. flex_wait v.fio)
    reading (λ v. tapi_fio_stop v.fio)

  abbrev pub log : ℕ → Exec W Unit
  log report w = (ok tt, tapi_fio_log_report report w)

  unfoldable pub report_fio : Fios Unit
  report_fio = reading (λ v. tapi_fio_get_report v.fio) >>= λ report. aside (log report)

  -- The label `cleanup` of a test of one FIO.
  unfoldable pub destroy_fio : FioVars → W → W
  destroy_fio v w = tapi_job_factory_destroy v.factory (tapi_fio_destroy v.fio w)

  abbrev pub cleanup_fio : FioVars → Exec W Unit
  cleanup_fio v w = (ok tt, destroy_fio v w)

  unfoldable pub fio_steps : Fios Unit
  fio_steps = do opts ← aside get_opts; prepare_fio opts; run_fio; report_fio

  -- main() of block-ts/blk-proxy/readwrite/fio.c
  unfoldable pub fio_test : Exec W Unit
  fio_test = run_or_end no_fio fio_steps cleanup_fio
