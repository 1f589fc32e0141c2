-- ===== src/Package/StabilityPerf.antt =====
-- block-ts/blk-proxy/readwrite/fio_stability_perf.c: FIO beside network traffic.
use cns_virtblk_ts.Base.{ℕ, Option, none, some}
use cns_virtblk_ts.Base.Exec.{ok, Exec, ◌>>=◌, ◌>>◌}
use cns_virtblk_ts.Te.{TeLib}
use cns_virtblk_ts.Backend.{CfgLib}
use cns_virtblk_ts.Virtio.{PciLib}
use cns_virtblk_ts.Fio.{FioLib}
use cns_virtblk_ts.Fio.Options.{FioOpts, ParamLib}
use cns_virtblk_ts.Package.{
  Test, aside, reading, store, run_or_end, TestLib, FioVars, no_fio, host_ta, arm_ta, read_opts,
  prepare_fio, run_fio, report_fio,
}
use cns_virtblk_ts.Package.ReadWrite.{within}

-- The iperf3 applications of the Test Environment. The options that are not given here are those of the
-- test.
pub record PerfLib (W : Type 0) : Type 0 where
  -- the client for a duration (int32_t), on a factory
  pub tapi_perf_client_create : ℕ → ℕ → W → Option ℕ × W
  pub tapi_perf_server_create : ℕ → W → Option ℕ × W
  pub tapi_perf_client_start : Option ℕ → Exec W Unit
  pub tapi_perf_server_start : Option ℕ → Exec W Unit
  pub tapi_perf_client_wait : Option ℕ → Exec W Unit
  pub tapi_perf_client_get_report : Option ℕ → Exec W Unit
  pub tapi_perf_server_get_report : Option ℕ → Exec W Unit
  pub tapi_perf_client_destroy : Option ℕ → W → W
  pub tapi_perf_server_destroy : Option ℕ → W → W

pub record PerfVars : Type 0 where
  pub client : Option ℕ
  pub server : Option ℕ
  pub client_factory : Option ℕ
  pub server_factory : Option ℕ

-- The source sets the applications, but not the factories.
abbrev pub unset_factories : Option ℕ → Option ℕ → PerfVars
unset_factories f g = record {
  client = none;
  server = none;
  client_factory = f;
  server_factory = g;
}

abbrev pub with_client_factory : ℕ → FioVars × PerfVars → FioVars × PerfVars
with_client_factory f (v, p) = (v, record p { client_factory = some f })

abbrev pub with_server_factory : ℕ → FioVars × PerfVars → FioVars × PerfVars
with_server_factory f (v, p) = (v, record p { server_factory = some f })

module _ (params : ParamLib) {W : Type 0} (te : TeLib W) (cfg : CfgLib W) (pci : PciLib W)
    (fios : FioLib W) (lib : TestLib W) (perf : PerfLib W) where
  open lib use {
    test_get_rpcs, tapi_job_factory_rpc_create, tapi_job_factory_destroy, tapi_fio_destroy,
  }
  open perf use {
    tapi_perf_client_create, tapi_perf_server_create, tapi_perf_client_start,
    tapi_perf_server_start, tapi_perf_client_wait, tapi_perf_client_get_report,
    tapi_perf_server_get_report, tapi_perf_client_destroy, tapi_perf_server_destroy,
  }

  abbrev pub Perf : Type 0 → Type 0
  Perf A = Test (FioVars × PerfVars) W A

  unfoldable pub create_apps : FioOpts → ℕ → ℕ → Perf Unit
  create_apps opts client_factory server_factory ((v, p), w) =
      let (client, w1) = tapi_perf_client_create opts.runtime_sec client_factory w in
      let (server, w2) = tapi_perf_server_create server_factory w1 in
      (ok tt, ((v, record p { client = client; server = server }), w2))

  unfoldable pub prepare_iperf : FioOpts → Perf Unit
  prepare_iperf opts = do
    client_factory ← aside (tapi_job_factory_rpc_create host_ta)
    store (with_client_factory client_factory)
    server_factory ← aside (tapi_job_factory_rpc_create arm_ta)
    store (with_server_factory server_factory)
    create_apps opts client_factory server_factory

  unfoldable pub iperf_reports : Perf Unit
  iperf_reports = do
    reading (λ v. tapi_perf_client_wait v.1.client)
    reading (λ v. tapi_perf_client_get_report v.1.client)
    reading (λ v. tapi_perf_server_get_report v.1.server)

  unfoldable pub stability_perf_steps : Perf Unit
  stability_perf_steps = do
    aside (test_get_rpcs host_ta)
    aside (test_get_rpcs arm_ta)
    opts ← aside (read_opts params te cfg pci fios lib)
    prepare_iperf opts
    within (prepare_fio params te cfg pci fios lib opts)
    reading (λ v. tapi_perf_server_start v.1.server)
    reading (λ v. tapi_perf_client_start v.1.client)
    within (run_fio params te cfg pci fios lib)
    iperf_reports
    within (report_fio params te cfg pci fios lib)

  unfoldable pub cleanup_perf : FioVars × PerfVars → Exec W Unit
  cleanup_perf (v, p) w =
      let w1 = tapi_fio_destroy v.fio w in
      let w2 = tapi_perf_client_destroy p.client w1 in
      let w3 = tapi_perf_server_destroy p.server w2 in
      let w4 = tapi_job_factory_destroy p.client_factory w3 in
      let w5 = tapi_job_factory_destroy p.server_factory w4 in
      (ok tt, tapi_job_factory_destroy v.factory w5)

  -- main() of fio_stability_perf.c, for what the pointers to the factories hold that are not set.
  unfoldable pub fio_stability_perf : Option ℕ → Option ℕ → Exec W Unit
  fio_stability_perf f g =
      run_or_end (no_fio, unset_factories f g) stability_perf_steps cleanup_perf
