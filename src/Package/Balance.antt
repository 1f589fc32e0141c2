-- ===== src/Package/Balance.antt =====
-- block-ts/blk-proxy: what the tests of FIO have made, and whether their clean-up destroys it.
use cns_virtblk_ts.Base.{ℕ, zero, suc, ◌+◌, ◌≡◌, refl, ◌∙◌, arith, Bool, true, false, not, ◌⊎◌}
use cns_virtblk_ts.Base.Text.{Bytes}
use cns_virtblk_ts.Base.Exec.{Result, ok, err, ended_by, ◌>>=◌, ◌>>◌}
use cns_virtblk_ts.Te.{TeLib}
use cns_virtblk_ts.Backend.{CfgLib}
use cns_virtblk_ts.Virtio.{PciLib}
use cns_virtblk_ts.Fio.{FioLib}
use cns_virtblk_ts.Fio.Options.{FioOpts, ParamLib}
use cns_virtblk_ts.Package.{
  aside, reading, TestLib, no_fio, get_opts, prepare_fio, run_fio, report_fio, cleanup_fio,
  flex_wait, arm_ta, fio_steps, fio_test,
}
use cns_virtblk_ts.Package.Owned.{
  Keeps, Stays, aside-Stays, reading-Stays, >>=-Stays, Fresh, >>=-Fresh, aside-Fresh,
  run_or_end-live,
}
use cns_virtblk_ts.Package.Counts.{
  IsTestCount, own, get_opts-Keeps, flex_wait-Keeps, run_fio-Stays, report_fio-Stays,
  prepare_fio-Fresh, destroy_fio-live,
}
use cns_virtblk_ts.Package.ReadWrite.{pattern_steps, fio_pattern}
use cns_virtblk_ts.Package.Pattern.{pattern_steps-Fresh}
use cns_virtblk_ts.Package.Config.{
  ConfigLib, reboot_if, log_any, reboot_once, reboot_times, reboot_arm,
}

module _ (params : ParamLib) {W : Type 0} (te : TeLib W) (cfg : CfgLib W) (pci : PciLib W)
    (fios : FioLib W) (lib : TestLib W) (live : W → ℕ) (count : IsTestCount te pci lib live) where
  run_and_report-Stays :
      Stays own live
        (run_fio params te cfg pci fios lib >>= λ _. report_fio params te cfg pci fios lib)
  run_and_report-Stays =
      >>=-Stays own live (run_fio params te cfg pci fios lib) _
        (run_fio-Stays params te cfg pci fios lib live count)
        (λ _. report_fio-Stays params te cfg pci fios lib live count)

  -- One run of FIO.
  whole-Fresh :
      (opts : FioOpts)
      → Fresh own live no_fio (do
        prepare_fio params te cfg pci fios lib opts
        run_fio params te cfg pci fios lib
        report_fio params te cfg pci fios lib)
  whole-Fresh opts =
      >>=-Fresh own live no_fio (prepare_fio params te cfg pci fios lib opts) _
        (prepare_fio-Fresh params te cfg pci fios lib live count opts) (λ _. run_and_report-Stays)

  fio_steps-Fresh : Fresh own live no_fio (fio_steps params te cfg pci fios lib)
  unfolding fio_steps
  fio_steps-Fresh =
      aside-Fresh own live no_fio (get_opts params te cfg pci fios lib) _
        (get_opts-Keeps params te cfg pci fios lib live count) whole-Fresh

  reboot-Keeps :
      (config : ConfigLib W)
      → ((ta : Bytes) → Keeps live (config.cfg_reboot_ta ta))
      → (after b : Bool) → Keeps live (reboot_if params te cfg pci fios lib config after b)
  reboot-Keeps config k after true w = k arm_ta w
  reboot-Keeps config k after false w = refl

  logged-Keeps :
      (config : ConfigLib W) (after : Bool) (old : ℕ) (r : Result ℕ × W)
      → live (log_any params te cfg pci fios lib config after old r).1 ≡ live r.1
  logged-Keeps config after old (ok report, w) = count.log_keeps report w
  logged-Keeps config after old (err e, w) = count.log_keeps old w

  module _ (config : ConfigLib W)
      (reboot_keeps : (ta : Bytes) → Keeps live (config.cfg_reboot_ta ta)) (after : Bool) where
    reboot_once-Stays :
        (old : ℕ) → Stays own live (reboot_once params te cfg pci fios lib config after old)
    unfolding reboot_once
    reboot_once-Stays old =
        let reboots = reboot_if params te cfg pci fios lib config after in
        let wait = flex_wait params te cfg pci fios lib in
        >>=-Stays own live (reading (λ v. lib.tapi_fio_start v.fio)) _
          (reading-Stays own live (λ v. lib.tapi_fio_start v.fio) (λ v. count.start_keeps v.fio))
          (λ _.
            >>=-Stays own live (aside (reboots (not after))) _
              (aside-Stays own live (reboots (not after))
                (reboot-Keeps config reboot_keeps after (not after)))
              (λ _.
                >>=-Stays own live (reading (λ v. wait v.fio)) _
                  (reading-Stays own live (λ v. wait v.fio)
                    (λ v. flex_wait-Keeps params te cfg pci fios lib live count v.fio))
                  (λ _.
                    >>=-Stays own live (reading (λ v. lib.tapi_fio_stop v.fio)) _
                      (reading-Stays own live (λ v. lib.tapi_fio_stop v.fio)
                        (λ v. count.stop_keeps v.fio))
                      (λ _.
                        >>=-Stays own live (aside (reboots after)) _
                          (aside-Stays own live (reboots after)
                            (reboot-Keeps config reboot_keeps after after))
                          (λ _ n s h.
                            logged-Keeps config after old (lib.tapi_fio_get_report (s.0).fio s.1)
                            ∙ count.report_keeps (s.0).fio s.1
                            ∙ h)))))

    reboot_times-Stays :
        (left old : ℕ)
        → Stays own live (reboot_times params te cfg pci fios lib config after left old)
    unfolding reboot_times
    reboot_times-Stays zero old n s h = h
    reboot_times-Stays (suc left) old n s h =
        >>=-Stays own live (reboot_once params te cfg pci fios lib config after old) _
          (reboot_once-Stays old) (reboot_times-Stays left) n s h

    -- Where `live` counts the job factories and the FIO applications, and rebooting an agent leaves the
    -- number as it is: each of the tests fio, fio_pattern and reboot_arm leaves as many as there were
    -- before, whatever its parameters are and whatever step of it fails, unless its process ends.
    pub fio_tests-balance :
        (garbage count_iter : ℕ) (w : W)
        → (let whole = fio_test params te cfg pci fios lib w in
            let pattern = fio_pattern params te cfg pci fios lib w in
            let reboot = reboot_arm params te cfg pci fios lib config after garbage count_iter w in
            ((ended_by whole.0 ≡ true) ⊎ (live whole.1 ≡ live w))
            × ((ended_by pattern.0 ≡ true) ⊎ (live pattern.1 ≡ live w))
            × ((ended_by reboot.0 ≡ true) ⊎ (live reboot.1 ≡ live w)))
    unfolding fio_test fio_pattern reboot_arm
    fio_tests-balance garbage count_iter w =
        let cleanup = cleanup_fio params te cfg pci fios lib in
        let clean = destroy_fio-live params te cfg pci fios lib live count in
        let e : live w ≡ live w + 0 + 0 = omega arith in
        (
          run_or_end-live own live no_fio (fio_steps params te cfg pci fios lib) cleanup w e
              fio_steps-Fresh clean,
          run_or_end-live own live no_fio (pattern_steps params te cfg pci fios lib) cleanup w e
              (pattern_steps-Fresh params te cfg pci fios lib live count) clean,
          run_or_end-live own live no_fio _ cleanup w e
              (aside-Fresh own live no_fio (get_opts params te cfg pci fios lib) _
                (get_opts-Keeps params te cfg pci fios lib live count)
                (λ opts.
                  >>=-Fresh own live no_fio (prepare_fio params te cfg pci fios lib opts) _
                    (prepare_fio-Fresh params te cfg pci fios lib live count opts)
                    (λ _. reboot_times-Stays count_iter garbage)))
              clean,
        )
