-- ===== src/Package/Leak.antt =====
-- block-ts/blk-proxy/readwrite/fio_stability.c: what the test leaves.
use cns_virtblk_ts.Base.{
  ℕ, ◌+◌, ◌-◌, ◌≤◌, ◌≡◌, refl, ap, sym, ◌∙◌, arith, Bool, true, false, Option, none, some, ◌⊎◌, inl,
  inr, if◌then◌else◌,
}
use cns_virtblk_ts.Base.Text.{Bytes, strcmp}
use cns_virtblk_ts.Base.Exec.{
  Result, Status, ended_by, ok, err, continue, efail, pure, raise, ◌>>=◌, ◌>>◌,
}
use cns_virtblk_ts.Te.{TeLib}
use cns_virtblk_ts.Backend.{CfgLib}
use cns_virtblk_ts.Virtio.{PciLib}
use cns_virtblk_ts.Fio.{FioLib}
use cns_virtblk_ts.Fio.Options.{ParamLib}
use cns_virtblk_ts.Ceph.Live.{succeeded}
use cns_virtblk_ts.Package.{
  Test, aside, finish, run_or_end, TestLib, FioVars, no_fio, host_ta, arm_ta, read_opts,
  prepare_fio, run_fio, report_fio,
}
use cns_virtblk_ts.Package.Owned.{
  held, Keeps, Owns, Stays, aside-Stays, >>=-Stays, Fresh, >>=-Fresh, aside-Fresh, finish-live,
}
use cns_virtblk_ts.Package.Counts.{
  IsTestCount, own, read_opts-Keeps, run_fio-Stays, report_fio-Stays, prepare_fio-Fresh,
}
use cns_virtblk_ts.Package.ReadWrite.{
  LoadLib, within, get_stress_rpcs, stability_steps, cleanup_stability, fio_stability,
}

-- The same count counts the stress applications.
pub record IsLoadCount {W : Type 0} (load : LoadLib W) (live : W → ℕ) : Type 0 where
  pub stress_made :
      (f : ℕ) (w : W)
      → live (load.tapi_stress_create f w).1
        ≡ (if succeeded (load.tapi_stress_create f w).0 then live w + 1 else live w)
  pub stress_destroyed :
      (a : Option ℕ) (w : W) → live (load.tapi_stress_destroy a w) ≡ live w - held a
  pub stress_start_keeps : (a : Option ℕ) → Keeps live (load.tapi_stress_start a)
  pub stress_stop_keeps : (a : Option ℕ) → Keeps live (load.tapi_stress_stop a)

-- What the variables of FIO and another pointer own.
abbrev own_both : ℕ → FioVars × Option ℕ → ℕ
own_both n (v, x) = own (n + held x) v

module _ {W : Type 0} (live : W → ℕ) where
  within-Stays :
      {A : Type 0} (m : Test FioVars W A) → Stays own live m → Stays own_both live (within m)
  within-Stays m k n ((v, x), w) h = k (n + held x) (v, w) h

  within-Fresh :
      {A : Type 0} (m : Test FioVars W A) (x : Option ℕ)
      → Fresh own live no_fio m
      → Fresh own_both live (no_fio, x) (within m)
  within-Fresh m x k n w h = k (n + held x) w h

module _ (params : ParamLib) {W : Type 0} (te : TeLib W) (cfg : CfgLib W) (pci : PciLib W)
    (fios : FioLib W) (lib : TestLib W) (load : LoadLib W) (live : W → ℕ)
    (count : IsTestCount te pci lib live) (loads : IsLoadCount load live) where
  -- From the stress application on.
  after_app-Fresh :
      (app : ℕ)
      → Fresh own_both live
          (no_fio, some app)
          (do
            opts ← aside (read_opts params te cfg pci fios lib)
            within (prepare_fio params te cfg pci fios lib opts)
            aside (load.tapi_stress_start (some app))
            within (run_fio params te cfg pci fios lib)
            aside (load.tapi_stress_stop (some app))
            within (report_fio params te cfg pci fios lib))
  after_app-Fresh app =
      let start = load.tapi_stress_start (some app) in
      let stop = load.tapi_stress_stop (some app) in
      let run = run_fio params te cfg pci fios lib in
      let report = report_fio params te cfg pci fios lib in
      aside-Fresh own_both live (no_fio, some app) (read_opts params te cfg pci fios lib) _
        (read_opts-Keeps params te cfg pci fios lib live count)
        (λ opts.
          >>=-Fresh own_both live (no_fio, some app)
            (within (prepare_fio params te cfg pci fios lib opts)) _
            (within-Fresh live (prepare_fio params te cfg pci fios lib opts) (some app)
              (prepare_fio-Fresh params te cfg pci fios lib live count opts))
            (λ _.
              >>=-Stays own_both live (aside start) _
                (aside-Stays own_both live start (loads.stress_start_keeps (some app)))
                (λ _.
                  >>=-Stays own_both live (within run) _
                    (within-Stays live run (run_fio-Stays params te cfg pci fios lib live count))
                    (λ _.
                      >>=-Stays own_both live (aside stop) _
                        (aside-Stays own_both live stop (loads.stress_stop_keeps (some app)))
                        (λ _.
                          within-Stays live report
                            (report_fio-Stays params te cfg pci fios lib live count))))))

  app-Owns :
      {A : Type 0} (n : ℕ) (r : Result ℕ) (w : W) (f : ℕ → Test (FioVars × Option ℕ) W A)
      → live w ≡ (if succeeded r then n + 1 else n)
      → ((app : ℕ) → live w ≡ n + 1 → Owns own_both live n (f app ((no_fio, none), w)).1)
      → Owns own_both live n (continue r f ((no_fio, none), w)).1
  app-Owns n (ok app) w f h k = k app h
  app-Owns n (err e) w f h k = omega (arith, h)

  stability_steps-Owns :
      (f : ℕ) (w : W)
      → Owns own_both live
          (live w)
          (stability_steps params te cfg pci fios lib load f ((no_fio, none), w)).1
  unfolding stability_steps
  stability_steps-Owns f w =
      let r = load.tapi_stress_create f w in
      app-Owns (live w) r.0 r.1 _ (loads.stress_made f w)
        (λ app h. after_app-Fresh app (live w) r.1 (omega (arith, h)))

  cleanup-live :
      (n : ℕ) (s : (FioVars × Option ℕ) × W)
      → Owns own_both live n s
      → live (cleanup_stability params te cfg pci fios lib load s.0 s.1).1 ≡ n
  cleanup-live n ((v, x), w) h =
      let w1 = lib.tapi_fio_destroy v.fio w in
      let w2 = load.tapi_stress_destroy x w1 in
      omega (
        arith,
        h,
        count.fio_destroyed v.fio w,
        loads.stress_destroyed x w1,
        count.factory_destroyed v.factory w2,
      )

  stress_rpcs-Keeps :
      (a b : Bool)
      → Keeps live (if a then pure tt else if b then lib.test_get_rpcs arm_ta else raise efail)
  stress_rpcs-Keeps true b w = refl
  stress_rpcs-Keeps false true w = count.rpcs_keeps arm_ta w
  stress_rpcs-Keeps false false w = refl

  get_stress_rpcs-Keeps :
      (stress_ta : Bytes) → Keeps live (get_stress_rpcs params te cfg pci fios lib load stress_ta)
  unfolding get_stress_rpcs
  get_stress_rpcs-Keeps stress_ta =
      stress_rpcs-Keeps (strcmp stress_ta host_ta) (strcmp stress_ta arm_ta)

  or_end-live :
      (b : Bool) (r : Status) (t : Status × W) (w : W) (n : ℕ)
      → ended_by r ≡ b
      → n + 1 ≤ live w
      → live t.1 ≡ n + 1
      → (let result = if b then (r, w) else finish r t in
          ((ended_by result.0 ≡ true) × (n + 1 ≤ live result.1)) ⊎ (live result.1 ≡ n + 1))
  or_end-live true r t w n e k h = inl (e, k)
  or_end-live false r t w n e k h = inr (finish-live live r t ∙ h)

  -- Where `live` counts the job factories and the applications of FIO and stress: once fio_stability has
  -- made the factory for the stress application, it leaves one more than there were before, whether
  -- its steps then succeed or not; and at least one more where its process ends in them.
  pub fio_stability-leaks :
      (stress_ta : Bytes) (f : ℕ) (w w1 w2 w3 : W)
      → lib.test_get_rpcs host_ta w ≡ (ok tt, w1)
      → get_stress_rpcs params te cfg pci fios lib load stress_ta w1 ≡ (ok tt, w2)
      → lib.tapi_job_factory_rpc_create stress_ta w2 ≡ (ok f, w3)
      → (let result = fio_stability params te cfg pci fios lib load stress_ta w in
          ((ended_by result.0 ≡ true) × (live w + 1 ≤ live result.1))
          ⊎ (live result.1 ≡ live w + 1))
  unfolding fio_stability run_or_end
  fio_stability-leaks stress_ta f w w1 w2 w3 h1 h2 h3 =
      let t = stability_steps params te cfg pci fios lib load f ((no_fio, none), w3) in
      let made = count.factory_made stress_ta w2 in
      let three : live w3 ≡ live w2 + 1 =
        ap (λ r. live r.1) (sym h3)
        ∙ made
        ∙ ap (λ r. if succeeded r.0 then live w2 + 1 else live w2) h3 in
      let before : live w2 ≡ live w =
        ap (λ r. live r.1) (sym h2)
        ∙ get_stress_rpcs-Keeps stress_ta w1
        ∙ ap (λ r. live r.1) (sym h1)
        ∙ count.rpcs_keeps host_ta w in
      let owns = stability_steps-Owns f w3 in
      let clean = cleanup_stability params te cfg pci fios lib load t.1.0 t.1.1 in
      rw h1 (
        rw h2 (
          rw h3 (
            or_end-live (ended_by t.0) t.0 clean t.1.1 (live w) refl
              (omega (arith, owns, three, before))
              (cleanup-live (live w3) t.1 owns ∙ three ∙ ap (λ n. n + 1) before))))
