-- ===== src/Package/Pattern.antt =====
-- block-ts/blk-proxy/readwrite/fio_pattern.c: the options of its two runs, and what its steps hold.
use cns_virtblk_ts.Base.{
  ℕ, ◌+◌, ◌≡◌, refl, ap, sym, ◌∙◌, ltb, arith, Bool, true, false, Option, none, some, [], ◌++◌,
  if◌then◌else◌,
}
use cns_virtblk_ts.Base.Text.{Bytes, codes}
use cns_virtblk_ts.Base.Exec.{Result, ok, err, Status, Exec, continue, pure, ◌>>=◌}
use cns_virtblk_ts.Te.{TeLib}
use cns_virtblk_ts.Backend.{CfgLib}
use cns_virtblk_ts.Virtio.{PciLib}
use cns_virtblk_ts.Fio.{FioLib}
use cns_virtblk_ts.Fio.Options.{FioOpts, ParamLib}
use cns_virtblk_ts.Package.{
  Test, Fio, TestLib, FioVars, no_fio, with_factory, get_opts, create_fio, run_fio,
}
use cns_virtblk_ts.Package.Owned.{
  held, Keeps, >>=-Keeps, Owns, Stays, reading-Stays, >>=-Stays, Fresh, aside-Fresh,
}
use cns_virtblk_ts.Package.Counts.{
  IsTestCount, own, get_opts-Keeps, create_fio-Owns, run_fio-Stays, report_fio-Stays,
  with_factory-Fresh,
}
use cns_virtblk_ts.Package.ReadWrite.{
  append, append_overlap, get_common_verify_opts, get_writter_verify_opts, get_verification_opts,
  changed, change_of, change_opts, pattern_runs, pattern_steps, get_report,
}
use cns_virtblk_ts.Package.Found.{appended-live}

module _ (params : ParamLib) {W : Type 0} (te : TeLib W) (cfg : CfgLib W) (pci : PciLib W)
    (fios : FioLib W) (lib : TestLib W) (live : W → ℕ) (count : IsTestCount te pci lib live) where
  append-Keeps : (s t : Bytes) → Keeps live (append params te cfg pci fios lib s t)
  append-Keeps s t w = appended-live live (te.te_string_append s t w) ∙ count.append_keeps s t w

  -- A text that is appended to, and what is done with it.
  append-then :
      {B : Type 0} (s t : Bytes) (f : Bytes → Exec W B)
      → ((a : Bytes) → Keeps live (f a))
      → Keeps live (append params te cfg pci fios lib s t >>= f)
  append-then s t f k =
      >>=-Keeps live (append params te cfg pci fios lib s t) f (append-Keeps s t) k

  common-Keeps :
      (opts : FioOpts) → Keeps live (get_common_verify_opts params te cfg pci fios lib opts)
  unfolding get_common_verify_opts
  common-Keeps opts =
      append-then [] (codes " --verify=md5") _
        (λ vopts. append-Keeps vopts (codes " --verify_interval=" ++ cfg.decimal opts.blocksize))

  overlap-Keeps :
      (b : Bool) (s : Bytes)
      → Keeps live (if b then append_overlap params te cfg pci fios lib s else pure s)
  overlap-Keeps true s w =
      append-then s (codes " --serialize_overlap=1") _
        (λ s'. append-Keeps s' (codes " --overwrite=1")) w
  overlap-Keeps false s w = refl

  writter-Keeps :
      (opts : FioOpts) → Keeps live (get_writter_verify_opts params te cfg pci fios lib opts)
  unfolding get_writter_verify_opts
  writter-Keeps opts =
      >>=-Keeps live (get_common_verify_opts params te cfg pci fios lib opts) _ (common-Keeps opts)
        (λ s. append-then s (codes " --do_verify=0") _ (λ s1.
          append-then s1 (codes " --verify_state_save=1") _ (λ s2.
            append-then s2 (codes " --rw=randwrite") _
              (λ s3. >>=-Keeps live _ _ (overlap-Keeps (ltb 1 opts.iodepth) s3) (λ s4 w. refl)))))

  verification-Keeps :
      (opts : FioOpts) → Keeps live (get_verification_opts params te cfg pci fios lib opts)
  unfolding get_verification_opts
  verification-Keeps opts =
      >>=-Keeps live (get_common_verify_opts params te cfg pci fios lib opts) _ (common-Keeps opts)
        (λ s. append-then s (codes " --verify_state_load=1") _ (λ s1.
          append-then s1 (codes " --do_verify=1") _ (λ s2.
            append-then s2 (codes " --verify_fatal=1") _ (λ s3.
              append-then s3 (codes " --verify_dump=1") _
                (λ s4. append-then s4 (codes " --rw=randread") _ (λ s5 w. refl))))))

  changed-Owns :
      (n : ℕ) (v : FioVars) (a : Fio) (r : Result FioOpts × W)
      → live r.1 ≡ n + held v.factory + 1
      → n + held v.factory + held v.fio ≡ n + held v.factory + 1
      → Owns own live n (changed params te cfg pci fios lib v a r).1
  changed-Owns n v a (ok opts, w) h e = h
  changed-Owns n v a (err e', w) h e = h ∙ sym e

  change_opts-Stays :
      (m : FioOpts → Exec W FioOpts)
      → ((opts : FioOpts) → Keeps live (m opts))
      → Stays own live (change_opts params te cfg pci fios lib m)
  unfolding change_opts
  change_opts-Stays m k n (v, w) h = by_fio v.fio refl
    where
      by_fio :
          (a : Option Fio)
          → v.fio ≡ a
          → Owns own live n (change_of params te cfg pci fios lib m a (v, w)).1
      by_fio none e = h
      by_fio (some a) e =
          changed-Owns n v a (m a.opts w) (k a.opts w ∙ h ∙ ap (λ x. n + held v.factory + held x) e)
            (ap (λ x. n + held v.factory + held x) e)

  pattern_runs-Stays : Stays own live (pattern_runs params te cfg pci fios lib)
  unfolding pattern_runs
  pattern_runs-Stays =
      let writes = get_writter_verify_opts params te cfg pci fios lib in
      let reads = get_verification_opts params te cfg pci fios lib in
      let run = run_fio params te cfg pci fios lib in
      let run-Stays = run_fio-Stays params te cfg pci fios lib live count in
      >>=-Stays own live (change_opts params te cfg pci fios lib writes) _
        (change_opts-Stays writes writter-Keeps)
        (λ _. >>=-Stays own live run _ run-Stays (λ _.
          >>=-Stays own live (get_report params te cfg pci fios lib) _
            (reading-Stays own live (λ v. lib.tapi_fio_get_report v.fio)
              (λ v. count.report_keeps v.fio))
            (λ _.
              >>=-Stays own live (change_opts params te cfg pci fios lib reads) _
                (change_opts-Stays reads verification-Keeps)
                (λ _.
                  >>=-Stays own live run _ run-Stays
                    (λ _. report_fio-Stays params te cfg pci fios lib live count)))))

  set_path-Owns :
      (n f : ℕ) (r : Status) (w : W) (rest : Test FioVars W Unit)
      → live w ≡ n + 1
      → ((w' : W) → live w' ≡ n + 1 → Owns own live n (rest (with_factory f no_fio, w')).1)
      → Owns own live n (continue r (λ _. rest) (with_factory f no_fio, w)).1
  set_path-Owns n f (ok u) w rest h k = k w h
  set_path-Owns n f (err e) w rest h k = omega (arith, h)

  continue-Owns :
      (n : ℕ) (r : Status) (s : FioVars × W) (rest : Test FioVars W Unit)
      → Owns own live n s
      → Stays own live rest
      → Owns own live n (continue r (λ _. rest) s).1
  continue-Owns n (ok u) s rest h k = k n s h
  continue-Owns n (err e) s rest h k = h

  pub pattern_steps-Fresh : Fresh own live no_fio (pattern_steps params te cfg pci fios lib)
  unfolding pattern_steps
  pattern_steps-Fresh =
      aside-Fresh own live no_fio (get_opts params te cfg pci fios lib) _
        (get_opts-Keeps params te cfg pci fios lib live count)
        (λ opts. with_factory-Fresh params te cfg pci fios lib live count _ (λ n f w h.
          set_path-Owns n f (lib.tapi_job_factory_set_path f w).0
            (lib.tapi_job_factory_set_path f w).1
            (create_fio params te cfg pci fios lib opts f >>= λ _.
              pattern_runs params te cfg pci fios lib)
            (count.path_keeps f w ∙ h)
            (λ w' h'.
              let v = with_factory f no_fio in
              let t = create_fio params te cfg pci fios lib opts f (v, w') in
              continue-Owns n t.0 t.1 (pattern_runs params te cfg pci fios lib)
                (create_fio-Owns params te cfg pci fios lib live count opts f n v w' h')
                pattern_runs-Stays)))
