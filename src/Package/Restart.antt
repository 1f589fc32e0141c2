-- ===== src/Package/Restart.antt =====
-- block-ts/blk-proxy/config/restart_blk_proxy.c: the setting that restarts the process, after the test.
use cns_virtblk_ts.Base.{
  ℕ, zero, suc, ◌==◌, ◌≡◌, refl, ap, sym, ◌∙◌, subst, arith, Bool-cases, inl, inr, ==_iff, Bool,
  List, if◌then◌else◌,
}
use cns_virtblk_ts.Base.Text.{Bytes}
use cns_virtblk_ts.Base.Exec.{ok, err, Status, Exec, pure, >>=-run}
use cns_virtblk_ts.Te.{TeLib}
use cns_virtblk_ts.Backend.{CfgLib}
use cns_virtblk_ts.Backend.Inventory.{ServerLib}
use cns_virtblk_ts.BlkProxy.{Handle}
use cns_virtblk_ts.BlkProxy.Process.{LaunchLib}
use cns_virtblk_ts.Virtio.{PciLib}
use cns_virtblk_ts.Package.{aside, run_test, finish}
use cns_virtblk_ts.Package.Config.{
  ConfigLib, give_drivers, disable_if, cycle, before_restart, restart_once, restart_times,
  restore_autorestart, restart_blk_proxy,
}
use cns_virtblk_ts.Package.Setting.{IsSetting, before-Keeps, give-Keeps, cycle-Keeps}

module _ {W : Type 0} (te : TeLib W) (cfg : CfgLib W) (server : ServerLib W) (launch : LaunchLib W)
    (pci : PciLib W) (lib : ConfigLib W) (vendor device : Bytes) (with_rebind : Bool)
    (handle : Handle) (setting : W → ℕ) (doc : IsSetting te cfg launch pci lib handle setting) where
  -- What `aside` does, where it succeeds.
  aside-ok :
      {A : Type 0} (m : Exec W A) (s s' : ℕ × W) (a : A)
      → aside m s ≡ (ok a, s')
      → (s'.0 ≡ s.0) × (m s.1 ≡ (ok a, s'.1))
  aside-ok m s s' a h = (ap (λ r. r.1.0) (sym h), ap (λ r. (r.0, r.1.1)) h)

  disabled :
      (v : ℕ) (w w' : W)
      → setting w ≡ v
      → disable_if te cfg server launch pci lib vendor device with_rebind handle v w ≡ (ok tt, w')
      → setting w' ≡ 0
  disabled v w w' e h = elim (Bool-cases (v == 0)) [
    | inl z ↦
        let same : w ≡ w' = ap (λ r. r.1) (subst (λ b. off b w ≡ (ok tt, w')) z h) in
        ap setting (sym same) ∙ e ∙ (==_iff v 0).0 z
    | inr z ↦ doc.written 0 w w' (subst (λ b. off b w ≡ (ok tt, w')) z h)
  ]
    where
      off : Bool → Exec W Unit
      off b = if b then pure tt else lib.tapi_cfg_ps_set_autorestart handle.ta handle.ps_name 0

  -- A round that succeeds: the variable has the setting from before, and the setting is off.
  once-off :
      (s s' : ℕ × W)
      → restart_once te cfg server launch pci lib vendor device with_rebind handle s ≡ (ok tt, s')
      → (s'.0 ≡ setting s.1) × (setting s'.1 ≡ 0)
  unfolding restart_once
  once-off s s' h =
      let before = before_restart te cfg server launch pci lib vendor device with_rebind handle in
      let get = lib.tapi_cfg_ps_get_autorestart handle.ta handle.ps_name in
      let disable = disable_if te cfg server launch pci lib vendor device with_rebind handle in
      let again = cycle te cfg server launch pci lib vendor device with_rebind handle in
      let give = λ (ds : List Bytes).
        if with_rebind
        then give_drivers te cfg server launch pci lib vendor device with_rebind ds
        else pure tt in
      let (ds, s1, e1, h1, t1) = >>=-run (aside before) _ s tt (ap (λ r. r.0) h) in
      let (v, s2, e2, h2, t2) = >>=-run (aside get) _ s1 tt h1 in
      let (u3, s3, e3, h3, t3) = >>=-run (aside (disable v)) _ (v, s2.1) tt h2 in
      let (u4, s4, e4, h4, t4) = >>=-run (aside again) _ s3 tt h3 in
      let last : aside (give ds) s4 ≡ (ok tt, s') = sym (t1 ∙ t2 ∙ t3 ∙ t4) ∙ h in
      let (same1, m1) = aside-ok before s s1 ds e1 in
      let (same2, m2) = aside-ok get s1 s2 v e2 in
      let (same3, m3) = aside-ok (disable v) (v, s2.1) s3 tt e3 in
      let (same4, m4) = aside-ok again s3 s4 tt e4 in
      let (same5, m5) = aside-ok (give ds) s4 s' tt last in
      let (g1, g2) = doc.got v s1.1 s2.1 m2 in
      let k1 : setting s1.1 ≡ setting s.1 =
        ap (λ r. setting r.1) (sym m1)
        ∙ before-Keeps te cfg server launch pci lib vendor device with_rebind handle setting doc
            s.1 in
      let off : setting s3.1 ≡ 0 = disabled v s2.1 s3.1 (g2 ∙ sym g1) m3 in
      (
        same5 ∙ same4 ∙ same3 ∙ g1 ∙ k1,
        ap (λ r. setting r.1) (sym m5)
            ∙ give-Keeps te cfg server launch pci lib vendor device with_rebind handle setting doc
                with_rebind ds s4.1
            ∙ ap (λ r. setting r.1) (sym m4)
            ∙ cycle-Keeps te cfg server launch pci lib vendor device with_rebind handle setting doc
                s3.1
            ∙ off,
      )

  times-off :
      (left : ℕ) (s s' : ℕ × W)
      → s.0 ≡ 0
      → setting s.1 ≡ 0
      → restart_times te cfg server launch pci lib vendor device with_rebind left handle s
        ≡ (ok tt, s')
      → (s'.0 ≡ 0) × (setting s'.1 ≡ 0)
  unfolding restart_times
  times-off zero s s' v e h = (ap (λ r. r.1.0) (sym h) ∙ v, ap (λ r. setting r.1.1) (sym h) ∙ e)
  times-off (suc left) s s' v e h =
      let once = restart_once te cfg server launch pci lib vendor device with_rebind handle in
      let (u, s1, e1, h1, t1) = >>=-run once _ s tt (ap (λ r. r.0) h) in
      let (v1, off) = once-off s s1 e1 in times-off left s1 s' (v1 ∙ e) off (sym t1 ∙ h)

  rounds-off :
      (left : ℕ) (s s' : ℕ × W)
      → restart_times te cfg server launch pci lib vendor device with_rebind (suc left) handle s
        ≡ (ok tt, s')
      → (s'.0 ≡ (if left == 0 then setting s.1 else 0)) × (setting s'.1 ≡ 0)
  unfolding restart_times
  rounds-off zero s s' h =
      let once = restart_once te cfg server launch pci lib vendor device with_rebind handle in
      let (u, s1, e1, h1, t1) = >>=-run once _ s tt (ap (λ r. r.0) h) in
      let same : s1 ≡ s' = ap (λ r. r.1) (sym t1 ∙ h) in
      let (v1, off) = once-off s s1 e1 in
      (ap (λ r. r.0) (sym same) ∙ v1, ap (λ r. setting r.1) (sym same) ∙ off)
  rounds-off (suc left) s s' h =
      let once = restart_once te cfg server launch pci lib vendor device with_rebind handle in
      let (u, s1, e1, h1, t1) = >>=-run once _ s tt (ap (λ r. r.0) h) in
      let (v1, off) = once-off s s1 e1 in
      let two = restart_once te cfg server launch pci lib vendor device with_rebind handle in
      let (u2, s2, e2, h2, t2) = >>=-run two _ s1 tt h1 in
      let (v2, off2) = once-off s1 s2 e2 in
      let (v3, off3) = times-off left s2 s' (v2 ∙ off) off2 (sym (t1 ∙ t2) ∙ h) in
      (v3 ∙ ground arith, off3)

  restored :
      (v : ℕ) (w w' : W)
      → setting w ≡ 0
      → restore_autorestart te cfg server launch pci lib vendor device with_rebind handle v w
        ≡ (ok tt, w')
      → setting w' ≡ v
  restored v w w' e h = elim (Bool-cases (v == 0)) [
    | inl z ↦
        ap (λ r. setting r.1) (sym (subst (λ b. on b w ≡ (ok tt, w')) z h))
        ∙ e
        ∙ sym ((==_iff v 0).0 z)
    | inr z ↦ doc.written v w w' (subst (λ b. on b w ≡ (ok tt, w')) z h)
  ]
    where
      on : Bool → Exec W Unit
      on b = if b then pure tt else lib.tapi_cfg_ps_set_autorestart handle.ta handle.ps_name v

  finish-ok :
      (r : Status) (t : Status × W) (w' : W)
      → finish r t ≡ (ok tt, w')
      → (r ≡ ok tt) × (t ≡ (ok tt, w'))
  finish-ok (ok u) t w' h = (refl, h)
  finish-ok (err e) t w' h = cc

  -- When restart_blk_proxy succeeds with one round, the process has the setting that restarts it as it was
  -- before; with more rounds than one the setting is off, also if it was on before.
  pub restart-setting :
      (garbage more : ℕ) (w w' : W)
      → restart_blk_proxy te cfg server launch pci lib vendor device with_rebind garbage
          (suc more)
          handle
          w
        ≡ (ok tt, w')
      → setting w' ≡ (if more == 0 then setting w else 0)
  unfolding restart_blk_proxy run_test
  restart-setting garbage more w w' h =
      let rounds =
        restart_times te cfg server launch pci lib vendor device with_rebind (suc more) handle in
      let (r, s) = rounds (garbage, w) in
      let clean =
        restore_autorestart te cfg server launch pci lib vendor device with_rebind handle in
      let (done, cleaned) = finish-ok r (clean s.0 s.1) w' h in
      let (v, off) = rounds-off more (garbage, w) s (ap (λ x. (x, s)) done) in
      restored s.0 s.1 w' off cleaned ∙ v
