-- ===== src/BlkProxy/Running.antt =====
-- When the start of the blk-proxy succeeds.
use cns_virtblk_ts.Base.{◌≡◌, refl, ap, ◌∙◌, sym, Bool, true, false}
use cns_virtblk_ts.Base.Text.{Bytes}
use cns_virtblk_ts.Base.Exec.{ok, ◌>>=◌, >>=-run}
use cns_virtblk_ts.Te.{TeLib}
use cns_virtblk_ts.Backend.{CfgLib}
use cns_virtblk_ts.Ceph.Cluster.{tsapi_use_onload}
use cns_virtblk_ts.BlkProxy.{Handle}
use cns_virtblk_ts.BlkProxy.Process.{LaunchLib}
use cns_virtblk_ts.BlkProxy.Lifecycle.{
  kill_if, started, tsapi_blkproxy_kill_orphaned_stacks, tsapi_blkproxy_start,
}

-- The processes that run: an answer on one is whether it runs, and asking changes nothing.
pub record IsStatus {W : Type 0} (lib : LaunchLib W) (runs : Bytes → Bytes → W → Bool)
    : Type 0 where
  pub status_lem :
      (ta name : Bytes) (b : Bool) (w w' : W)
      → lib.tapi_cfg_ps_get_status ta name w ≡ (ok b, w')
      → (b ≡ runs ta name w) × (w' ≡ w)

module _ {W : Type 0} (te : TeLib W) (cfg : CfgLib W) (lib : LaunchLib W)
    (runs : Bytes → Bytes → W → Bool) (doc : IsStatus lib runs) (handle : Handle) where
  started-ok :
      (b : Bool) (w : W)
      → (started te cfg lib b w).0 ≡ ok tt
      → (started te cfg lib b w ≡ (ok tt, w)) × (b ≡ true)
  started-ok true w h = (refl, refl)
  started-ok false w h = cc

  -- The start succeeds only when the orphaned stacks could be killed, if Onload is used, then the
  -- process could be started, and it runs after a sleep of 15 seconds, in the state that is left.
  pub start-order :
      (w : W)
      → (tsapi_blkproxy_start te cfg lib handle w).0 ≡ ok tt
      → (onload : Bool) × (w1 w2 w3 : W) × (tsapi_use_onload te cfg w ≡ (ok onload, w1))
        × (kill_if te cfg lib onload w1 ≡ (ok tt, w2))
        × (lib.tapi_cfg_ps_start handle.ta handle.ps_name w2 ≡ (ok tt, w3))
        × (tsapi_blkproxy_start te cfg lib handle w ≡ (ok tt, lib.te_motivated_sleep 15 w3))
        × (runs handle.ta handle.ps_name (lib.te_motivated_sleep 15 w3) ≡ true)
  unfolding tsapi_blkproxy_start tsapi_blkproxy_kill_orphaned_stacks
  start-order w h =
      let use_onload = tsapi_use_onload te cfg in
      let (u1, w2, e1, h1, s1) = >>=-run (use_onload >>= kill_if te cfg lib) _ w tt h in
      let (onload, w1, e0, h0, s0) =
        >>=-run use_onload (kill_if te cfg lib) w u1 (ap (λ r. r.0) e1) in
      let (u2, w3, e2, h2, s2) =
        >>=-run (lib.tapi_cfg_ps_start handle.ta handle.ps_name) _ w2 tt h1 in
      let w4 = lib.te_motivated_sleep 15 w3 in
      let asked = lib.tapi_cfg_ps_get_status handle.ta handle.ps_name in
      let (b, w5, e3, h3, s3) = >>=-run asked (started te cfg lib) w4 tt h2 in
      let (e4, r) = started-ok b w5 h3 in
      let (answer, same) = doc.status_lem handle.ta handle.ps_name b w4 w5 e3 in
      let run = s1 ∙ s2 ∙ s3 ∙ e4 ∙ ap (λ v. (ok tt, v)) same in
      (onload, w1, w2, w3, e0, sym s0 ∙ e1, e2, run, sym answer ∙ r)
