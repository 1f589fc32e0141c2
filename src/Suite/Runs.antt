-- ===== src/Suite/Runs.antt =====
-- What has been done when the prologue succeeds.
use cns_virtblk_ts.Base.{ℕ, ◌≡◌, ap, ◌∙◌, sym, Bool, true, Option, none, some, List}
use cns_virtblk_ts.Base.Text.{Bytes, codes}
use cns_virtblk_ts.Base.Exec.{ok, Exec, >>=-run}
use cns_virtblk_ts.Backend.{BackendType, Callbacks, backend_callbacks, tsapi_backend_get_type}
use cns_virtblk_ts.BlkProxy.{Handle}
use cns_virtblk_ts.BlkProxy.Create.{tsapi_blkproxy_create_conf}
use cns_virtblk_ts.BlkProxy.Process.{
  allocated, build_config_agent_dir, build_config_local_dir, tsapi_blkproxy_handle_init,
}
use cns_virtblk_ts.BlkProxy.Lifecycle.{tsapi_blkproxy_start}
use cns_virtblk_ts.BlkProxy.Running.{IsStatus, start-order}
use cns_virtblk_ts.Virtio.{tsapi_virtio_blocks_count}
use cns_virtblk_ts.Suite.{Libs, Net, arm_ta, host_ta}
use cns_virtblk_ts.Suite.Prologue.{
  row_or_fail, setup_env, known_backend, start_tools, prepare_backend, init_proxy, start_proxy,
  bind_host, prologue,
}

module _ {W : Type 0} (libs : Libs W) (runs : Bytes → Bytes → W → Bool)
    (doc : IsStatus libs.launch runs) where
  open libs use {te, cfg, server, launch, proxy, pci, suite}

  row_or_fail-ok :
      (type : BackendType) (row : Option Callbacks) (w : W) (b : BackendType × Callbacks)
      → (row_or_fail libs type row w).0 ≡ ok b
      → (row ≡ some b.1) × (b.0 ≡ type) × (row_or_fail libs type row w ≡ (ok b, w))
  row_or_fail-ok type none w b h = cc
  row_or_fail-ok type (some row) w b h =
      let e : ◌≡◌ {A = BackendType × Callbacks} (type, row) b = cc in
      (ap (λ q. some q.1) e, ap (λ q. q.0) (sym e), ap (λ q. (ok q, w)) e)

  names_of : (made h : Handle) → ok made ≡ ok h → (h.ta ≡ made.ta) × (h.ps_name ≡ made.ps_name)
  names_of made h e = let same : h ≡ made = cc in (ap (λ x. x.ta) same, ap (λ x. x.ps_name) same)

  handle_init-names :
      (ta : Bytes) (w : W) (h : Handle)
      → (tsapi_blkproxy_handle_init te cfg server launch (some ta) none none w).0 ≡ ok h
      → (h.ta ≡ ta) × (h.ps_name ≡ codes "blk-proxy")
  unfolding tsapi_blkproxy_handle_init
  handle_init-names ta w h e =
      let alloc : Exec W Unit = λ v. allocated te cfg server launch (launch.te_alloc v) in
      let (u, w1, e1, h1, s1) = >>=-run alloc _ w h e in
      let (agent, w2, e2, h2, s2) =
        >>=-run (build_config_agent_dir te cfg server launch ta) _ w1 h h1 in
      let (local, w3, e3, h3, s3) =
        >>=-run (build_config_local_dir te cfg server launch ta) _ w2 h h2 in
      names_of _ h h3

  start_proxy-runs :
      (argv : List Bytes) (w w' : W) (h : Handle)
      → start_proxy libs argv w ≡ (ok h, w')
      → runs arm_ta (codes "blk-proxy") w' ≡ true
  unfolding start_proxy
  start_proxy-runs argv w w' h e =
      let init = tsapi_blkproxy_handle_init te cfg server launch (some arm_ta) none none in
      let (p, w1, e1, h1, s1) = >>=-run init _ w h (ap (λ r. r.0) e) in
      let create =
        tsapi_blkproxy_create_conf te cfg server proxy p (codes "config_converter.py") argv in
      let (u2, w2, e2, h2, s2) = >>=-run create _ w1 h h1 in
      let add = suite.tapi_cfg_module_add arm_ta (codes "uio_pci_generic") in
      let (u3, w3, e3, h3, s3) = >>=-run add _ w2 h h2 in
      let bind =
        suite.bind_driver_by_vend_dev_inst arm_ta (codes "10ee") (codes "00f0") 0
          (codes "uio_pci_generic") in
      let (u4, w4, e4, h4, s4) = >>=-run bind _ w3 h h3 in
      let (u5, w5, e5, h5, s5) = >>=-run (init_proxy libs p) _ w4 h h4 in
      let (u6, w6, e6, h6, s6) = >>=-run (tsapi_blkproxy_start te cfg launch p) _ w5 h h5 in
      let (onload, v1, v2, v3, o1, o2, o3, o4, r) =
        start-order te cfg launch runs doc p w5 (ap (λ x. x.0) e6) in
      let (n1, n2) = handle_init-names arm_ta w p (ap (λ x. x.0) e1) in
      let v = launch.te_motivated_sleep 15 v3 in
      let same : w' ≡ v =
        ap (λ x. x.1) (sym e ∙ s1 ∙ s2 ∙ s3 ∙ s4 ∙ s5 ∙ s6) ∙ ap (λ x. x.1) (sym e6 ∙ o4) in
      ap (λ x. runs arm_ta (codes "blk-proxy") x) same
      ∙ ap (λ x. runs arm_ta x v) (sym n2)
      ∙ ap (λ x. runs x p.ps_name v) (sym n1)
      ∙ r

  -- When the prologue succeeds: the environment has been set up, the type of the backend that is then
  -- configured has a row in the table, the steps of the row have succeeded for the number of devices, and
  -- after them the blk-proxy has been started, so that its process runs on the agent when the
  -- drivers of the host are bound.
  pub prologue-runs :
      (net : Net) (argv : List Bytes) (w : W)
      → (prologue libs net argv w).0 ≡ ok tt
      → (type : BackendType) × (row : Callbacks) × (n : ℕ) × (h : Handle) × (w1 w2 w3 w4 w5 w6 : W)
        × (setup_env libs w ≡ (ok tt, w1))
        × (tsapi_backend_get_type cfg w1 ≡ (type, w2))
        × (backend_callbacks type ≡ some row)
        × (start_tools libs net w2 ≡ (ok tt, w3))
        × (tsapi_virtio_blocks_count te cfg pci host_ta w3 ≡ (ok n, w4))
        × (prepare_backend libs net type row n w4 ≡ (ok tt, w5))
        × (start_proxy libs argv w5 ≡ (ok h, w6))
        × (runs arm_ta (codes "blk-proxy") w6 ≡ true)
        × (prologue libs net argv w ≡ bind_host libs w6)
  unfolding prologue known_backend
  prologue-runs net argv w h =
      let (u1, w1, e1, h1, s1) = >>=-run (setup_env libs) _ w tt h in
      let (b, w2, e2, h2, s2) = >>=-run (known_backend libs) _ w1 tt h1 in
      let (u3, w3, e3, h3, s3) = >>=-run (start_tools libs net) _ w2 tt h2 in
      let (n, w4, e4, h4, s4) = >>=-run (tsapi_virtio_blocks_count te cfg pci host_ta) _ w3 tt h3 in
      let (u5, w5, e5, h5, s5) = >>=-run (prepare_backend libs net b.0 b.1 n) _ w4 tt h4 in
      let (p, w6, e6, h6, s6) = >>=-run (start_proxy libs argv) _ w5 tt h5 in
      let (type, v) = tsapi_backend_get_type cfg w1 in
      let (r, t, q) = row_or_fail-ok type (backend_callbacks type) v b (ap (λ x. x.0) e2) in
      (
        b.0,
        b.1,
        n,
        p,
        w1,
        w2,
        w3,
        w4,
        w5,
        w6,
        e1,
        ap (λ x. (x, v)) (sym t) ∙ ap (λ x. (b.0, x)) (ap (λ x. x.1) (sym q ∙ e2)),
        rw t r,
        e3,
        e4,
        e5,
        e6,
        start_proxy-runs argv w5 w6 p e6,
        s1 ∙ s2 ∙ s3 ∙ s4 ∙ s5 ∙ s6,
      )
