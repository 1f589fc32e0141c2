-- ===== src/Ceph/Live.antt =====
-- Which job factories are left by the operations on a job.
use cns_virtblk_ts.Base.{
  ℕ, ◌+◌, ◌-◌, ◌≡◌, ◌∙◌, arith, Bool, true, false, Option, some, List, [], ◌∷◌, if◌then◌else◌,
}
use cns_virtblk_ts.Base.Text.{Bytes}
use cns_virtblk_ts.Base.Exec.{Result, ok, err, Exec, continue, ◌>>◌}
use cns_virtblk_ts.Te.{TeLib}
use cns_virtblk_ts.Ceph.Jobs.{
  JobLib, Common, no_common, Job, store, with_factory, job_created, create_job,
  ceph_generic_desc_init, tsapi_ceph_cleanup, get_fsid_steps, block_ts_ceph_cluster_get_fsid,
}

abbrev pub succeeded {ℓ} : {A : Type ℓ} → Result A → Bool
succeeded (ok a) = true
succeeded (err e) = false

-- `live` counts the factories: creation adds one where it succeeds, destruction takes one away, and
-- the operations that a job is made with leave it as it is.
pub record IsCount {W : Type 0} (te : TeLib W) (lib : JobLib W) (live : W → ℕ) : Type 0 where
  pub created :
      (w : W)
      → live (lib.tapi_job_factory_rpc_create w).1
        ≡ (if succeeded (lib.tapi_job_factory_rpc_create w).0 then live w + 1 else live w)
  pub destroyed : (f : ℕ) (w : W) → live (lib.tapi_job_factory_destroy (some f) w) ≡ live w - 1
  pub vec_keeps : (w : W) → live (te.te_vec_append w).1 ≡ live w
  pub job_keeps :
      (f : ℕ) (argv : List Bytes) (w : W) → live (lib.tapi_job_simple_create f argv w).1 ≡ live w

module _ {W : Type 0} (te : TeLib W) (lib : JobLib W) where
  -- Where destroying a job always works, block_ts_ceph_cluster_get_fsid() returns 0 whatever its steps
  -- did: the error of a step that failed is overwritten by the status of the cleanup.
  get_fsid_loses_error :
      (fsid : Bytes) (w : W)
      → ((job : Option ℕ) (ms : ℕ) (w' : W) → (lib.tapi_job_destroy job ms w').0 ≡ ok tt)
      → (block_ts_ceph_cluster_get_fsid te lib fsid w).0 ≡ ok tt
  unfolding block_ts_ceph_cluster_get_fsid tsapi_ceph_cleanup
  get_fsid_loses_error fsid w h =
      let (c, w') = (get_fsid_steps te lib fsid (no_common, w)).1 in h c.job 30000 w'

  module _ (live : W → ℕ) (count : IsCount te lib live) where
    -- What an operation that starts with n factories leaves.
    abbrev Leaves : {A : Type 0} → ℕ → Result A × (Common × W) → Type 0
    Leaves n (r, (c, w)) = live w ≡ (if succeeded r then n + 1 else n)

    continue-Leaves :
        {A B : Type 0} (n : ℕ) (r : Result A) (f : A → Job te lib B) (c : Common) (w : W)
        → live w ≡ n
        → ((a : A) → Leaves n (f a (c, w)))
        → Leaves n (continue r f (c, w))
    continue-Leaves n (ok a) f c w h k = k a
    continue-Leaves n (err e) f c w h k = h

    job_created-Leaves :
        (n f : ℕ) (c : Common) (r : Result (ℕ × ℕ) × W)
        → live r.1 ≡ n + 1
        → Leaves n (job_created te lib (with_factory te lib f c) r)
    unfolding job_created
    job_created-Leaves n f c (ok (job, out), w) h = h
    job_created-Leaves n f c (err e, w) h = count.destroyed f w ∙ omega (arith, h)

    create_job-Leaves :
        (n f : ℕ) (argv : List Bytes) (c : Common) (w : W)
        → live w ≡ n + 1
        → Leaves n (create_job te lib f argv (with_factory te lib f c, w))
    unfolding create_job
    create_job-Leaves n f argv c w h =
        job_created-Leaves n f c (lib.tapi_job_simple_create f argv w)
          (count.job_keeps f argv w ∙ h)

    factory-Leaves :
        (n : ℕ) (r : Result ℕ) (argv : List Bytes) (c : Common) (w : W)
        → live w ≡ (if succeeded r then n + 1 else n)
        → Leaves n (
            continue r
              (λ factory.
                store te lib (with_factory te lib factory) >> create_job te lib factory argv)
              (c, w))
    factory-Leaves n (ok f) argv c w h = create_job-Leaves n f argv c w h
    factory-Leaves n (err e) argv c w h = h

    -- Where `live` counts the job factories and making the command line keeps them: making a job
    -- leaves one more factory where it succeeds, and none of its own where it fails, whatever step
    -- fails.
    pub init-live :
        (bin : Bytes) (func : List Bytes → Exec W (List Bytes)) (c : Common) (w : W)
        → ((argv : List Bytes) (w' : W) → live (func argv w').1 ≡ live w')
        → live (ceph_generic_desc_init te lib bin func (c, w)).1.1 ≡ (
            if succeeded (ceph_generic_desc_init te lib bin func (c, w)).0
            then live w + 1
            else live w)
    unfolding ceph_generic_desc_init
    init-live bin func c w keeps =
        let w1 = (te.te_vec_append w).1 in
        let w2 = (func (bin ∷ []) w1).1 in
        let w3 = (te.te_vec_append w2).1 in
        let e1 = count.vec_keeps w in
        let e2 = keeps (bin ∷ []) w1 ∙ e1 in
        let e3 = count.vec_keeps w2 ∙ e2 in
        continue-Leaves (live w) (te.te_vec_append w).0 _ c w1 e1 (λ _.
          continue-Leaves (live w) (func (bin ∷ []) w1).0 _ c w2 e2 (λ argv.
            continue-Leaves (live w) (te.te_vec_append w2).0 _ c w3 e3 (λ _.
              factory-Leaves (live w) (lib.tapi_job_factory_rpc_create w3).0 argv c
                (lib.tapi_job_factory_rpc_create w3).1 (count.created w3 ∙ ground (arith, e3)))))
