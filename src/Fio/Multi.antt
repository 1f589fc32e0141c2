-- ===== src/Fio/Multi.antt =====
-- The processes of several runs of FIO, and the timeout of a long run.
use cns_virtblk_ts.Base.{
  ℕ, zero, suc, ◌+◌, ◌-◌, ◌^◌, ◌≤◌, ◌<◌, ◌≡◌, ◌∙◌, ap, arith, List, [], ◌∷◌, ◌++◌, length,
}
use cns_virtblk_ts.Base.Text.{codes}
use cns_virtblk_ts.Base.Exec.{ok, >>=-step}
use cns_virtblk_ts.Te.{TeLib}
use cns_virtblk_ts.Fio.{
  WaitOpts, FioContext, FioLib, get_timeout, additional, init_from, tsapi_fio_multi_init,
  tsapi_fio_multi_fini,
}

-- `live` counts the factories: a creation that succeeds adds one, a destruction takes one away, and
-- strings and processes leave it as it is.
pub record IsCount {W : Type 0} (te : TeLib W) (lib : FioLib W) (live : W → ℕ) : Type 0 where
  pub created :
      (r f : ℕ) (w : W)
      → (lib.tapi_job_factory_rpc_create r w).0 ≡ ok f
      → live (lib.tapi_job_factory_rpc_create r w).1 ≡ live w + 1
  pub destroyed : (f : ℕ) (w : W) → live (lib.tapi_job_factory_destroy f w) ≡ live w - 1
  pub append_keeps : (s t : List ℕ) (w : W) → live (te.te_string_append s t w).2 ≡ live w
  pub start_keeps :
      (name : List ℕ) (w : W) → live (lib.rcf_rpc_server_create_process name w).1 ≡ live w
  pub stop_keeps : (r : ℕ) (w : W) → live (lib.rcf_rpc_server_destroy r w).1 ≡ live w

module _ {W : Type 0} (te : TeLib W) (lib : FioLib W) where
  -- With the additional time of a minute, whose milliseconds do not fit into an int16_t, the timeout of
  -- a run for which the sum is less than 5536 seconds has the bits of a negative number.
  pub get_timeout-negative :
      (opts : WaitOpts)
      → opts.runtime_sec + lib.rounded opts.numjobs + 30 < 5536
      → 2 ^ 15 ≤ get_timeout te lib opts additional
  unfolding get_timeout
  get_timeout-negative opts h = ground arith

  module _ (live : W → ℕ) (count : IsCount te lib live) where
    init_from-live :
        (left i : ℕ) (ctxs : List FioContext) (w : W)
        → (init_from te lib left i w).0 ≡ ok ctxs
        → (live (init_from te lib left i w).1 ≡ live w + left) × (length ctxs ≡ left)
    unfolding init_from
    init_from-live zero i ctxs w h = let e : length ctxs ≡ 0 = cc in (omega arith, e)
    init_from-live (suc left) i ctxs w h =
        let named = te.te_string_append [] (codes "fio" ++ lib.decimal i) w in
        let (r, _, h1, s1) =
          >>=-step (lib.rcf_rpc_server_create_process named.1) _ named.2 ctxs h in
        let w1 = (lib.rcf_rpc_server_create_process named.1 named.2).1 in
        let (f, e2, h2, s2) = >>=-step (lib.tapi_job_factory_rpc_create r) _ w1 ctxs h1 in
        let w2 = (lib.tapi_job_factory_rpc_create r w1).1 in
        let (cs, e3, h3, s3) = >>=-step (init_from te lib left (suc i)) _ w2 ctxs h2 in
        let (more, same) = init_from-live left (suc i) cs w2 e3 in
        let one : FioContext = record { forked_rpcs = r; forked_factory = f } in
        let e : length (one ∷ cs) ≡ length ctxs = cc in
        (
          ap (λ t. live t.1) (s1 ∙ s2 ∙ s3)
              ∙ omega (
                arith,
                more,
                count.created r f w1 e2,
                count.start_keeps named.1 named.2,
                count.append_keeps [] (codes "fio" ++ lib.decimal i) w,
              ),
          omega (arith, e, same),
        )

    multi_fini-live :
        (ctxs : List FioContext) (w : W)
        → (tsapi_fio_multi_fini te lib ctxs w).0 ≡ ok tt
        → live (tsapi_fio_multi_fini te lib ctxs w).1 ≡ live w - length ctxs
    unfolding tsapi_fio_multi_fini
    multi_fini-live [] w h = omega arith
    multi_fini-live (c ∷ ctxs) w h =
        let w1 = lib.tapi_job_factory_destroy c.forked_factory w in
        let (_, _, h1, s1) =
          >>=-step
            (λ w'.
              lib.rcf_rpc_server_destroy c.forked_rpcs
                (lib.tapi_job_factory_destroy c.forked_factory w'))
            (λ _. tsapi_fio_multi_fini te lib ctxs) w tt h in
        let w2 = (lib.rcf_rpc_server_destroy c.forked_rpcs w1).1 in
        ap (λ t. live t.1) s1
        ∙ omega (
          arith,
          multi_fini-live ctxs w2 h1,
          count.destroyed c.forked_factory w,
          count.stop_keeps c.forked_rpcs w1,
        )

    -- Where `live` counts the job factories: when the processes of n runs could be prepared, and
    -- then could be finished, as many factories are left as there were before.
    pub multi_fini-init :
        (n : ℕ) (ctxs : List FioContext) (w : W)
        → (tsapi_fio_multi_init te lib n w).0 ≡ ok ctxs
        → (tsapi_fio_multi_fini te lib ctxs (tsapi_fio_multi_init te lib n w).1).0 ≡ ok tt
        → live (tsapi_fio_multi_fini te lib ctxs (tsapi_fio_multi_init te lib n w).1).1 ≡ live w
    unfolding tsapi_fio_multi_init
    multi_fini-init n ctxs w h k =
        let (more, same) = init_from-live n 0 ctxs w h in
        multi_fini-live ctxs (tsapi_fio_multi_init te lib n w).1 k ∙ omega (arith, more, same)
