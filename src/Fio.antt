-- ===== src/Fio.antt =====
-- block-ts/lib/tsapi-fio.c: waiting for FIO, several FIO processes, and the report of a run.
pub mod Report
pub mod Multi
pub mod Options
pub mod Reading
mod Tests
use cns_virtblk_ts.Base.{
  ℕ, zero, suc, ◌+◌, ◌*◌, ◌%◌, ◌^◌, ltb, Bool, true, false, ◌&&◌, ◌||◌, List, [], ◌∷◌, ◌++◌,
  if◌then◌else◌,
}
use cns_virtblk_ts.Base.Text.{Bytes, codes}
use cns_virtblk_ts.Base.Exec.{Result, ok, err, Exec, pure, continue, ◌>>=◌, ◌>>◌}
use cns_virtblk_ts.Te.{TeLib}

-- The options that decide how long to wait. An int is its bits.
pub record WaitOpts : Type 0 where
  pub numjobs : ℕ
  pub blocksize : ℕ
  pub runtime_sec : ℕ

-- tsapi_fio_context
pub record FioContext : Type 0 where
  pub forked_rpcs : ℕ
  pub forked_factory : ℕ

pub record FioLib (W : Type 0) : Type 0 where
  -- round(300 * (double)numjobs / TAPI_FIO_MAX_NUMJOBS), for a number that is not negative
  pub rounded : ℕ → ℕ
  -- TAPI_FIO_TIMEOUT_DEFAULT, and the timeout as the bits of an int16_t
  pub timeout_default : ℕ
  pub tapi_fio_wait : ℕ → Exec W Unit
  pub rcf_rpc_server_create_process : Bytes → Exec W ℕ
  pub rcf_rpc_server_destroy : ℕ → Exec W Unit
  pub tapi_job_factory_rpc_create : ℕ → Exec W ℕ
  pub tapi_job_factory_destroy : ℕ → W → W
  pub decimal : ℕ → Bytes

-- A number that is more than 0 as an int16_t, by its bits.
abbrev pub is_positive16 : ℕ → Bool
is_positive16 n = ltb 0 n && ltb n (2 ^ 15)

-- TE_SEC2MS(60) as an int16_t
abbrev pub additional : ℕ
additional = 60 * 1000 % 2 ^ 16

module _ {W : Type 0} (te : TeLib W) (lib : FioLib W) where
  open te use {te_string_append}
  open lib use {
    rounded, timeout_default, tapi_fio_wait, rcf_rpc_server_create_process, rcf_rpc_server_destroy,
    tapi_job_factory_rpc_create, tapi_job_factory_destroy, decimal,
  }

  -- Both sums are reduced to the 16 bits of an int16_t. Where the first of them, which is one of
  -- doubles, is out of range, the source has no defined value.
  unfoldable pub get_timeout : WaitOpts → ℕ → ℕ
  get_timeout opts additional_timeout =
      let timeout = (opts.runtime_sec + rounded opts.numjobs + 30) % 2 ^ 16 in
      if is_positive16 timeout then (timeout + additional_timeout) % 2 ^ 16 else timeout

  unfoldable pub flex_timeout : WaitOpts → ℕ
  flex_timeout opts =
      if ltb 248 opts.numjobs || ltb 1024 opts.blocksize
      then get_timeout opts additional
      else timeout_default

  unfoldable pub tsapi_fio_flex_wait : WaitOpts → Exec W Unit
  tsapi_fio_flex_wait opts = tapi_fio_wait (flex_timeout opts)

  abbrev pub process_name : ℕ → Exec W Bytes
  process_name i w =
      let (_, name, w') = te_string_append [] (codes "fio" ++ decimal i) w in (ok name, w')

  -- The loop from process i on, of which `left` are left.
  unfoldable pub init_from : ℕ → ℕ → Exec W (List FioContext)
  init_from zero i = pure []
  init_from (suc left) i = do
    name ← process_name i
    rpcs ← rcf_rpc_server_create_process name
    factory ← tapi_job_factory_rpc_create rpcs
    ctxs ← init_from left (suc i)
    pure (record { forked_rpcs = rpcs; forked_factory = factory } ∷ ctxs)

  unfoldable pub tsapi_fio_multi_init : ℕ → Exec W (List FioContext)
  tsapi_fio_multi_init n = init_from n 0

  unfoldable pub tsapi_fio_multi_fini : List FioContext → Exec W Unit
  tsapi_fio_multi_fini [] = pure tt
  tsapi_fio_multi_fini (c ∷ ctxs) = do
    (λ w. rcf_rpc_server_destroy c.forked_rpcs (tapi_job_factory_destroy c.forked_factory w))
    tsapi_fio_multi_fini ctxs
