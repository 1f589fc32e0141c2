-- ===== src/Gtest.antt =====
-- block-ts/lib/block-ts.c: the environment of a gtest program, and the conversion of what it logs into
-- the outcome of the test.
mod Tests
pub mod Conversion
pub mod Environment
use cns_virtblk_ts.Base.{
  ℕ, zero, suc, Bool, true, false, Option, none, some, List, [], ◌∷◌, ◌++◌, if◌then◌else◌,
}
use cns_virtblk_ts.Base.Text.{Bytes, codes}
use cns_virtblk_ts.Base.Exec.{Errno, Result, ok, err, Status, Exec, pure, ◌>>=◌, ◌>>◌}
use cns_virtblk_ts.Te.{TeLib}
use cns_virtblk_ts.Rbd.{EnvLib, block_ts_test_specific_setenv}
use cns_virtblk_ts.Ceph.Jobs.{JobLib}

-- tapi_job_buffer_t
pub record Buffer : Type 0 where
  pub eos : Bool
  -- the data
  pub text : Bytes

abbrev pub buffer_init : Buffer
buffer_init = record { eos = false; text = [] }

-- block_ts_log_conv, whose only action is that the test is skipped; `none` is NULL.
pub record Conv : Type 0 where
  pub re : Bytes
  pub verdict : Option Bytes

-- struct log_conv, with the filter as its channel.
pub record LogConv : Type 0 where
  pub conv : Conv
  pub channel : ℕ
  pub buffer : Buffer

-- What this part calls beside the jobs of JobLib.
pub record GtestLib (W : Type 0) : Type 0 where
  pub tapi_job_receive : ℕ → Buffer → Exec W Buffer
  pub tapi_job_factory_set_path : ℕ → Exec W Unit
  -- what "%s" prints for a NULL pointer
  pub null_text : Bytes

-- How the conversion of the log ends: it returns a status, or jumps out of the test, which is skipped.
pub data Outcome : Type 0 where
  returned : Status → Outcome
  skipped : Bytes → Outcome

abbrev pub libs : List Bytes
libs =
    codes "libcls_cas.so"
    ∷ codes "libcls_log.so"
    ∷ codes "libcls_lua.so"
    ∷ codes "libcls_rgw.so"
    ∷ codes "libcls_user.so"
    ∷ []

abbrev pub skip_text : Option Bytes → Bytes
skip_text (some verdict) = verdict
skip_text none = []

module _ {W : Type 0} (te : TeLib W) (rpc : EnvLib W) (jobs : JobLib W) (lib : GtestLib W) where
  open te use {te_string_append, te_vec_append, getenv}
  open rpc use {rpc_setenv, rpc_errno}
  open jobs use {
    tapi_job_factory_rpc_create, tapi_job_factory_destroy, tapi_job_attach_filter,
    tapi_job_filter_add_regexp,
  }
  open lib use {tapi_job_receive, tapi_job_factory_set_path, null_text}

  abbrev or_null : Option Bytes → Bytes
  or_null (some s) = s
  or_null none = null_text

  abbrev pub env_status : Bool × W → Status × W
  env_status (true, w) = (ok tt, w)
  env_status (false, w) = (rpc_errno w, w)

  -- te_string_append(), after which the string is the next state.
  abbrev pub text_result : Status × Bytes × W → Result Bytes × W
  text_result (ok _, s, w) = (ok s, w)
  text_result (err e, s, w) = (err e, w)

  unfoldable pub append_libs : Bytes → List Bytes → Bytes → Exec W Bytes
  append_libs ceph_lib [] value = pure value
  append_libs ceph_lib (l ∷ ls) value = do
    value' ← (λ w. text_result (te_string_append value (ceph_lib ++ b'/' ∷ (l ++ b':' ∷ [])) w))
    append_libs ceph_lib ls value'

  unfoldable pub gtest_setenv_ld_preload : Bytes → Option Bytes → Exec W Unit
  gtest_setenv_ld_preload ceph_lib onload_lib = do
    value ← append_libs ceph_lib libs []
    value' ← (λ w.
        text_result (te_string_append value (or_null onload_lib ++ codes "/libonload_ext.so.2") w))
    (λ w. env_status (rpc_setenv (codes "LD_PRELOAD") value' w))

  -- Where the variable is not set, the error of the RPC server is returned instead of the status.
  abbrev pub after_preload : Status × W → (W → Status × W) → Status × W
  after_preload (ok _, w) next = next w
  after_preload (err e, w) next = (rpc_errno w, w)

  -- The factory is destroyed whatever the status is.
  abbrev pub set_path : Result ℕ × W → Status × W
  set_path (err e, w) = (err e, w)
  set_path (ok factory, w) =
      let (rc, w') = tapi_job_factory_set_path factory w in
      (rc, tapi_job_factory_destroy (some factory) w')

  abbrev pub setenv_from : Bytes → Option Bytes → Bytes → Exec W Unit
  setenv_from ceph_lib onload_lib features = do
    (λ w. env_status (rpc_setenv (codes "CEPH_LIB") ceph_lib w))
    block_ts_test_specific_setenv te rpc features
    (λ w.
        after_preload (gtest_setenv_ld_preload ceph_lib onload_lib w)
          (λ w'. set_path (tapi_job_factory_rpc_create w')))

  -- `features` is the parameter of the test that block_ts_test_specific_setenv() reads.
  unfoldable pub block_ts_gtest_setenv : Bytes → Exec W Unit
  block_ts_gtest_setenv features w = elim (getenv (codes "CEPH_LIB")) [
    | none ↦ (ok tt, w)
    | some ceph_lib ↦ setenv_from ceph_lib (getenv (codes "ONLOAD_LIB")) features w
  ]

  -- The conversions that are waiting come back longer.
  unfoldable pub block_ts_log_conv_add : ℕ → Conv → List LogConv → Exec W (List LogConv)
  block_ts_log_conv_add channel conv log_convs = do
    filter ← tapi_job_attach_filter (some channel) (codes "Log Conversation")
    tapi_job_filter_add_regexp filter conv.re
    te_vec_append
    pure (log_convs ++ record { conv = conv; channel = filter; buffer = buffer_init } ∷ [])

  -- `while (!buffer.eos) tapi_job_receive(...)`, on fuel; `none` means that the fuel ran out.
  unfoldable pub receive_all : ℕ → ℕ → Buffer → W → Option (Result Buffer × W)
  receive_all zero channel buffer w = none
  receive_all (suc fuel) channel buffer w =
      let (r, w') = tapi_job_receive channel buffer w in
      let rest : Option (Result Buffer × W) = elim r [
        | ok buffer' ↦ receive_all fuel channel buffer' w'
        | err e ↦ some (err e, w')
      ] in
      if buffer.eos then some (ok buffer, w) else rest

  -- What follows the messages of one conversion.
  abbrev pub after_messages : Option Bytes → Bytes → Option (Outcome × W) → W → Option (Outcome × W)
  after_messages verdict [] rest w = rest
  after_messages verdict (c ∷ text) rest w = some (skipped (skip_text verdict), w)

  abbrev pub after_received :
      Conv → Option (Result Buffer × W) → (W → Option (Outcome × W)) → Option (Outcome × W)
  after_received conv none next = none
  after_received conv (some (err e, w)) next = some (returned (err e), w)
  after_received conv (some (ok buffer, w)) next =
      after_messages conv.verdict buffer.text (next w) w

  -- Each end of the loop empties the list of conversions.
  unfoldable pub block_ts_log_conv_run : ℕ → List LogConv → W → Option (Outcome × W)
  block_ts_log_conv_run fuel [] w = some (returned (ok tt), w)
  block_ts_log_conv_run fuel (log_conv ∷ log_convs) w =
      after_received log_conv.conv (receive_all fuel log_conv.channel log_conv.buffer w)
        (λ w'. block_ts_log_conv_run fuel log_convs w')

  unfoldable pub block_ts_gtest_absbin : Bytes → W → Option Bytes × W
  block_ts_gtest_absbin bin w = elim (getenv (codes "CEPH_BIN")) [
    | none ↦ (none, w)
    | some path ↦ text_or_null (te_string_append [] (path ++ b'/' ∷ bin) w)
  ]
    where
      text_or_null : Status × Bytes × W → Option Bytes × W
      text_or_null (ok _, s, w') = (some s, w')
      text_or_null (err e, s, w') = (none, w')
