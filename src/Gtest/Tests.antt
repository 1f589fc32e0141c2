-- ===== src/Gtest/Tests.antt =====
-- Runs of the gtest code, and its theorems at concrete inputs.
use cns_virtblk_ts.Base.{
  ℕ, ◌<◌, ◌≤◌, ◌≡◌, refl, arith, true, false, Option, none, some, List, [], ◌∷◌, ◌++◌, length,
}
use cns_virtblk_ts.Base.Text.{Bytes, codes}
use cns_virtblk_ts.Base.Exec.{ok, err, efail, enomem}
use cns_virtblk_ts.Te.{TeLib}
use cns_virtblk_ts.Rbd.{EnvLib}
use cns_virtblk_ts.Ceph.Jobs.{JobLib}
use cns_virtblk_ts.Gtest.{
  Buffer, buffer_init, LogConv, GtestLib, Outcome, returned, receive_all, block_ts_log_conv_run,
}
use cns_virtblk_ts.Gtest.Conversion.{IsFinite, SkipsFirst, log_conv_run-ends, log_conv_run-first}

-- The messages that are still to come.
abbrev World : Type 0
World = List Bytes

-- Strings cannot be made.
abbrev te : TeLib World
te = record {
  te_string_append = λ s t w. (err enomem, s, w);
  te_vec_append = λ w. (ok tt, w);
  strdup = λ w. (true, w);
  after_block = λ w. [];
  after_arg = λ arg w. [];
  te_string_cut = λ s n. s;
  strcmp_start = λ p s. false;
  te_str_strip_spaces = λ s. s;
  getenv = λ v. some (codes "/lib");
  rcf_ta_get_file = λ ta remote local w. (err efail, w);
  fopen_read = λ p w. (err efail, w);
  fopen_write = λ p w. (err efail, w);
  fwrite = λ p t w. (err efail, w);
  rpc_open = λ p w. (none, w);
  rpc_write_and_close = λ fd t w. (0, w);
  rpc_errno = λ w. ok tt;
}

abbrev rpc : EnvLib World
rpc = record {
  rpc_setenv = λ k v w. (true, w);
  rpc_unsetenv = λ k w. (true, w);
  rpc_errno = λ w. ok tt;
  decimal = λ n. [];
}

abbrev jobs : JobLib World
jobs = record {
  tapi_job_factory_rpc_create = λ w. (ok 0, w);
  tapi_job_factory_destroy = λ f w. w;
  tapi_job_simple_create = λ f argv w. (err efail, w);
  tapi_job_start = λ job w. (err efail, w);
  tapi_job_wait = λ job ms w. (err efail, w);
  tapi_job_destroy = λ job ms w. (ok tt, w);
  tapi_job_attach_filter = λ c name w. (ok 0, w);
  tapi_job_filter_add_regexp = λ c re w. (ok tt, w);
  tapi_job_receive = λ c ms w. (err efail, w);
}

abbrev next_message : Buffer → World → Buffer × World
next_message b [] = (record { eos = true; text = b.text }, [])
next_message b (m ∷ ms) = (record { eos = false; text = b.text ++ m }, ms)

abbrev lib : GtestLib World
lib = record {
  tapi_job_receive = λ ch b w. let (b', w') = next_message b w in (ok b', w');
  tapi_job_factory_set_path = λ f w. (ok tt, w);
  null_text = codes "(null)";
}

abbrev left : World → ℕ
left = length

shrinks :
    (ch : ℕ) (b b' : Buffer) (w : World)
    → (lib.tapi_job_receive ch b w).0 ≡ ok b'
    → b'.eos ≡ false
    → left (lib.tapi_job_receive ch b w).1 < left w
shrinks ch b b' [] h k = cc
shrinks ch b b' (m ∷ ms) h k = omega arith

keeps : (ch : ℕ) (b : Buffer) (w : World) → left (lib.tapi_job_receive ch b w).1 ≤ left w
keeps ch b [] = omega arith
keeps ch b (m ∷ ms) = omega arith

lib-IsFinite : IsFinite lib left
lib-IsFinite = record { shrinks = shrinks; keeps = keeps }

abbrev conversion : ℕ → Option Bytes → LogConv
conversion ch verdict = record {
  conv = record { re = codes "SKIPPED"; verdict = verdict };
  channel = ch;
  buffer = buffer_init;
}

abbrev two : List LogConv
two = conversion 1 (some (codes "first")) ∷ conversion 2 none ∷ []

abbrev messages : World
messages = codes "[ SKIPPED ]" ∷ codes "done" ∷ []

-- Without a message no conversion acts.
finished : block_ts_log_conv_run te rpc jobs lib 2 two [] ≡ some (returned (ok tt), [])
unfolding block_ts_log_conv_run receive_all
finished = refl

log_conv_run-ends_example :
    (outcome : Outcome) × (w' : World) × (block_ts_log_conv_run te rpc jobs lib 4 two messages
      ≡ some (outcome, w'))
log_conv_run-ends_example =
    log_conv_run-ends te rpc jobs lib left lib-IsFinite 4 two messages (omega arith)

log_conv_run-first_example : SkipsFirst te rpc jobs lib 4 two messages (codes "first") []
log_conv_run-first_example =
    log_conv_run-first te rpc jobs lib 4 two messages [] (codes "first")
      (unfold block_ts_log_conv_run receive_all in refl)
