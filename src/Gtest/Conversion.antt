-- ===== src/Gtest/Conversion.antt =====
-- The loop of block_ts_log_conv_run().
use cns_virtblk_ts.Base.{
  ℕ, zero, suc, ◌+◌, ◌<◌, ◌≤◌, ◌≡◌, ◌≢◌, refl, ap, ◌∙◌, inl, inr, arith, true, false, Option, none,
  some, List, [], ◌∷◌, ◌++◌, Bool-cases,
}
use cns_virtblk_ts.Base.Text.{Bytes}
use cns_virtblk_ts.Base.Exec.{Errno, Result, ok, err, Result-cases}
use cns_virtblk_ts.Te.{TeLib}
use cns_virtblk_ts.Rbd.{EnvLib}
use cns_virtblk_ts.Ceph.Jobs.{JobLib}
use cns_virtblk_ts.Gtest.{
  Buffer, Conv, LogConv, GtestLib, Outcome, returned, skipped, skip_text, receive_all,
  after_messages, after_received, block_ts_log_conv_run,
}

-- `left` counts the messages that the channels still have before the ends of their streams.
pub record IsFinite {W : Type 0} (lib : GtestLib W) (left : W → ℕ) : Type 0 where
  pub shrinks :
      (ch : ℕ) (b b' : Buffer) (w : W)
      → (lib.tapi_job_receive ch b w).0 ≡ ok b'
      → b'.eos ≡ false
      → left (lib.tapi_job_receive ch b w).1 < left w
  pub keeps : (ch : ℕ) (b : Buffer) (w : W) → left (lib.tapi_job_receive ch b w).1 ≤ left w

module _ {W : Type 0} (te : TeLib W) (rpc : EnvLib W) (jobs : JobLib W) (lib : GtestLib W) where
  receive_all-eos :
      (fuel ch : ℕ) (b : Buffer) (w : W)
      → b.eos ≡ true
      → receive_all te rpc jobs lib (suc fuel) ch b w ≡ some (ok b, w)
  unfolding receive_all
  receive_all-eos fuel ch b w h = rw h refl

  receive_all-next :
      (fuel ch : ℕ) (b b' : Buffer) (w : W)
      → b.eos ≡ false
      → (lib.tapi_job_receive ch b w).0 ≡ ok b'
      → receive_all te rpc jobs lib (suc fuel) ch b w
        ≡ receive_all te rpc jobs lib fuel ch b' (lib.tapi_job_receive ch b w).1
  unfolding receive_all
  receive_all-next fuel ch b b' w h e = rw e (rw h refl)

  receive_all-err :
      (fuel ch : ℕ) (b : Buffer) (e : Errno) (w : W)
      → b.eos ≡ false
      → (lib.tapi_job_receive ch b w).0 ≡ err e
      → receive_all te rpc jobs lib (suc fuel) ch b w
        ≡ some (err e, (lib.tapi_job_receive ch b w).1)
  unfolding receive_all
  receive_all-err fuel ch b e w h k = rw k (rw h refl)

  module _ (left : W → ℕ) (fin : IsFinite lib left) where
    -- A loop that ends, with no more messages left than before.
    abbrev Terminates : W → Option (Result Buffer × W) → Type 0
    Terminates w o = (r : Result Buffer) × (w' : W) × (o ≡ some (r, w')) × (left w' ≤ left w)

    receive_all-ends :
        (fuel ch : ℕ) (b : Buffer) (w : W)
        → left w + 1 < fuel
        → Terminates w (receive_all te rpc jobs lib fuel ch b w)
    receive_all-ends zero ch b w h = absurd (omega arith)
    receive_all-ends (suc zero) ch b w h = absurd (omega arith)
    receive_all-ends (suc (suc fuel)) ch b w h =
        let w1 = (lib.tapi_job_receive ch b w).1 in
        let k = fin.keeps ch b w in
        elim (Bool-cases b.eos) [
          | inl e ↦ (ok b, w, receive_all-eos (suc fuel) ch b w e, omega arith)
          | inr e ↦ elim (Result-cases (lib.tapi_job_receive ch b w).0) [
            | inr (x, d) ↦ (err x, w1, receive_all-err (suc fuel) ch b x w e d, k)
            | inl (b', d) ↦
                let s = receive_all-next (suc fuel) ch b b' w e d in
                elim (Bool-cases b'.eos) [
                  | inl e' ↦ (ok b', w1, s ∙ receive_all-eos fuel ch b' w1 e', k)
                  | inr e' ↦
                      let l = fin.shrinks ch b b' w d e' in
                      let (r, w2, q, m) = receive_all-ends (suc fuel) ch b' w1 (omega arith) in
                      (r, w2, s ∙ q, omega arith)
                ]
          ]
        ]

    abbrev Finishes : Option (Outcome × W) → Type 0
    Finishes o = (outcome : Outcome) × (w' : W) × (o ≡ some (outcome, w'))

    after_received-Finishes :
        (conv : Conv) (r : Result Buffer) (w : W) (next : W → Option (Outcome × W))
        → Finishes (next w)
        → Finishes (after_received te rpc jobs lib conv (some (r, w)) next)
    after_received-Finishes conv (err e) w next h = (returned (err e), w, refl)
    after_received-Finishes conv (ok b) w next h = messages b.text
      where
        messages : (t : Bytes) → Finishes (after_messages te rpc jobs lib conv.verdict t (next w) w)
        messages [] = h
        messages (c ∷ t) = (skipped (skip_text conv.verdict), w, refl)

    -- Where the streams have only so many messages before their ends, the conversion of the log ends:
    -- fuel for two more rounds than there are messages is enough.
    pub log_conv_run-ends :
        (fuel : ℕ) (log_convs : List LogConv) (w : W)
        → left w + 1 < fuel
        → (outcome : Outcome) × (w' : W) × (block_ts_log_conv_run te rpc jobs lib fuel log_convs w
            ≡ some (outcome, w'))
    unfolding block_ts_log_conv_run
    log_conv_run-ends fuel [] w h = (returned (ok tt), w, refl)
    log_conv_run-ends fuel (c ∷ cs) w h =
        let (r, w1, e, l) = receive_all-ends fuel c.channel c.buffer w h in
        rw e (after_received-Finishes c.conv r w1 _ (log_conv_run-ends fuel cs w1 (omega arith)))

  -- What is shown of a conversion that skips the test.
  abbrev pub SkipsFirst : ℕ → List LogConv → W → Bytes → W → Type 0
  SkipsFirst fuel log_convs w verdict w' =
      (before after : List LogConv) × (c : LogConv) × (w1 : W) × (b : Buffer) × (log_convs
        ≡ before ++ c ∷ after)
      × (block_ts_log_conv_run te rpc jobs lib fuel before w ≡ some (returned (ok tt), w1))
      × (receive_all te rpc jobs lib fuel c.channel c.buffer w1 ≡ some (ok b, w'))
      × (b.text ≢ [])
      × (verdict ≡ skip_text c.conv.verdict)

  -- A conversion without data is passed over.
  run-pass :
      (fuel : ℕ) (c : LogConv) (cs : List LogConv) (b : Buffer) (w w1 : W)
      → receive_all te rpc jobs lib fuel c.channel c.buffer w ≡ some (ok b, w1)
      → b.text ≡ []
      → block_ts_log_conv_run te rpc jobs lib fuel (c ∷ cs) w
        ≡ block_ts_log_conv_run te rpc jobs lib fuel cs w1
  unfolding block_ts_log_conv_run
  run-pass fuel c cs b w w1 e k = rw e (rw k refl)

  SkipsFirst-behind :
      (fuel : ℕ) (c : LogConv) (cs : List LogConv) (b : Buffer) (w w1 w' : W) (verdict : Bytes)
      → receive_all te rpc jobs lib fuel c.channel c.buffer w ≡ some (ok b, w1)
      → b.text ≡ []
      → SkipsFirst fuel cs w1 verdict w'
      → SkipsFirst fuel (c ∷ cs) w verdict w'
  SkipsFirst-behind fuel c cs b w w1 w' verdict e k (before, after, d, w2, b2, l, r, m, n, v) = (
    c ∷ before,
    after,
    d,
    w2,
    b2,
    ap (λ t. c ∷ t) l,
    run-pass fuel c before b w w1 e k ∙ r,
    m,
    n,
    v,
  )

  module _ (fuel : ℕ) (c : LogConv) (cs : List LogConv) (w w' : W) (verdict : Bytes)
      (ih : (v : W)
        → block_ts_log_conv_run te rpc jobs lib fuel cs v ≡ some (skipped verdict, w')
        → SkipsFirst fuel cs v verdict w') where
    SkipsFirst-text :
        (b : Buffer) (w1 : W) (t : Bytes)
        → receive_all te rpc jobs lib fuel c.channel c.buffer w ≡ some (ok b, w1)
        → b.text ≡ t
        → after_messages te rpc jobs lib c.conv.verdict t
            (block_ts_log_conv_run te rpc jobs lib fuel cs w1)
            w1
          ≡ some (skipped verdict, w')
        → SkipsFirst fuel (c ∷ cs) w verdict w'
    SkipsFirst-text b w1 [] e k m = SkipsFirst-behind fuel c cs b w w1 w' verdict e k (ih w1 m)
    SkipsFirst-text b w1 (x ∷ t) e k m =
        let pair : ◌≡◌ {A = Outcome × W} (skipped (skip_text c.conv.verdict), w1)
            (skipped verdict, w') =
          cc in
        let texts : skipped (skip_text c.conv.verdict) ≡ skipped verdict = ap (λ q. q.0) pair in
        (
          [],
          cs,
          c,
          w,
          b,
          refl,
          unfold block_ts_log_conv_run in refl,
          e ∙ ap (λ q. some (ok b, q.1)) pair,
          λ n. cc,
          cc,
        )

    SkipsFirst-received :
        (o : Option (Result Buffer × W))
        → receive_all te rpc jobs lib fuel c.channel c.buffer w ≡ o
        → after_received te rpc jobs lib c.conv o (block_ts_log_conv_run te rpc jobs lib fuel cs)
          ≡ some (skipped verdict, w')
        → SkipsFirst fuel (c ∷ cs) w verdict w'
    SkipsFirst-received none e m = cc
    SkipsFirst-received (some (err x, w1)) e m = cc
    SkipsFirst-received (some (ok b, w1)) e m = SkipsFirst-text b w1 b.text e refl m

  -- When the test is skipped, a conversion of the list has received data, the verdict is its own, or
  -- empty where it has none, and the conversions in front of it end without an error and without data.
  pub log_conv_run-first :
      (fuel : ℕ) (log_convs : List LogConv) (w w' : W) (verdict : Bytes)
      → block_ts_log_conv_run te rpc jobs lib fuel log_convs w ≡ some (skipped verdict, w')
      → SkipsFirst fuel log_convs w verdict w'
  unfolding block_ts_log_conv_run
  log_conv_run-first fuel [] w w' verdict h = cc
  log_conv_run-first fuel (c ∷ cs) w w' verdict h =
      SkipsFirst-received fuel c cs w w' verdict (λ v. log_conv_run-first fuel cs v w' verdict)
        (receive_all te rpc jobs lib fuel c.channel c.buffer w) refl h
