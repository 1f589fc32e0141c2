-- ===== src/Rbd/Features.antt =====
-- Which features are left, feature by feature.
use Prim.Native.Nat.{bit_and}
use cns_virtblk_ts.Base.{
  ℕ, ◌^◌, ◌<◌, ◌==◌, ◌≡◌, refl, ap, ◌∙◌, Bool, true, false, ◌||◌, ◌&&◌, List, [], ◌∷◌, All, arith,
  inl, inr, Bool-cases, if◌then◌else◌,
}
use cns_virtblk_ts.Base.Text.{Bytes, codes, strcmp}
use cns_virtblk_ts.Base.Bits.{bit, bit-and, bit-lt, bit-complement, bit-zero, complement}
use cns_virtblk_ts.Base.Exec.{Result, ok, err}
use cns_virtblk_ts.Rbd.{
  Entry, entries, find_entry, block_ts_rbd_feature_str2feat, block_ts_test_get_features_disable,
  block_ts_test_get_features_keyword, clear_feature, and_then, apply_token, apply_tokens, tokens,
  default_features, block_ts_test_get_features,
}

-- Whether a token of the string takes the feature of weight 2 ^ i away: -NAME takes that feature,
-- and any other token, which is UNSET_FEATURES, takes all.
abbrev pub takes : ℕ → Result ℕ → Bool
takes i (ok feat) = bit feat i == 1
takes i (err e) = false

abbrev pub drops : ℕ → Bytes → Bool
drops i [] = true
drops i (c ∷ name) = if c == b'-' then takes i (block_ts_rbd_feature_str2feat name) else true

abbrev pub dropped : ℕ → List Bytes → Bool
dropped i [] = false
dropped i (tok ∷ toks) = drops i tok || dropped i toks

abbrev pub is_ok {ℓ} : {A : Type ℓ} → Result A → Bool
is_ok (ok a) = true
is_ok (err e) = false

abbrev pub is_directive : Bytes → Bool
is_directive [] = false
is_directive (c ∷ name) =
    if c == b'-'
    then is_ok (block_ts_rbd_feature_str2feat name)
    else strcmp (c ∷ name) (codes "UNSET_FEATURES")

abbrev pub all_directives : List Bytes → Bool
all_directives [] = true
all_directives (tok ∷ toks) = is_directive tok && all_directives toks

find_entry-lt :
    (es : List Entry) (name : Bytes) (f : ℕ)
    → All (λ e. e.1 < 2 ^ 32) es
    → find_entry es name ≡ ok f
    → f < 2 ^ 32
unfolding find_entry
find_entry-lt [] name f h e = cc
find_entry-lt ((n, v) ∷ es) name f h e = ground (arith, find_entry-lt es name f h.1)

str2feat-lt : (name : Bytes) (f : ℕ) → block_ts_rbd_feature_str2feat name ≡ ok f → f < 2 ^ 32
unfolding block_ts_rbd_feature_str2feat
str2feat-lt name f e = find_entry-lt entries name f (omega arith) e

bit-disable :
    (i features f : ℕ)
    → i < 32
    → f < 2 ^ 32
    → bit (bit_and features (complement 32 f)) i ≡ (if bit f i == 1 then 0 else bit features i)
bit-disable i features f h l =
    bit-and i features (complement 32 f)
    ∙ ground (arith, bit-complement 32 i f h l, bit-lt i f, bit-lt i features)

clear_feature-bits :
    (i features m : ℕ) (r : Result ℕ)
    → i < 32
    → ((f : ℕ) → r ≡ ok f → f < 2 ^ 32)
    → clear_feature features r ≡ ok m
    → bit m i ≡ (if takes i r then 0 else bit features i)
unfolding clear_feature
clear_feature-bits i features m (ok f) h l e = ground (arith, bit-disable i features f h (l f refl))
clear_feature-bits i features m (err x) h l e = cc

apply_token-bits :
    (i features m : ℕ) (tok : Bytes)
    → i < 32
    → apply_token features tok ≡ ok m
    → bit m i ≡ (if drops i tok then 0 else bit features i)
unfolding apply_token block_ts_test_get_features_keyword block_ts_test_get_features_disable
apply_token-bits i features m [] h e = ground (arith, bit-zero i)
apply_token-bits i features m (c ∷ name) h e = elim (Bool-cases (c == b'-')) [
  | inl dash ↦ rw dash (
      clear_feature-bits i features m (block_ts_rbd_feature_str2feat name) h (str2feat-lt name)
        (rw dash at e))
  | inr word ↦ rw word (ground (arith, bit-zero i))
]

-- The rest of the loop, from what one token left.
and_then-bits :
    (i features m : ℕ) (r : Result ℕ) (f : ℕ → Result ℕ) (here there : Bool)
    → and_then r f ≡ ok m
    → ((n : ℕ) → r ≡ ok n → bit n i ≡ (if here then 0 else bit features i))
    → ((n : ℕ) → f n ≡ ok m → bit m i ≡ (if there then 0 else bit n i))
    → bit m i ≡ (if here || there then 0 else bit features i)
and_then-bits i features m (ok n) f here there e h t = ground (arith, h n refl, t n e)
and_then-bits i features m (err x) f here there e h t = cc

apply_tokens-bits :
    (i features m : ℕ) (toks : List Bytes)
    → i < 32
    → apply_tokens features toks ≡ ok m
    → bit m i ≡ (if dropped i toks then 0 else bit features i)
unfolding apply_tokens
apply_tokens-bits i features m [] h e = ground arith
apply_tokens-bits i features m (tok ∷ toks) h e =
    and_then-bits i features m (apply_token features tok) (λ n. apply_tokens n toks) (drops i tok)
      (dropped i toks) e (λ n k. apply_token-bits i features n tok h k)
      (λ n k. apply_tokens-bits i n m toks h k)

-- A feature is in the result exactly when it is a default feature and no token of the string takes
-- it away.
pub get_features-bits :
    (features_string : Bytes) (m i : ℕ)
    → i < 32
    → block_ts_test_get_features features_string ≡ ok m
    → bit m i ≡ (if dropped i (tokens features_string) then 0 else bit default_features i)
unfolding block_ts_test_get_features
get_features-bits features_string m i h e =
    apply_tokens-bits i default_features m (tokens features_string) h e

is_ok-clear_feature : (features : ℕ) (r : Result ℕ) → is_ok (clear_feature features r) ≡ is_ok r
unfolding clear_feature
is_ok-clear_feature features (ok f) = refl
is_ok-clear_feature features (err e) = refl

is_ok-apply_token :
    (features : ℕ) (tok : Bytes) → is_ok (apply_token features tok) ≡ is_directive tok
unfolding apply_token block_ts_test_get_features_keyword block_ts_test_get_features_disable
is_ok-apply_token features [] = unfold strcmp in refl
is_ok-apply_token features (c ∷ name) =
    ground (arith, is_ok-clear_feature features (block_ts_rbd_feature_str2feat name))

is_ok-and_then :
    (r : Result ℕ) (f : ℕ → Result ℕ) (b : Bool)
    → ((n : ℕ) → is_ok (f n) ≡ b)
    → is_ok (and_then r f) ≡ is_ok r && b
is_ok-and_then (ok n) f b h = h n
is_ok-and_then (err e) f b h = refl

is_ok-apply_tokens :
    (features : ℕ) (toks : List Bytes) → is_ok (apply_tokens features toks) ≡ all_directives toks
unfolding apply_tokens
is_ok-apply_tokens features [] = refl
is_ok-apply_tokens features (tok ∷ toks) =
    is_ok-and_then (apply_token features tok) (λ n. apply_tokens n toks) (all_directives toks)
      (λ n. is_ok-apply_tokens n toks)
    ∙ ap (λ b. b && all_directives toks) (is_ok-apply_token features tok)

-- The string is accepted exactly when every token is -NAME for the name of a feature, or
-- UNSET_FEATURES.
pub get_features_accepts :
    (features_string : Bytes)
    → is_ok (block_ts_test_get_features features_string) ≡ all_directives (tokens features_string)
unfolding block_ts_test_get_features
get_features_accepts features_string = is_ok-apply_tokens default_features (tokens features_string)
