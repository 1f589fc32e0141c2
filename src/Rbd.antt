-- ===== src/Rbd.antt =====
-- block-ts/lib/block-ts.c and block-ts.h: the sets of RBD features that a test asks for.
pub mod Features
mod Tests
use Prim.Native.Nat.{bit_and, bit_or}
use cns_virtblk_ts.Base.{
  ℕ, ◌==◌, Bool, true, false, not, Option, none, some, List, [], ◌∷◌, ◌++◌, ◌^◌, if◌then◌else◌,
}
use cns_virtblk_ts.Base.Text.{Bytes, codes, strcmp}
use cns_virtblk_ts.Base.Bits.{complement}
use cns_virtblk_ts.Base.Exec.{Result, ok, err, einval, esrch, Status, Exec, lift, pure, ◌>>=◌, ◌>>◌}
use cns_virtblk_ts.Te.{TeLib}

-- block_ts_rbd_feature_map_entries
abbrev pub Entry : Type 0
Entry = Bytes × ℕ

abbrev pub entries : List Entry
entries =
    (codes "LAYERING", 1)
    ∷ (codes "STRIPINGV2", 2)
    ∷ (codes "EXCLUSIVE_LOCK", 4)
    ∷ (codes "OBJECT_MAP", 8)
    ∷ (codes "FAST_DIFF", 16)
    ∷ (codes "DEEP_FLATTEN", 32)
    ∷ (codes "JOURNALING", 64)
    ∷ (codes "DATA_POOL", 128)
    ∷ (codes "OPERATIONS", 256)
    ∷ (codes "MIGRATING", 512)
    ∷ []

unfoldable pub find_entry : List Entry → Bytes → Result ℕ
find_entry [] feature = err esrch
find_entry ((name, value) ∷ es) feature =
    if strcmp feature name then ok value else find_entry es feature

unfoldable pub block_ts_rbd_feature_str2feat : Bytes → Result ℕ
unfolding find_entry
block_ts_rbd_feature_str2feat feature = find_entry entries feature

-- `features &= ~feat` on an unsigned int
unfoldable pub clear_feature : ℕ → Result ℕ → Result ℕ
clear_feature features (ok feat) = ok (bit_and features (complement 32 feat))
clear_feature features (err e) = err e

unfoldable pub block_ts_test_get_features_disable : ℕ → Bytes → Result ℕ
block_ts_test_get_features_disable features feature =
    clear_feature features (block_ts_rbd_feature_str2feat feature)

unfoldable pub block_ts_test_get_features_keyword : ℕ → Bytes → Result ℕ
block_ts_test_get_features_keyword features keyword =
    if strcmp keyword (codes "UNSET_FEATURES") then ok 0 else err einval

-- The tokens of strtok(s, ":"): runs of other bytes. `tok` is what has been read of the current one.
abbrev emit : Bytes → List Bytes → List Bytes
emit [] toks = toks
emit (c ∷ tok) toks = (c ∷ tok) ∷ toks

unfoldable pub strtok_from : Bytes → Bytes → List Bytes
strtok_from tok [] = emit tok []
strtok_from tok (c ∷ s) =
    let next = strtok_from [] s in
    let more = strtok_from (tok ++ c ∷ []) s in if c == b':' then emit tok next else more

abbrev pub tokens : Bytes → List Bytes
tokens s = strtok_from [] s

-- An error ends the loop.
abbrev pub and_then : Result ℕ → (ℕ → Result ℕ) → Result ℕ
and_then (ok features) f = f features
and_then (err e) f = err e

unfoldable pub apply_token : ℕ → Bytes → Result ℕ
apply_token features [] = block_ts_test_get_features_keyword features []
apply_token features (c ∷ name) =
    if c == b'-'
    then block_ts_test_get_features_disable features name
    else block_ts_test_get_features_keyword features (c ∷ name)

unfoldable pub apply_tokens : ℕ → List Bytes → Result ℕ
apply_tokens features [] = ok features
apply_tokens features (tok ∷ toks) =
    and_then (apply_token features tok) (λ features'. apply_tokens features' toks)

-- The features up to DATA_POOL.
abbrev pub default_features : ℕ
default_features = 255

unfoldable pub block_ts_test_get_features : Bytes → Result ℕ
block_ts_test_get_features features_string = apply_tokens default_features (tokens features_string)

-- rpc_setenv() and rpc_unsetenv(): whether they returned 0, and the error of the RPC server.
pub record EnvLib (W : Type 0) : Type 0 where
  pub rpc_setenv : Bytes → Bytes → W → Bool × W
  pub rpc_unsetenv : Bytes → W → Bool × W
  pub rpc_errno : W → Status
  -- what "%d" prints
  pub decimal : ℕ → Bytes

module _ {W : Type 0} (te : TeLib W) (lib : EnvLib W) where
  open lib use {rpc_setenv, rpc_unsetenv, rpc_errno, decimal}

  -- "%s (%d)\n"
  abbrev pub feature_line : Entry → Bytes
  feature_line (name, value) = name ++ codes " (" ++ decimal value ++ b')' ∷ 10 ∷ []

  -- On an error the string is freed.
  unfoldable pub string_from : List Entry → ℕ → Bytes → W → Status × Bytes × W
  string_from [] features str w = (ok tt, str, w)
  string_from (e ∷ es) features str w =
      let skip = string_from es features str w in
      let (r, str', w') = te.te_string_append str (feature_line e) w in
      let rest : Status × Bytes × W = elim r [
        | ok _ ↦ string_from es features str' w'
        | err x ↦ (err x, [], w')
      ] in
      if bit_and features e.1 == 0 then skip else rest

  unfoldable pub block_ts_rbd_features_string : ℕ → Bytes → W → Status × Bytes × W
  unfolding string_from
  block_ts_rbd_features_string features str w = string_from entries features str w

  rpc_status : Bool × W → Status × W
  rpc_status (done, w) = (if done then ok tt else rpc_errno w, w)

  set_features : ℕ → Exec W Unit
  set_features rbd_features w =
      let (r, value, w') = te.te_string_append [] (decimal rbd_features) w in
      elim r [
        | ok _ ↦
            let (r', ring_val, w'') = block_ts_rbd_features_string rbd_features [] w' in
            elim r' [
              | ok _ ↦ rpc_status (rpc_setenv (codes "RBD_FEATURES") value w'')
              | err e ↦ (err e, w'')
            ]
        | err e ↦ (err e, w')
      ]

  -- `features` is the parameter of the test, or "" without it.
  unfoldable pub block_ts_test_specific_setenv : Bytes → Exec W Unit
  unfolding set_features rpc_status
  block_ts_test_specific_setenv features = do
    rbd_features ← lift (block_ts_test_get_features features)
    if rbd_features == 0
        then (λ w. rpc_status (rpc_unsetenv (codes "RBD_FEATURES") w))
        else set_features rbd_features
