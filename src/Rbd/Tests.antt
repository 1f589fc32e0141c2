-- ===== src/Rbd/Tests.antt =====
-- Runs of the RBD feature code, and its theorems at concrete inputs.
use cns_virtblk_ts.Base.{◌≡◌, refl, arith, if◌then◌else◌}
use cns_virtblk_ts.Base.Text.{Bytes, codes, strcmp}
use cns_virtblk_ts.Base.Bits.{bit}
use cns_virtblk_ts.Base.Exec.{ok, err, esrch}
use cns_virtblk_ts.Rbd.{
  find_entry, block_ts_rbd_feature_str2feat, clear_feature, block_ts_test_get_features_disable,
  block_ts_test_get_features_keyword, strtok_from, tokens, apply_token, apply_tokens,
  default_features, block_ts_test_get_features,
}
use cns_virtblk_ts.Rbd.Features.{
  dropped, is_ok, all_directives, get_features-bits, get_features_accepts,
}

abbrev without_two : Bytes
without_two = codes "-OBJECT_MAP:-FAST_DIFF"

features_without_two : block_ts_test_get_features without_two ≡ ok 231
unfolding block_ts_test_get_features apply_tokens apply_token block_ts_test_get_features_disable
    block_ts_test_get_features_keyword clear_feature block_ts_rbd_feature_str2feat find_entry
    strtok_from strcmp
features_without_two = refl

get_features-bits_example :
    bit 231 3 ≡ (if dropped 3 (tokens without_two) then 0 else bit default_features 3)
get_features-bits_example = get_features-bits without_two 231 3 (omega arith) features_without_two

get_features_accepts_example :
    is_ok (block_ts_test_get_features without_two) ≡ all_directives (tokens without_two)
get_features_accepts_example = get_features_accepts without_two

unknown_feature : block_ts_test_get_features (codes "-OBJECT") ≡ err esrch
unfolding block_ts_test_get_features apply_tokens apply_token block_ts_test_get_features_disable
    block_ts_test_get_features_keyword clear_feature block_ts_rbd_feature_str2feat find_entry
    strtok_from strcmp
unknown_feature = refl
