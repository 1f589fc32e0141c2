-- ===== src/BlkProxy/Tests.antt =====
-- Runs of the blk-proxy code, and its theorems at concrete inputs.
use Prim.Native.Nat.{min, max}
use cns_virtblk_ts.Base.{
  ℕ, ◌+◌, ◌-◌, ◌*◌, ◌≡◌, refl, false, Option, none, some, List, [], ◌∷◌, ◌++◌, drop, leb, arith,
  if◌then◌else◌,
}
use cns_virtblk_ts.Base.Text.{Bytes, codes, strcmp}
use cns_virtblk_ts.Base.Bits.{bit, ones}
use cns_virtblk_ts.Base.Exec.{Result, ok, err, einval}
use cns_virtblk_ts.Te.Model.{Files}
use cns_virtblk_ts.Conf.{Conf}
use cns_virtblk_ts.BlkProxy.{Params, ProxyLib}
use cns_virtblk_ts.BlkProxy.Build.{Setting}
use cns_virtblk_ts.BlkProxy.Masks.{ReportLib, count_bits_in_mask, crossed_mask, parsed_mask}
use cns_virtblk_ts.BlkProxy.Counting.{count_bits-ones}
use cns_virtblk_ts.BlkProxy.Crossing.{crossed_mask-bit}

-- Values are formats with no argument and names that stand for themselves.
abbrev proxy : ProxyLib Files
proxy = record {
  te_string_format = λ s w. (ok s, w);
  te_string_replace_all_substrings = λ s new old w. (ok s, w);
  te_expand_kvpairs = λ s params w. (ok s, w);
  system = λ s w. (false, w);
  rcf_ta_put_file = λ ta local remote w. (ok tt, w);
  ring = λ s w. w;
}

abbrev same : Bytes → Bytes
same v = v

abbrev settings : List Setting
settings =
    record { section = codes "Ceph"; key = codes "User"; value = codes "admin" }
    ∷ record { section = codes "MapVirtioBlk0"; key = codes "Dev"; value = codes "Ceph0" }
    ∷ record { section = codes "Ceph"; key = codes "Pool"; value = codes "none" }
    ∷ record { section = codes "Ceph"; key = codes "Conf"; value = codes "#{conf}" }
    ∷ []

-- Hexadecimal digits in capitals.
abbrev hex : ℕ → Bytes → Result ℕ
hex n [] = ok n
hex n (c ∷ s) =
    if leb 48 c
    then (if leb c 57 then hex (n * 16 + (c - 48)) s else hex (n * 16 + (c - 55)) s)
    else err einval

abbrev find : Params → Bytes → Option Bytes
find [] name = none
find ((k, v) ∷ params) name = if strcmp k name then some v else find params name

abbrev report : ReportLib Params
report = record {
  te_strtoul = λ s. hex 0 (drop 2 s);
  te_strtol = λ s. hex 0 s;
  te_kvpairs_get = find;
  te_kvpair_add = λ params k v w. (ok (params ++ (k, v) ∷ []), w);
  te_mi_logger_add_meas_key = λ k v w. (ok tt, w ++ (k, v) ∷ []);
  decimal = λ n. (48 + n) ∷ [];
}

count_bits-ones_example : count_bits_in_mask report (codes "0xFE") ≡ ok (some (ones 64 0xfe))
count_bits-ones_example = count_bits-ones report (codes "0xFE") 0xfe refl (omega arith)

abbrev three_masks : Params
three_masks = (codes "W", codes "0x1") ∷ (codes "R", codes "0xC") ∷ (codes "Q", codes "0x6") ∷ []

crossed_mask-bit_example :
    (m : ℕ) × (crossed_mask report three_masks ≡ ok m)
    × ((i : ℕ) → bit m i ≡ min (max (bit 1 i) (bit 12 i)) (bit 6 i))
unfolding parsed_mask strcmp
crossed_mask-bit_example = crossed_mask-bit report three_masks 1 12 6 refl refl refl
