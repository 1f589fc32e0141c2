-- ===== src/BlkProxy/Counting.antt =====
-- The bits of a mask are counted exactly, and the loop ends within its fuel.
use Prim.Native.Nat.{bit_and}
use cns_virtblk_ts.Base.{
  ℕ, zero, suc, ◌+◌, ◌-◌, ◌%◌, ◌/◌, ◌^◌, ◌≤◌, ◌<◌, ◌==◌, ◌≡◌, ap, ◌∙◌, some, arith, inl, inr,
  Bool-cases, ==_iff,
}
use cns_virtblk_ts.Base.Text.{Bytes}
use cns_virtblk_ts.Base.Bits.{ones, ones-clear, ones-zero, clear-lt}
use cns_virtblk_ts.Base.Exec.{ok}
use cns_virtblk_ts.BlkProxy.Masks.{ReportLib, count_loop, count_fuel, count_bits_in_mask}

-- Every round clears one bit, so the rounds are as many as the ones.
count_loop-ones :
    (k fuel mask count : ℕ)
    → mask < 2 ^ k
    → ones k mask < fuel
    → count + ones k mask < 0x100000000
    → count_loop fuel mask count ≡ some (count + ones k mask)
unfolding count_loop
count_loop-ones k zero mask count l f c = absurd (omega arith)
count_loop-ones k (suc fuel) mask count l f c = elim (Bool-cases (mask == 0)) [
  | inl none_left ↦
      let e : mask ≡ 0 = (==_iff mask 0).0 none_left in
      rw (none_left, e, ones-zero k) (ap some (omega arith))
  | inr more ↦
      let pos : 0 < mask = ground arith in
      let cleared = ones-clear k mask l pos in
      let n : (count + 1) % 0x100000000 ≡ count + 1 = omega (arith, cleared) in
      rw (more, n)
        (count_loop-ones k fuel (bit_and mask (mask - 1)) (count + 1) (clear-lt k mask l)
            (omega (arith, cleared)) (omega (arith, cleared))
          ∙ ap some (omega (arith, cleared)))
]

ones-le : (k n : ℕ) → ones k n ≤ k
ones-le zero n = omega arith
ones-le (suc k) n = omega (arith, ones-le k (n / 2))

module _ {W : Type 0} (lib : ReportLib W) where
  -- For a text that is read as a number of 64 bits the loop ends, and the count is the number of
  -- its ones.
  pub count_bits-ones :
      (mask_str : Bytes) (mask : ℕ)
      → lib.te_strtoul mask_str ≡ ok mask
      → mask < 2 ^ 64
      → count_bits_in_mask lib mask_str ≡ ok (some (ones 64 mask))
  unfolding count_bits_in_mask
  count_bits-ones mask_str mask h l = rw h (
      ap ok (
        count_loop-ones 64 count_fuel mask 0 l (omega (arith, ones-le 64 mask))
          (omega (arith, ones-le 64 mask))
        ∙ ap some (omega arith)))
