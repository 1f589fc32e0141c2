-- ===== src/BlkProxy/Reactor.antt =====
-- The mask of CPUs that the blk-proxy is given.
use cns_virtblk_ts.Base.{ℕ, ◌-◌, ◌≡◌, refl, ap, ◌⊎◌, inl, inr, arith, Option, none, some}
use cns_virtblk_ts.Base.Text.{Bytes}
use cns_virtblk_ts.Base.Exec.{Result, ok, >>=-run}
use cns_virtblk_ts.Te.{TeLib}
use cns_virtblk_ts.Backend.{CfgLib}
use cns_virtblk_ts.Backend.Inventory.{ServerLib}
use cns_virtblk_ts.BlkProxy.Masks.{ReportLib, count_bits_in_mask}
use cns_virtblk_ts.BlkProxy.Counting.{count_bits-ones}
use cns_virtblk_ts.BlkProxy.Process.{
  Opts, LaunchLib, mask_for, mask_for_8_cpu, mask_for_16_cpu, outside, mask_or_efail, set_cpu_mask,
}

module _ {W V : Type 0} (te : TeLib W) (cfg : CfgLib W) (server : ServerLib W) (lib : LaunchLib W)
    (report : ReportLib V) where
  mask_for-cases :
      (n : ℕ)
      → (mask_for n ≡ none)
        ⊎ (((n ≡ 8) × (mask_for n ≡ some mask_for_8_cpu))
            ⊎ ((n ≡ 16) × (mask_for n ≡ some mask_for_16_cpu)))
  unfolding mask_for
  mask_for-cases n = ground arith

  mask_or_efail-ok :
      (m : Option Bytes) (s : Opts × W)
      → (mask_or_efail te cfg server lib m s).0 ≡ ok tt
      → m ≡ some (mask_or_efail te cfg server lib m s).1.0.cpu_mask
  mask_or_efail-ok none s h = cc
  mask_or_efail-ok (some mask) s h = refl

  count_of :
      (n : ℕ) (mask : Bytes)
      → report.te_strtoul mask_for_8_cpu ≡ ok 0xfe
      → report.te_strtoul mask_for_16_cpu ≡ ok 0xfffe
      → mask_for n ≡ some mask
      → ((n ≡ 8) ⊎ (n ≡ 16)) × (count_bits_in_mask report mask ≡ ok (some (n - 1)))
  count_of n mask e8 e16 e = elim (mask_for-cases n) [
    | inl x ↦ cc
    | inr (inl (x, y)) ↦
        let m : mask ≡ mask_for_8_cpu = cc in
        (inl x, rw x (rw m (count_bits-ones report mask_for_8_cpu 0xfe e8 (omega arith))))
    | inr (inr (x, y)) ↦
        let m : mask ≡ mask_for_16_cpu = cc in
        (inr x, rw x (rw m (count_bits-ones report mask_for_16_cpu 0xfffe e16 (omega arith))))
  ]

  -- Where te_strtoul() reads the two masks as their numbers: when the mask of the CPUs is set, the agent
  -- has 8 or 16 CPUs, and the mask in the options, counted as for the report, has all of them but one.
  pub set_cpu_mask-count :
      (ta : Bytes) (opts : Opts) (w : W)
      → report.te_strtoul mask_for_8_cpu ≡ ok 0xfe
      → report.te_strtoul mask_for_16_cpu ≡ ok 0xfffe
      → (set_cpu_mask te cfg server lib ta (opts, w)).0 ≡ ok tt
      → (n : ℕ) × ((lib.tapi_cfg_get_all_threads ta w).0 ≡ ok n)
        × ((n ≡ 8) ⊎ (n ≡ 16))
        × (count_bits_in_mask report (set_cpu_mask te cfg server lib ta (opts, w)).1.0.cpu_mask
            ≡ ok (some (n - 1)))
  unfolding set_cpu_mask
  set_cpu_mask-count ta opts w e8 e16 h =
      let ask = outside te cfg server lib (lib.tapi_cfg_get_all_threads ta) in
      let choose : ℕ → Opts × W → Result Unit × (Opts × W) =
        λ n. mask_or_efail te cfg server lib (mask_for n) in
      let (n, s, e, h1, s1) = >>=-run ask choose (opts, w) tt h in
      let m = mask_or_efail-ok (mask_for n) s h1 in
      let c = ap (λ r. r.1.0.cpu_mask) s1 in
      let (cases, count) = count_of n _ e8 e16 m in (n, ap (λ r. r.0) e, cases, rw c count)
