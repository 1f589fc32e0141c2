-- ===== src/BlkProxy/Masks.antt =====
-- block-ts/lib/tsapi-blkproxy.c: what the masks of a MapVirtioBlk section say in the MI log.
use Prim.Native.Nat.{bit_and, bit_or}
use cns_virtblk_ts.Base.{
  ℕ, zero, suc, ◌+◌, ◌-◌, ◌%◌, ◌==◌, Bool, true, false, Option, none, some, List, [], ◌∷◌, ◌++◌,
  drop, if◌then◌else◌,
}
use cns_virtblk_ts.Base.Text.{Bytes, codes, strcmp}
use cns_virtblk_ts.Base.Exec.{Result, ok, err, Status, Exec, pure, lift, ◌>>=◌, ◌>>◌}
use cns_virtblk_ts.Te.{TeLib}
use cns_virtblk_ts.Conf.{Kv, Section, Conf}
use cns_virtblk_ts.BlkProxy.{Params}

-- What the MI report calls.
pub record ReportLib (W : Type 0) : Type 0 where
  -- te_strtoul(text, 16): the number, as an unsigned long
  pub te_strtoul : Bytes → Result ℕ
  -- te_strtol(text, 10): the bit pattern of the long
  pub te_strtol : Bytes → Result ℕ
  pub te_kvpairs_get : Params → Bytes → Option Bytes
  -- te_kvpair_add(list, key, "%s", value)
  pub te_kvpair_add : Params → Bytes → Bytes → Exec W Params
  -- te_mi_logger_add_meas_key(logger, &rc, key, "%s", value)
  pub te_mi_logger_add_meas_key : Bytes → Bytes → Exec W Unit
  -- what "%d" prints for a number, given as its bit pattern
  pub decimal : ℕ → Bytes

-- `for (; mask != 0; (*count)++) mask &= (mask - 1)`, on fuel; `none` means that the fuel ran out.
-- `count` is an unsigned int.
unfoldable pub count_loop : ℕ → ℕ → ℕ → Option ℕ
count_loop zero mask count = none
count_loop (suc fuel) mask count =
    let rest = count_loop fuel (bit_and mask (mask - 1)) ((count + 1) % 0x100000000) in
    if mask == 0 then some count else rest

abbrev pub count_fuel : ℕ
count_fuel = 65

unfoldable pub map_bp_conf_mask2mi_log_mask : Bytes → Option Bytes
map_bp_conf_mask2mi_log_mask name =
    if strcmp (codes "Cpumask") name
    then some (codes "Q")
    else if strcmp (codes "R_Cpumask") name
    then some (codes "R")
    else if strcmp (codes "W_Cpumask") name
    then some (codes "W")
    else none

module _ {W : Type 0} (lib : ReportLib W) where
  open lib use {
    te_strtoul, te_strtol, te_kvpairs_get, te_kvpair_add, te_mi_logger_add_meas_key, decimal,
  }

  counted : Result ℕ → Result (Option ℕ)
  counted (ok mask) = ok (count_loop count_fuel mask 0)
  counted (err e) = err e

  unfoldable pub count_bits_in_mask : Bytes → Result (Option ℕ)
  unfolding counted
  count_bits_in_mask mask_str = counted (te_strtoul mask_str)

  -- "Dev<n>" in front of a key.
  abbrev pub dev_key : ℕ → Bytes → Bytes
  dev_key n rest = codes "Dev" ++ (decimal n ++ rest)

  log_count : Bytes → Option ℕ → Exec W Unit
  log_count key none = pure tt
  log_count key (some n) = te_mi_logger_add_meas_key key (decimal n)

  unfoldable pub add_thread_mask_to_mi_log : ℕ → Bytes → Bytes → Exec W Unit
  unfolding count_bits_in_mask log_count
  add_thread_mask_to_mi_log dev_number mask_name mask_value = do
    n ← lift (count_bits_in_mask mask_value)
    log_count (dev_key dev_number (b'-' ∷ (mask_name ++ codes "-Threads"))) n

  -- CHECK_CROSS_MASK: a mask that is not there changes nothing, and an error ends the checks.
  unfoldable pub cross_with : Option (Result ℕ) → (ℕ → ℕ → ℕ) → Result ℕ → Result ℕ
  cross_with m op (err e) = err e
  cross_with none op (ok crossed) = ok crossed
  cross_with (some (ok mask)) op (ok crossed) = ok (op crossed mask)
  cross_with (some (err e)) op (ok crossed) = err e

  unfoldable pub parsed_mask : Params → Bytes → Option (Result ℕ)
  parsed_mask masks name = elim (te_kvpairs_get masks name) [
    | none ↦ none
    | some s ↦ some (te_strtoul s)
  ]

  -- The three checks, in this order.
  unfoldable pub crossed_mask : Params → Result ℕ
  unfolding cross_with
  crossed_mask masks = cross_with (parsed_mask masks (codes "Q")) bit_and (
      cross_with (parsed_mask masks (codes "R")) bit_or
        (cross_with (parsed_mask masks (codes "W")) bit_or (ok 0)))

  unfoldable pub add_crossed_masks_info_to_mi_log : Params → ℕ → Exec W Unit
  unfolding crossed_mask
  add_crossed_masks_info_to_mi_log masks dev_number = do
    m ← lift (crossed_mask masks)
    te_mi_logger_add_meas_key (dev_key dev_number (codes "-Threads-Crossed"))
        (if m == 0 then codes "FALSE" else codes "TRUE")

  qrw_names : Params → Bytes
  qrw_names [] = []
  qrw_names ((k, v) ∷ masks) = k ++ qrw_names masks

  qrw_values : Params → Bytes
  qrw_values [] = []
  qrw_values ((k, v) ∷ masks) = v ++ b',' ∷ qrw_values masks

  unfoldable pub add_qrw_masks_to_mi_log : Params → ℕ → Exec W Unit
  unfolding qrw_names qrw_values
  add_qrw_masks_to_mi_log masks dev_number =
      te_mi_logger_add_meas_key (dev_key dev_number (b'-' ∷ (qrw_names masks ++ codes "-Mask")))
        (qrw_values masks)

  -- The status of the count is not looked at; the world goes on from where the call left it.
  after_count : Status × W → W
  after_count (r, w) = w

  unfoldable pub collect_masks : ℕ → List Kv → Params → Exec W Params
  unfolding after_count
  collect_masks dev_number [] masks = pure masks
  collect_masks dev_number (kv ∷ kvs) masks = elim (map_bp_conf_mask2mi_log_mask kv.key) [
    | none ↦ collect_masks dev_number kvs masks
    | some name ↦ λ w.
        (te_kvpair_add masks name kv.value >>= collect_masks dev_number kvs)
          (after_count (add_thread_mask_to_mi_log dev_number name kv.value w))
  ]

  unfoldable pub add_mapvirtblk_section_to_mi_log : Section → Exec W Unit
  unfolding collect_masks add_qrw_masks_to_mi_log add_crossed_masks_info_to_mi_log
  add_mapvirtblk_section_to_mi_log section = do
    dev_number ← lift (te_strtol (drop 12 section.name))
    masks ← collect_masks dev_number section.items []
    add_crossed_masks_info_to_mi_log masks dev_number
    add_qrw_masks_to_mi_log masks dev_number

module _ {W : Type 0} (te : TeLib W) (lib : ReportLib W) where
  open lib use {te_mi_logger_add_meas_key, decimal}

  unfoldable pub count_devices : Conf → ℕ
  count_devices [] = 0
  count_devices (s ∷ conf) =
      let n = count_devices conf in
      if te.strcmp_start (codes "MapVirtioBlk") s.name then suc n else n

  unfoldable pub report_sections : Conf → Bool → Exec W Unit
  report_sections [] is_dev_type_add = pure tt
  report_sections (s ∷ conf) is_dev_type_add =
      if te.strcmp_start (codes "MapVirtioBlk") s.name
      then (do add_mapvirtblk_section_to_mi_log lib s; report_sections conf is_dev_type_add)
      else if is_dev_type_add
      then report_sections conf true
      else (do te_mi_logger_add_meas_key (codes "Dev-Type") s.name; report_sections conf true)

  unfoldable pub tsapi_blkproxy_add_conf_to_mi_log : Conf → Bool → Exec W Unit
  unfolding count_devices
  tsapi_blkproxy_add_conf_to_mi_log conf multipath = do
    te_mi_logger_add_meas_key (codes "Multipath")
        (if multipath then codes "True" else codes "False")
    te_mi_logger_add_meas_key (codes "Dev") (decimal (count_devices conf))
    report_sections conf false
