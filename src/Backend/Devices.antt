-- ===== src/Backend/Devices.antt =====
-- The text of an inventory file, and the sizes of the devices of a Ceph server.
use cns_virtblk_ts.Base.{
  ℕ, ◌+◌, ◌-◌, ◌*◌, ◌/◌, ◌%◌, ◌^◌, ◌<◌, ◌≤◌, ◌≡◌, refl, sym, arith, ap, Bool, true, false, not,
  List, [], ◌∷◌, ◌++◌, All, append-nil, append_assoc, if◌then◌else◌,
}
use native.Mathlib.Nat.{div-add-mod, mod-lt}
use cns_virtblk_ts.Base.Text.{Bytes, Lacks}
use cns_virtblk_ts.Base.Exec.{ok, err, efail, Status}
use cns_virtblk_ts.Te.{TeLib}
use cns_virtblk_ts.Backend.{CfgLib}
use cns_virtblk_ts.Backend.Inventory.{
  ServerLib, Params, expand_lines, ends_line, append_line, append_result,
}
use cns_virtblk_ts.Backend.Prepare.{dev_size}

-- For a storage of at least 2 gigabytes, whose size is an int, and at least one device, where the share
-- of each device in the storage less the two gigabytes that Ceph keeps is less than 2 ^ 21 gigabytes: the
-- size is no negative int, the devices fit into that storage, and with a gigabyte more for each device
-- they would not.
pub dev_size-fits :
    (stor n : ℕ)
    → 2 ≤ stor
    → stor < 2 ^ 31
    → (l : 0 < n) → (stor - 2) / n < 2 ^ 21
    → (dev_size stor n < 2 ^ 31)
      × (dev_size stor n * n ≤ (stor - 2) * 1024)
      × ((stor - 2) * 1024 < (dev_size stor n + 1024) * n)
unfolding dev_size
dev_size-fits stor n h k l share =
    let m : (stor + (2 ^ 32 - 2)) % 2 ^ 32 ≡ stor - 2 = omega arith in
    let q = (stor - 2) / n in
    let d : n * q + (stor - 2) % n ≡ stor - 2 = div-add-mod (stor - 2) n in
    let r : (stor - 2) % n < n = mod-lt (stor - 2) l in
    let size : dev_size stor n ≡ q * 1024 = unfold dev_size in rw m (omega (arith, share)) in
    let order : q * 1024 * n ≡ n * q * 1024 = omega arith in
    rw size (omega (arith, share), omega (arith, order, d, r), omega (arith, order, d, r))

-- The expansions of the lines one after the other.
abbrev pub joined : (Bytes → Bytes) → List Bytes → Bytes
joined f [] = []
joined f (line ∷ lines) = f line ++ joined f lines

-- Whether every line but the last expands to a text that ends in a newline.
abbrev pub are_whole : (Bytes → Bytes) → Bool → List Bytes → Bool
are_whole f broken [] = true
are_whole f true (line ∷ lines) = false
are_whole f false (line ∷ lines) = are_whole f (not (ends_line 0 (f line))) lines

pub append_result_lem :
    {W : Type 0} (r : Status × Bytes × W) (s : Bytes)
    → r.0 ≡ ok tt
    → r.1 ≡ s
    → append_result r ≡ (ok s, r.2)
append_result_lem (ok _, s', w) s h k = rw k refl
append_result_lem (err e, s', w) s h k = cc

-- A format without conversions is appended as it is, and memory suffices for it.
pub record IsFormatting {W : Type 0} (lib : ServerLib W) : Type 0 where
  pub plain :
      (s format : Bytes) (w : W)
      → Lacks b'%' format
      → (lib.te_string_append_format s format w).0 ≡ ok tt
      → (lib.te_string_append_format s format w).1 ≡ s ++ format
  pub appends : (s format : Bytes) (w : W) → (lib.te_string_append_format s format w).0 ≡ ok tt

abbrev pub is_filled : Bytes → Bool
is_filled [] = false
is_filled (c ∷ s) = true

-- The expanded lines hold no percent sign and are not empty.
abbrev pub AllPlain : (Bytes → Bytes) → List Bytes → Type 0
AllPlain f = All (λ line. Lacks b'%' (f line) × (is_filled (f line) ≡ true))

-- The byte in front of a line is not read where the line is not empty.
ends_line-filled :
    (before : ℕ) (s : Bytes) → is_filled s ≡ true → ends_line before s ≡ ends_line 0 s
ends_line-filled before [] h = cc
ends_line-filled before (c ∷ s) h = refl

module _ {W : Type 0} (te : TeLib W) (cfg : CfgLib W) (lib : ServerLib W)
    (formatting : IsFormatting lib) (kv_params : Params) (f : Bytes → Bytes)
    (expands : (line : Bytes) (w : W)
      → (lib.te_expand_kvpairs line kv_params w).0 ≡ ok (f line)) where
  append_line_lem :
      (s t : Bytes) (w : W)
      → Lacks b'%' t
      → append_line te cfg lib s t w ≡ (ok (s ++ t), (lib.te_string_append_format s t w).2)
  append_line_lem s t w plain =
      let room = formatting.appends s t w in
      append_result_lem (lib.te_string_append_format s t w) (s ++ t) room
        (formatting.plain s t w plain room)

  expand_line :
      (line : Bytes) (lines : List Bytes) (inventory : Bytes) (w : W)
      → Lacks b'%' (f line)
      → is_filled (f line) ≡ true
      → (w' : W) × ((expand_lines te cfg lib kv_params false (line ∷ lines) inventory w)
          ≡ expand_lines te cfg lib kv_params
              (not (ends_line 0 (f line)))
              lines
              (inventory ++ f line)
              w')
  unfolding expand_lines
  expand_line line lines inventory w plain filled =
      let w1 = (lib.te_expand_kvpairs line kv_params w).1 in
      (
        (lib.te_string_append_format inventory (f line) w1).2,
        rw
            (
              expands line w,
              ends_line-filled (lib.before_block w1) (f line) filled,
              append_line_lem inventory (f line) w1 plain,
            )
            refl,
      )

  -- Where a format without conversions is appended as it is, no request for memory fails and every line
  -- can be expanded, and the expanded lines, which the source takes as formats, hold no percent sign and
  -- are not empty: the template gives its expanded lines one after the other if each of them but the
  -- last ends in a newline (and the line before them did), and TE_EFAIL otherwise.
  pub expand_lines-joined :
      (lines : List Bytes) (broken : Bool) (inventory : Bytes) (w : W)
      → AllPlain f lines
      → (expand_lines te cfg lib kv_params broken lines inventory w).0
        ≡ (if are_whole f broken lines then ok (inventory ++ joined f lines) else err efail)
  unfolding expand_lines
  expand_lines-joined [] broken inventory w h = ap ok (sym (append-nil inventory))
  expand_lines-joined (line ∷ lines) true inventory w h = refl
  expand_lines-joined (line ∷ lines) false inventory w h =
      let (w', e) = expand_line line lines inventory w h.0.0 h.0.1 in
      rw
        (
          ap (λ r. r.0) e,
          expand_lines-joined lines (not (ends_line 0 (f line))) (inventory ++ f line) w' h.1,
          append_assoc inventory (f line) (joined f lines),
        )
        refl
