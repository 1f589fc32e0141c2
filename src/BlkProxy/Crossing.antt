-- ===== src/BlkProxy/Crossing.antt =====
-- When the MI log says that the threads of the reactor and of the device cross.
use Prim.Native.Nat.{bit_and, bit_or, min, max}
use cns_virtblk_ts.Base.{ℕ, ◌≡◌, ◌∙◌, some, arith}
use cns_virtblk_ts.Base.Text.{codes}
use cns_virtblk_ts.Base.Bits.{bit, bit-and, bit-or, bit-zero}
use cns_virtblk_ts.Base.Exec.{ok}
use cns_virtblk_ts.BlkProxy.{Params}
use cns_virtblk_ts.BlkProxy.Masks.{ReportLib, crossed_mask, parsed_mask}

module _ {W : Type 0} (lib : ReportLib W) where
  -- With all three masks there, a CPU is in the crossed mask exactly when it is in the mask of the
  -- reactor (Q) and in the mask of the writer (W) or of the reader (R).
  pub crossed_mask-bit :
      (masks : Params) (w r q : ℕ)
      → parsed_mask lib masks (codes "W") ≡ some (ok w)
      → parsed_mask lib masks (codes "R") ≡ some (ok r)
      → parsed_mask lib masks (codes "Q") ≡ some (ok q)
      → (m : ℕ) × (crossed_mask lib masks ≡ ok m)
        × ((i : ℕ) → bit m i ≡ min (max (bit w i) (bit r i)) (bit q i))
  unfolding crossed_mask
  crossed_mask-bit masks w r q hw hr hq = (
    bit_and (bit_or (bit_or 0 w) r) q,
    rw (hw, hr, hq),
    λ i.
        bit-and i (bit_or (bit_or 0 w) r) q
        ∙ omega (arith, bit-or i (bit_or 0 w) r, bit-or i 0 w, bit-zero i),
  )
