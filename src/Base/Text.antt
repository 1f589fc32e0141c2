-- ===== src/Base/Text.antt =====
-- C strings as lists of bytes without the terminator, and what the sources use of <string.h>.
use Prim.Native.Char.{code}
use Prim.Native.Nat.{ℕ, suc}
use Prim.Native.String.{String}
use mathlib.Core.Path.{◌≡◌, refl}
use mathlib.Core.Logic.{◌≢◌}
use mathlib.Core.Bool.{Bool, true, false, ◌&&◌}
use mathlib.Core.Option.{Option, none, some}
use mathlib.Core.Option
use mathlib.Core.List.{List, [], ◌∷◌, ◌++◌}
use native.Mathlib.Omega.{arith}
use cns_virtblk_ts.Base.Tests.{◌==◌, if◌then◌else◌}
use cns_virtblk_ts.Base.Lists.{length, All}

abbrev pub Bytes : Type 0
Bytes = List ℕ

abbrev pub codes : String → Bytes
codes String.[] = []
codes (String.◌∷◌ c s) = code c ∷ codes s

-- strcmp(s, t) == 0
unfoldable pub strcmp : Bytes → Bytes → Bool
strcmp [] [] = true
strcmp (a ∷ s) (b ∷ t) = (a == b) && strcmp s t
strcmp _ _ = false

pub strcmp→eq : (s t : Bytes) → strcmp s t ≡ true → s ≡ t
unfolding strcmp
strcmp→eq [] [] h = refl
strcmp→eq (a ∷ s) (b ∷ t) h = ground (arith, strcmp→eq s t)
strcmp→eq [] (b ∷ t) h = cc
strcmp→eq (a ∷ s) [] h = cc

pub strcmp_refl : (s : Bytes) → strcmp s s ≡ true
unfolding strcmp
strcmp_refl [] = refl
strcmp_refl (a ∷ s) = ground (arith, strcmp_refl s)

-- `s` begins with `p`.
unfoldable pub has_prefix : Bytes → Bytes → Bool
has_prefix [] s = true
has_prefix (a ∷ p) [] = false
has_prefix (a ∷ p) (b ∷ s) = (a == b) && has_prefix p s

-- The offset of strstr(s, pat) in `s`; `none` is NULL.
unfoldable pub strstr : Bytes → Bytes → Option ℕ
unfolding has_prefix
strstr [] pat = if has_prefix pat [] then some 0 else none
strstr (c ∷ s) pat = if has_prefix pat (c ∷ s) then some 0 else Option.map suc (strstr s pat)

-- No byte of the text is `c`.
abbrev pub Lacks : ℕ → Bytes → Type 0
Lacks c = All (λ b. b ≢ c)

-- The first occurrence of a byte is behind a part that lacks it.
pub strstr-append :
    (c : ℕ) (a b : Bytes) → Lacks c a → strstr (a ++ c ∷ b) (c ∷ []) ≡ some (length a)
unfolding strstr
strstr-append c [] b h = ground arith
strstr-append c (x ∷ a) b h = ground (arith, strstr-append c a b h.1)

pub strstr-none : (c : ℕ) (s : Bytes) → Lacks c s → strstr s (c ∷ []) ≡ none
unfolding strstr
strstr-none c [] h = refl
strstr-none c (x ∷ s) h = ground (arith, strstr-none c s h.1)

-- In front of the tokens that follow; an empty token is none.
abbrev pub emit : Bytes → List Bytes → List Bytes
emit [] toks = toks
emit (c ∷ tok) toks = (c ∷ tok) ∷ toks

-- The tokens of strtok_r(s, sep): runs of other bytes. `tok` is what has been read of the current one.
unfoldable pub tokens_by : ℕ → Bytes → Bytes → List Bytes
tokens_by sep tok [] = emit tok []
tokens_by sep tok (c ∷ s) =
    let next = tokens_by sep [] s in
    let more = tokens_by sep (tok ++ c ∷ []) s in if c == sep then emit tok next else more
