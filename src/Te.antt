-- ===== src/Te.antt =====
-- The Test Environment library, which the suite calls and which is not part of the repository: its
-- operations are a record that the model takes as an argument, and what its documentation says of
-- them is a record of laws that the theorems take as a hypothesis.
pub mod Model
pub mod Files
use cns_virtblk_ts.Base.{
  ℕ, ◌+◌, ◌≡◌, Bool, true, false, not, ◌&&◌, ◌||◌, leb, ◌==◌, Option, List, [], ◌∷◌, ◌++◌, length,
}
use cns_virtblk_ts.Base.Text.{Bytes, has_prefix}
use cns_virtblk_ts.Base.Exec.{Result, ok, Status, Exec}

-- `W` is everything outside the program: the engine's memory, the agents and their files.
pub record TeLib (W : Type 0) : Type 0 where
  -- te_string_append(s, "%s", t): the status, and the string that it leaves
  pub te_string_append : Bytes → Bytes → W → Status × Bytes × W
  -- te_vec_append() and TE_VEC_APPEND(): whether there was room for the element
  pub te_vec_append : Exec W Unit
  -- whether strdup() found memory
  pub strdup : W → Bool × W
  -- the bytes that lie behind a block that was allocated, up to the next NUL
  pub after_block : W → Bytes
  -- the text that lies behind the terminator of an argument of the command line
  pub after_arg : Bytes → W → Bytes
  pub te_string_cut : Bytes → ℕ → Bytes
  -- strcmp_start(p, s) == 0
  pub strcmp_start : Bytes → Bytes → Bool
  pub te_str_strip_spaces : Bytes → Bytes
  pub getenv : Bytes → Option Bytes
  -- rcf_ta_get_file(ta, 0, remote, local)
  pub rcf_ta_get_file : Bytes → Bytes → Bytes → Exec W Unit
  -- fopen(path, "r") and the contents that are read from it
  pub fopen_read : Bytes → Exec W Bytes
  -- fopen(path, "w+"), then fwrite() of the text: each with the status that errno gives
  pub fopen_write : Bytes → Exec W Unit
  pub fwrite : Bytes → Bytes → Exec W Unit
  -- rpc_open() for writing, a descriptor or a negative number
  pub rpc_open : Bytes → W → Option ℕ × W
  -- rpc_write_and_close(): the value that it returns, as size_t
  pub rpc_write_and_close : ℕ → Bytes → W → ℕ × W
  pub rpc_errno : W → Status

-- isspace()
abbrev pub is_space : ℕ → Bool
is_space c = (c == 32) || (leb 9 c && leb c 13)

abbrev pub starts_black : Bytes → Bool
starts_black [] = false
starts_black (c ∷ s) = not (is_space c)

abbrev pub ends_black : Bytes → Bool
ends_black [] = false
ends_black (c ∷ []) = not (is_space c)
ends_black (c ∷ d ∷ s) = ends_black (d ∷ s)

pub record IsDocumented {W : Type 0} (te : TeLib W) : Type 0 where
  pub append_ok :
      (s t : Bytes) (w : W)
      → (te.te_string_append s t w).0 ≡ ok tt
      → (te.te_string_append s t w).1 ≡ s ++ t
  pub cut_lem : (s t : Bytes) → te.te_string_cut (s ++ t) (length t) ≡ s
  pub start_lem : (p s : Bytes) → te.strcmp_start p s ≡ has_prefix p s
  pub strip_lem :
      (s : Bytes)
      → starts_black s ≡ true
      → ends_black s ≡ true
      → te.te_str_strip_spaces (s ++ 10 ∷ []) ≡ s

-- No request for memory fails.
pub record IsPlentiful {W : Type 0} (te : TeLib W) : Type 0 where
  pub appends : (s t : Bytes) (w : W) → (te.te_string_append s t w).0 ≡ ok tt
  pub grows : (w : W) → (te.te_vec_append w).0 ≡ ok tt
  pub copies : (w : W) → (te.strdup w).0 ≡ true
