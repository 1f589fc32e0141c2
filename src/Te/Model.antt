-- ===== src/Te/Model.antt =====
-- A concrete library, to run the model on: memory never fails, and the files are a list of paths
-- with their contents.
use cns_virtblk_ts.Base.{
  ◌≡◌, refl, arith, length-append, take-append, ℕ, ◌-◌, true, some, List, [], ◌∷◌, ◌++◌, length,
  take, if◌then◌else◌,
}
use cns_virtblk_ts.Base.Text.{Bytes, strcmp, has_prefix, codes}
use cns_virtblk_ts.Base.Exec.{Result, ok, err, enoent}
use cns_virtblk_ts.Te.{TeLib, IsDocumented, IsPlentiful, is_space, starts_black, ends_black}

abbrev pub Files : Type 0
Files = List (Bytes × Bytes)

abbrev find : Bytes → Files → Result Bytes
find p [] = err enoent
find p ((q, t) ∷ fs) = if strcmp p q then ok t else find p fs

abbrev strip_left : Bytes → Bytes
strip_left [] = []
strip_left (c ∷ s) = if is_space c then strip_left s else c ∷ s

-- In front of what is left of the rest of the text.
abbrev keep_black : ℕ → Bytes → Bytes
keep_black c [] = if is_space c then [] else c ∷ []
keep_black c (d ∷ s) = c ∷ d ∷ s

abbrev strip_right : Bytes → Bytes
strip_right [] = []
strip_right (c ∷ s) = keep_black c (strip_right s)

-- Rpc descriptors are not told apart: the text goes to the file opened last.
abbrev pub files : TeLib Files
files = record {
  te_string_append = λ s t w. (ok tt, s ++ t, w);
  te_vec_append = λ w. (ok tt, w);
  strdup = λ w. (true, w);
  after_block = λ w. [];
  after_arg = λ arg w. [];
  te_string_cut = λ s n. take (length s - n) s;
  strcmp_start = has_prefix;
  te_str_strip_spaces = λ s. strip_right (strip_left s);
  getenv = λ v. some (codes "/tmp");
  rcf_ta_get_file = λ ta remote local w. elim (find remote w) [
    | ok t ↦ (ok tt, (local, t) ∷ w)
    | err e ↦ (err e, w)
  ];
  fopen_read = λ p w. (find p w, w);
  fopen_write = λ p w. (ok tt, (p, []) ∷ w);
  fwrite = λ p t w. (ok tt, (p, t) ∷ w);
  rpc_open = λ p w. (some 3, (p, []) ∷ w);
  rpc_write_and_close = λ fd t w. (length t, elim w [ [] ↦ [] | f ∷ fs ↦ (f.0, t) ∷ fs ]);
  rpc_errno = λ w. ok tt;
}

strip_left-black : (s t : Bytes) → starts_black s ≡ true → strip_left (s ++ t) ≡ s ++ t
strip_left-black [] t h = cc
strip_left-black (c ∷ s) t h = ground arith

strip_right-black : (s : Bytes) → ends_black s ≡ true → strip_right (s ++ 10 ∷ []) ≡ s
strip_right-black [] h = cc
strip_right-black (c ∷ []) h = ground arith
strip_right-black (c ∷ d ∷ s) h = rw (strip_right-black (d ∷ s) h)

cut-append : (s t : Bytes) → take (length (s ++ t) - length t) (s ++ t) ≡ s
cut-append s t =
    let e : length (s ++ t) - length t ≡ length s = omega (arith, length-append s t) in
    rw e (take-append s t)

pub files-IsDocumented : IsDocumented files
files-IsDocumented = record {
  append_ok = λ s t w h. refl;
  cut_lem = cut-append;
  start_lem = λ p s. refl;
  strip_lem = λ s h k. rw (strip_left-black s (10 ∷ []) h) (strip_right-black s k);
}

pub files-IsPlentiful : IsPlentiful files
files-IsPlentiful = record { appends = λ s t w. refl; grows = λ w. refl; copies = λ w. refl }
