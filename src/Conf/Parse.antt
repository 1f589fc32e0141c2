-- ===== src/Conf/Parse.antt =====
-- block-ts/lib/tsapi-conf.c: configuration strings of the form Section-Key=Value.
use cns_virtblk_ts.Base.{
  ℕ, ◌+◌, ◌-◌, ◌≡◌, refl, Option, none, some, List, [], ◌∷◌, ◌++◌, length, take, drop, arith, ◌==◌,
  true, false, All, if◌then◌else◌, length-append, take-append, drop_behind, append-nil,
  append_assoc, Bool-cases, inl, inr,
}
use cns_virtblk_ts.Base.Text.{Bytes, strstr, has_prefix, Lacks, strstr-append, strstr-none}
use cns_virtblk_ts.Base.Exec.{Result, ok, err, efail, Exec, Status, pure, raise, ◌>>=◌, ◌>>◌}
use cns_virtblk_ts.Te.{TeLib, IsDocumented, IsPlentiful}
use cns_virtblk_ts.Conf.{Kv, copy_string}

module _ {W : Type 0} (te : TeLib W) where
  open te use {te_string_append, te_vec_append, after_block, after_arg, te_string_cut, strcmp_start}

  -- argv[i] + strlen(prefix) + 1: for an argument that is the prefix, this is behind its terminator.
  abbrev pub behind_prefix : Bytes → Bytes → W → Bytes
  behind_prefix prefix arg w =
      if length arg == length prefix then after_arg arg w else drop (length prefix + 1) arg

  unfoldable pub opts_read_loop : List Bytes → Bytes → List Bytes → Exec W (List Bytes)
  opts_read_loop [] prefix vec = pure vec
  opts_read_loop (arg ∷ argv) prefix vec =
      if strcmp_start prefix arg
      then (do
        opt ← (λ w. (ok (behind_prefix prefix arg w), w))
        te_vec_append
        opts_read_loop argv prefix (vec ++ opt ∷ []))
      else opts_read_loop argv prefix vec

  unfoldable pub nonempty : List Bytes → Exec W (List Bytes)
  nonempty [] = raise efail
  nonempty (s ∷ vec) = pure (s ∷ vec)

  -- The strings of `argv` behind the prefix and one more byte, in front of which `vec` stands.
  unfoldable pub tsapi_conf_opts_read : List Bytes → Bytes → List Bytes → Exec W (List Bytes)
  tsapi_conf_opts_read argv prefix vec = do vec' ← opts_read_loop argv prefix vec; nonempty vec'

  cut_tail : Bytes → ℕ → Status × Bytes × W → Result Bytes × W
  cut_tail str i (ok _, name, w) = (ok (te_string_cut name (length str - i)), w)
  cut_tail str i (err e, name, w) = (err e, w)

  section_name_at : Bytes → Option ℕ → Bytes → Exec W Bytes
  section_name_at str none name w = (err efail, w)
  section_name_at str (some i) name w = cut_tail str i (te_string_append name str w)

  -- The string that `section_name` holds at first is the third argument.
  unfoldable pub extract_section_name : Bytes → Bytes → Bytes → Exec W Bytes
  unfolding section_name_at cut_tail
  extract_section_name str delim name = section_name_at str (strstr str delim) name

  key_value_at : Bytes → Option ℕ → Exec W Kv
  key_value_at str none w = (err efail, w)
  key_value_at str (some i) w =
      (do
        value ← copy_string te (drop (i + 1) str)
        pure (record { key = take i str ++ after_block w; value = value }))
        w

  -- The block of the key has no room for a terminator, so the key as a C string goes on with the
  -- bytes behind its block.
  unfoldable pub extract_key_value : Bytes → Bytes → Exec W Kv
  unfolding key_value_at copy_string
  extract_key_value str delim = key_value_at str (strstr str delim)

  unfoldable pub tsapi_conf_parse_string : Bytes → Bytes → Exec W (Bytes × Kv)
  tsapi_conf_parse_string str name = do
    name' ← extract_section_name str (b'-' ∷ []) name
    kv ← extract_key_value (drop (length name' + 1) str) (b'=' ∷ [])
    pure (name', kv)

-- Every argument with the prefix is longer than it.
abbrev pub AllLonger : Bytes → List Bytes → Type 0
AllLonger prefix argv =
    All (λ arg. has_prefix prefix arg ≡ true → (length arg == length prefix) ≡ false) argv

-- The arguments with the prefix, without it and the byte behind it.
abbrev pub selected : Bytes → List Bytes → List Bytes
selected prefix [] = []
selected prefix (arg ∷ argv) =
    if has_prefix prefix arg
    then drop (length prefix + 1) arg ∷ selected prefix argv
    else selected prefix argv

abbrev pub some_or_efail : List Bytes → Result (List Bytes)
some_or_efail [] = err efail
some_or_efail (s ∷ l) = ok (s ∷ l)

module _ {W : Type 0} (te : TeLib W) (doc : IsDocumented te) (p : IsPlentiful te) where
  cut_tail-append :
      (c : ℕ) (a b : Bytes) (r : Status × Bytes × W)
      → r.0 ≡ ok tt
      → r.1 ≡ a ++ c ∷ b
      → (cut_tail te (a ++ c ∷ b) (length a) r).0 ≡ ok a
  unfolding cut_tail
  cut_tail-append c a b (ok _, name, w) h e =
      let n : length (a ++ c ∷ b) - length a ≡ length (c ∷ b) =
        omega (arith, length-append a (c ∷ b)) in
      rw (e, n) (rw (doc.cut_lem a (c ∷ b)) refl)
  cut_tail-append c a b (err x, name, w) h e = cc

  pub extract_section_name-append :
      (c : ℕ) (a b : Bytes) (w : W)
      → Lacks c a
      → (extract_section_name te (a ++ c ∷ b) (c ∷ []) [] w).0 ≡ ok a
  unfolding extract_section_name
  extract_section_name-append c a b w h =
      let done = p.appends [] (a ++ c ∷ b) w in
      rw (strstr-append c a b h) (
        cut_tail-append c a b (te.te_string_append [] (a ++ c ∷ b) w) done
          (doc.append_ok [] (a ++ c ∷ b) w done))

  key_value_at-append :
      (c : ℕ) (a b : Bytes) (w : W)
      → (key_value_at te (a ++ c ∷ b) (some (length a)) w).0
        ≡ ok (record { key = a ++ te.after_block w; value = b })
  unfolding key_value_at copy_string
  key_value_at-append c a b w = rw (p.copies w, take-append a (c ∷ b), drop_behind a b c) refl

  pub extract_key_value-append :
      (c : ℕ) (a b : Bytes) (w : W)
      → Lacks c a
      → (extract_key_value te (a ++ c ∷ b) (c ∷ []) w).0
        ≡ ok (record { key = a ++ te.after_block w; value = b })
  unfolding extract_key_value
  extract_key_value-append c a b w h = rw (strstr-append c a b h) (key_value_at-append c a b w)

  -- The state when the section of an option has been copied.
  abbrev pub after_name : Bytes → Bytes → Bytes → W → W
  after_name section key value w =
      (extract_section_name te (section ++ b'-' ∷ (key ++ b'=' ∷ value)) (b'-' ∷ []) [] w).1

  extract_section_name-none :
      (c : ℕ) (str : Bytes) (w : W)
      → Lacks c str
      → (extract_section_name te str (c ∷ []) [] w).0 ≡ err efail
  unfolding extract_section_name
  extract_section_name-none c str w h = rw (strstr-none c str h)

  extract_key_value-none :
      (c : ℕ) (str : Bytes) (w : W)
      → Lacks c str
      → (extract_key_value te str (c ∷ []) w).0 ≡ err efail
  unfolding extract_key_value
  extract_key_value-none c str w h = rw (strstr-none c str h)

  -- Where the library works as documented and no request for memory fails: a string
  -- Section-Key=Value whose section has no dash and whose key has no equals sign is split into these
  -- three parts, whatever the value holds; the key, which the source does not terminate, goes on with
  -- what lies behind its block of memory.
  pub parse_string-append :
      (section key value : Bytes) (w : W)
      → Lacks b'-' section
      → Lacks b'=' key
      → (tsapi_conf_parse_string te (section ++ b'-' ∷ (key ++ b'=' ∷ value)) [] w).0
        ≡ ok (
          section,
          record { key = key ++ te.after_block (after_name section key value w); value = value },
        )
  unfolding tsapi_conf_parse_string
  parse_string-append section key value w hs hk =
      let rest : Bytes = key ++ b'=' ∷ value in
      let split : drop (length section + 1) (section ++ b'-' ∷ rest) ≡ rest =
        drop_behind section rest b'-' in
      rw
        (
          extract_section_name-append b'-' section rest w hs,
          split,
          extract_key_value-append b'=' key value
              (extract_section_name te (section ++ b'-' ∷ rest) (b'-' ∷ []) [] w).1 hk,
        )
        refl

  -- Where the library works as documented and no request for memory fails: without a dash, or
  -- without an equals sign behind the first dash, the string is refused with TE_EFAIL.
  parse_string-none :
      (section rest : Bytes) (w : W)
      → Lacks b'-' section
      → Lacks b'=' rest
      → ((tsapi_conf_parse_string te section [] w).0 ≡ err efail)
        × ((tsapi_conf_parse_string te (section ++ b'-' ∷ rest) [] w).0 ≡ err efail)
  unfolding tsapi_conf_parse_string
  parse_string-none section rest w hs hr =
      let split : drop (length section + 1) (section ++ b'-' ∷ rest) ≡ rest =
        drop_behind section rest b'-' in
      (
        rw (extract_section_name-none b'-' section w hs) refl,
        rw
            (
              extract_section_name-append b'-' section rest w hs,
              split,
              extract_key_value-none b'=' rest
                  (extract_section_name te (section ++ b'-' ∷ rest) (b'-' ∷ []) [] w).1 hr,
            )
            refl,
      )

  opts_read_loop-selected :
      (argv : List Bytes) (prefix : Bytes) (vec : List Bytes) (w : W)
      → AllLonger prefix argv
      → (opts_read_loop te argv prefix vec w).0 ≡ ok (vec ++ selected prefix argv)
  unfolding opts_read_loop
  opts_read_loop-selected [] prefix vec w h = rw (append-nil vec)
  opts_read_loop-selected (arg ∷ argv) prefix vec w h =
      let rest : Bytes = drop (length prefix + 1) arg in
      elim (Bool-cases (has_prefix prefix arg)) [
        | inl e ↦
            rw (doc.start_lem prefix arg, e, h.0 e, p.grows w)
              (rw (← append_assoc vec (rest ∷ []) (selected prefix argv))
                (opts_read_loop-selected argv prefix (vec ++ rest ∷ []) (te.te_vec_append w).1 h.1))
        | inr e ↦ rw (doc.start_lem prefix arg, e) (opts_read_loop-selected argv prefix vec w h.1)
      ]

  nonempty-some_or_efail : (l : List Bytes) (w : W) → (nonempty te l w).0 ≡ some_or_efail l
  unfolding nonempty
  nonempty-some_or_efail [] w = refl
  nonempty-some_or_efail (s ∷ l) w = refl

  -- Where the library works as documented, no request for memory fails and no argument is the prefix
  -- alone, behind which the source reads: the options read are the arguments with the prefix, in
  -- their order and without the prefix and the byte behind it; without one the result is TE_EFAIL.
  pub opts_read-selected :
      (argv : List Bytes) (prefix : Bytes) (w : W)
      → AllLonger prefix argv
      → (tsapi_conf_opts_read te argv prefix [] w).0 ≡ some_or_efail (selected prefix argv)
  unfolding tsapi_conf_opts_read
  opts_read-selected argv prefix w h =
      rw (opts_read_loop-selected argv prefix [] w h)
        (nonempty-some_or_efail (selected prefix argv) (opts_read_loop te argv prefix [] w).1)
