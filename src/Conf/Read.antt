-- ===== src/Conf/Read.antt =====
-- block-ts/lib/tsapi-conf.c: tsapi_conf_read_from_file(), which parses the lines of a file.
use cns_virtblk_ts.Base.{ℕ, ◌-◌, ◌==◌, some, List, [], ◌∷◌, ◌++◌, if◌then◌else◌}
use cns_virtblk_ts.Base.Text.{Bytes, codes}
use cns_virtblk_ts.Base.Exec.{Result, ok, err, Status}
use cns_virtblk_ts.Te.{TeLib}
use cns_virtblk_ts.Conf.{Conf, Kv, tsapi_conf_create_section, tsapi_conf_append, flush_conf_to_str}
use cns_virtblk_ts.Conf.Parse.{extract_section_name, extract_key_value}

-- The strings that fgets(buf, size, f) gives one after the other: `line` is what has been read of the
-- current one, and `room` is how many bytes it may still take.
unfoldable pub fgets_lines : ℕ → ℕ → Bytes → Bytes → List Bytes
fgets_lines size room [] [] = []
fgets_lines size room (c ∷ line) [] = (c ∷ line) ∷ []
fgets_lines size room line (c ∷ s) =
    let next : List Bytes = fgets_lines size (size - 1) [] s in
    let more : List Bytes = fgets_lines size (room - 1) (line ++ c ∷ []) s in
    if c == 10 then (line ++ c ∷ []) ∷ next else if room == 1 then (line ++ c ∷ []) ∷ next else more

abbrev pub path_max : ℕ
path_max = 4096

-- The status of a reader, the section name that it holds and the configuration, which keeps what was
-- read before an error.
pub record Reader : Type 0 where
  pub rc : Status
  pub name : Bytes
  pub conf : Conf

module _ {W : Type 0} (te : TeLib W) where
  open te use {te_str_strip_spaces, rcf_ta_get_file, fopen_read}

  unfoldable pub created : Bytes → Conf → Result Conf × W → Reader × W
  created name conf (ok conf', w) = (record { rc = ok tt; name = name; conf = conf' }, w)
  created name conf (err e, w) = (record { rc = err e; name = name; conf = conf }, w)

  unfoldable pub named : Conf → Result Bytes × W → Reader × W
  named conf (ok name, w) = created name conf (tsapi_conf_create_section te conf name (32 ∷ []) w)
  named conf (err e, w) = (record { rc = err e; name = []; conf = conf }, w)

  unfoldable pub appended : Bytes → Conf → Result Kv × W → Reader × W
  appended name conf (ok kv, w) =
      created name conf (tsapi_conf_append te (some conf) name kv.key kv.value w)
  appended name conf (err e, w) = (record { rc = err e; name = name; conf = conf }, w)

  -- The body of the loop, for a line that is not empty.
  unfoldable pub read_line : Bytes → Conf → Bytes → W → Reader × W
  read_line name conf [] w =
      appended name conf (extract_key_value te (te_str_strip_spaces []) (32 ∷ []) w)
  read_line name conf (c ∷ buf) w =
      if c == b'['
      then named conf (extract_section_name te buf (b']' ∷ []) [] w)
      else appended name conf (extract_key_value te (te_str_strip_spaces (c ∷ buf)) (32 ∷ []) w)

  -- An error leaves the loop.
  unfoldable pub read_lines : Bytes → Conf → List Bytes → W → Reader × W
  read_lines name conf [] w = (record { rc = ok tt; name = name; conf = conf }, w)
  read_lines name conf (line ∷ lines) w =
      let (r, w') = read_line name conf line w in
      elim r.rc [ ok _ ↦ read_lines r.name r.conf lines w' | err e ↦ (r, w') ]

  -- The configuration is flushed into a string that nothing reads; its status is returned.
  unfoldable pub flushed : Reader × W → Status × Conf × W
  flushed (r, w) =
      let (rc, str, w') = flush_conf_to_str te r.conf [] w in
      elim r.rc [ ok _ ↦ (rc, r.conf, w') | err e ↦ (err e, r.conf, w) ]

  unfoldable pub read_text : Conf → Result Bytes × W → Status × Conf × W
  read_text conf (ok text, w) =
      flushed (read_lines [] conf (fgets_lines path_max (path_max - 1) [] text) w)
  read_text conf (err e, w) = (err e, conf, w)

  unfoldable pub fetched : Bytes → Conf → Status × W → Status × Conf × W
  fetched path conf (ok _, w) = read_text conf (fopen_read path w)
  fetched path conf (err e, w) = (err e, conf, w)

  -- `te_tmp` is the value of the environment variable TE_TMP. The status and the configuration.
  unfoldable pub tsapi_conf_read_from_file : Bytes → Bytes → Bytes → Conf → W → Status × Conf × W
  tsapi_conf_read_from_file te_tmp ta filename conf w =
      let path : Bytes = te_tmp ++ codes "/bp.conf" in
      fetched path conf (rcf_ta_get_file ta filename path w)
