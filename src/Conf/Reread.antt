-- ===== src/Conf/Reread.antt =====
-- Reading back the text of a configuration. The writer puts a space on each side of the delimiter
-- and the reader splits at the first space, so the values come back with the delimiter in front.
use cns_virtblk_ts.Base.{
  ◌-◌, ◌≡◌, refl, sym, ap, ◌∙◌, true, none, some, List, [], ◌∷◌, ◌++◌, map, All, take, arith,
  append-nil, append_assoc,
}
use cns_virtblk_ts.Base.Text.{Bytes, Lacks, strcmp_refl}
use cns_virtblk_ts.Base.Exec.{Result, ok, err}
use cns_virtblk_ts.Te.{TeLib, IsDocumented, IsPlentiful, starts_black, ends_black}
use cns_virtblk_ts.Conf.{
  Kv, Section, Conf, tsapi_conf_section_get, push_item, tsapi_conf_create_section,
  tsapi_conf_append,
}
use cns_virtblk_ts.Conf.Sections.{add_item, IsDistinct, strcmp-sym, get-append, append_outcome}
use cns_virtblk_ts.Conf.Flush.{print}
use cns_virtblk_ts.Conf.Parse.{
  extract_section_name, extract_key_value, extract_section_name-append, extract_key_value-append,
}
use cns_virtblk_ts.Conf.Lines.{
  header_text, item_text, item_lines, conf_lines, HasLines, read_all-print,
}
use cns_virtblk_ts.Conf.Read.{
  fgets_lines, path_max, Reader, created, named, appended, read_line, read_lines,
}

abbrev pub reread_item : Bytes → Kv → Kv
reread_item d kv = record { key = kv.key; value = d ++ 32 ∷ kv.value }

abbrev pub reread_section : Section → Section
reread_section s = record {
  name = s.name;
  delimiter = 32 ∷ [];
  items = map (reread_item s.delimiter) s.items;
}

-- Items with texts behind their keys, and the same for the sections of a configuration.
abbrev pub stretched_items : List Bytes → List Kv → List Kv
stretched_items [] kvs = kvs
stretched_items (g ∷ gs) [] = []
stretched_items (g ∷ gs) (kv ∷ kvs) = record kv { key = kv.key ++ g } ∷ stretched_items gs kvs

abbrev pub stretched : List (List Bytes) → Conf → Conf
stretched [] conf = conf
stretched (gs ∷ gss) [] = []
stretched (gs ∷ gss) (s ∷ conf) =
    record s { items = stretched_items gs s.items } ∷ stretched gss conf

abbrev pub reread : Conf → Conf
reread = map reread_section

-- A key that the reader finds, free of spaces and unlike a header; and a line that
-- te_str_strip_spaces() strips of its newline only.
pub record IsReadable (d : Bytes) (kv : Kv) : Type 0 where
  pub no_space : Lacks 32 kv.key
  pub no_header : Lacks b'[' (take 1 kv.key)
  pub starts : starts_black (item_text d kv) ≡ true
  pub ends : ends_black (item_text d kv) ≡ true

abbrev pub AllReadable : Conf → Type 0
AllReadable = All (λ s. Lacks b']' s.name × All (IsReadable s.delimiter) s.items)

abbrev pub IsFresh : Conf → Conf → Type 0
IsFresh done = All (λ s. tsapi_conf_section_get done s.name ≡ none)

IsFresh-nil : (conf : Conf) → IsFresh [] conf
IsFresh-nil [] = tt
IsFresh-nil (s ∷ conf) = (unfold tsapi_conf_section_get in refl, IsFresh-nil conf)

-- The last of the sections takes an item, if no other has its name.
push_item-last :
    (done : Conf) (s : Section) (kv : Kv)
    → tsapi_conf_section_get done s.name ≡ none
    → push_item (done ++ s ∷ []) s.name kv ≡ done ++ add_item kv s ∷ []
unfolding push_item tsapi_conf_section_get
push_item-last [] s kv h = ground (arith, strcmp_refl s.name)
push_item-last (t ∷ done) s kv h = ground (arith, push_item-last done s kv)

get-last :
    (done : Conf) (s : Section)
    → tsapi_conf_section_get done s.name ≡ none
    → tsapi_conf_section_get (done ++ s ∷ []) s.name ≡ some s
get-last done s h =
    rw (get-append done (s ∷ []) s.name, h)
      (unfold tsapi_conf_section_get in rw (strcmp_refl s.name))

-- Sections that are fresh for `done` and are not named like `s` are fresh with `s` there.
IsFresh-append :
    (done conf : Conf) (s : Section)
    → IsFresh done conf
    → tsapi_conf_section_get conf s.name ≡ none
    → IsFresh (done ++ s ∷ []) conf
unfolding tsapi_conf_section_get
IsFresh-append done [] s h n = tt
IsFresh-append done (t ∷ conf) s h n =
    let e = strcmp-sym s.name t.name in
    (
      rw (get-append done (s ∷ []) t.name, h.0) (ground arith),
      IsFresh-append done conf s h.1 (ground arith),
    )

-- The first byte of a line is the first byte of its key, or a space.
first-Lacks :
    (key rest end : Bytes)
    → Lacks b'[' (take 1 key)
    → Lacks b'[' (take 1 ((key ++ 32 ∷ rest) ++ end))
first-Lacks [] rest end h = omega arith
first-Lacks (c ∷ key) rest end h = h

module _ {W : Type 0} (te : TeLib W) (doc : IsDocumented te) (p : IsPlentiful te) where
  -- What a step of the reader leaves, in some state of the world.
  abbrev Reads : Reader × W → Bytes → Conf → Type 0
  Reads r name conf = r.0 ≡ record { rc = ok tt; name = name; conf = conf }

  created-Reads :
      (name : Bytes) (conf conf' : Conf) (r : Result Conf × W)
      → r.0 ≡ ok conf'
      → Reads (created te name conf r) name conf'
  unfolding created
  created-Reads name conf conf' (ok c, w) h = ground arith
  created-Reads name conf conf' (err e, w) h = cc

  append-Reads :
      (done : Conf) (s : Section) (kv : Kv) (r : Result Kv × W)
      → tsapi_conf_section_get done s.name ≡ none
      → r.0 ≡ ok kv
      → Reads (appended te s.name (done ++ s ∷ []) r) s.name (done ++ add_item kv s ∷ [])
  unfolding appended
  append-Reads done s kv (ok kv', w) n h =
      let conf : Conf = done ++ s ∷ [] in
      let same : kv' ≡ kv = ground arith in
      let pushed =
        append_outcome te p conf s.name kv'.key kv'.value w
        ∙ rw (get-last done s n) (ap ok (push_item-last done s kv' n)) in
      rw (← same) (
        created-Reads s.name conf (done ++ add_item kv' s ∷ [])
          (tsapi_conf_append te (some conf) s.name kv'.key kv'.value w) pushed)
  append-Reads done s kv (err e, w) n h = cc

  header-Reads :
      (done : Conf) (name : Bytes) (r : Result Bytes × W)
      → r.0 ≡ ok name
      → Reads
          (named te done r)
          name
          (done ++ record { name = name; delimiter = 32 ∷ []; items = [] } ∷ [])
  unfolding named tsapi_conf_create_section
  header-Reads done name (ok n, w) h =
      let same : n ≡ name = ground arith in
      rw (← same) (
        created-Reads n done (done ++ record { name = n; delimiter = 32 ∷ []; items = [] } ∷ [])
          (tsapi_conf_create_section te done n (32 ∷ []) w) (rw (p.grows w) refl))
  header-Reads done name (err e, w) h = cc

  -- A line that is read without an error.
  read_lines-cons :
      (name name' : Bytes) (conf conf' : Conf) (line : Bytes) (lines : List Bytes) (w : W)
      → Reads (read_line te name conf line w) name' conf'
      → read_lines te name conf (line ∷ lines) w
        ≡ read_lines te name' conf' lines (read_line te name conf line w).1
  unfolding read_lines
  read_lines-cons name name' conf conf' line lines w h = ground arith

  -- A line that is no header goes to the section that was named last.
  read_line-appended :
      (name : Bytes) (conf : Conf) (line : Bytes) (w : W)
      → Lacks b'[' (take 1 line)
      → read_line te name conf line w
        ≡ appended te name conf (extract_key_value te (te.te_str_strip_spaces line) (32 ∷ []) w)
  unfolding read_line
  read_line-appended name conf [] w h = refl
  read_line-appended name conf (c ∷ buf) w h = ground arith

  read_line-item :
      (done : Conf) (s : Section) (d : Bytes) (kv : Kv) (w : W)
      → tsapi_conf_section_get done s.name ≡ none
      → IsReadable d kv
      → Reads
          (read_line te s.name (done ++ s ∷ []) (item_text d kv ++ 10 ∷ []) w)
          s.name
          (done ++ add_item (reread_item d (record kv { key = kv.key ++ te.after_block w })) s ∷ [])
  read_line-item done s d kv w n h =
      let line : Bytes = item_text d kv ++ 10 ∷ [] in
      let rest : Bytes = d ++ 32 ∷ kv.value in
      rw
        (read_line-appended s.name (done ++ s ∷ []) line w
          (first-Lacks kv.key rest (10 ∷ []) h.no_header))
        (append-Reads done s (reread_item d (record kv { key = kv.key ++ te.after_block w }))
          (extract_key_value te (te.te_str_strip_spaces line) (32 ∷ []) w) n
          (rw (doc.strip_lem (item_text d kv) h.starts h.ends)
            (extract_key_value-append te doc p 32 kv.key rest w h.no_space)))

  read_line-header :
      (name : Bytes) (done : Conf) (s : Section) (w : W)
      → Lacks b']' s.name
      → Reads
          (read_line te name done (header_text s ++ 10 ∷ []) w)
          s.name
          (done ++ record { name = s.name; delimiter = 32 ∷ []; items = [] } ∷ [])
  unfolding read_line
  read_line-header name done s w h =
      let e : (s.name ++ b']' ∷ []) ++ 10 ∷ [] ≡ s.name ++ b']' ∷ 10 ∷ [] =
        append_assoc s.name (b']' ∷ []) (10 ∷ []) in
      header-Reads done s.name
        (extract_section_name te ((s.name ++ b']' ∷ []) ++ 10 ∷ []) (b']' ∷ []) [] w)
        (rw e (extract_section_name-append te doc p b']' s.name (10 ∷ []) w h))

  read_lines-items :
      (done : Conf) (s : Section) (d : Bytes) (kvs : List Kv) (lines : List Bytes) (w : W)
      → tsapi_conf_section_get done s.name ≡ none
      → All (IsReadable d) kvs
      → (w' : W) × (gs : List Bytes) × (read_lines te s.name
            (done ++ s ∷ [])
            (item_lines d kvs ++ lines)
            w
          ≡ read_lines te s.name
              (done
                ++ record s { items = s.items ++ map (reread_item d) (stretched_items gs kvs) }
                  ∷ [])
              lines
              w')
  read_lines-items done s d [] lines w n h = (w, [], rw (append-nil s.items) refl)
  read_lines-items done s d (kv ∷ kvs) lines w n h =
      let line : Bytes = item_text d kv ++ 10 ∷ [] in
      let g = te.after_block w in
      let x : Kv = reread_item d (record kv { key = kv.key ++ g }) in
      let conf : Conf = done ++ s ∷ [] in
      let step =
        read_lines-cons s.name s.name conf (done ++ add_item x s ∷ []) line
          (item_lines d kvs ++ lines) w (read_line-item done s d kv w n h.0) in
      let (w', gs, e) =
        read_lines-items done (add_item x s) d kvs lines (read_line te s.name conf line w).1 n
          h.1 in
      let more = map (reread_item d) (stretched_items gs kvs) in
      (w', g ∷ gs, step ∙ (rw (append_assoc s.items (x ∷ []) more) at e))

  -- Behind sections with other names, the lines of a configuration are read to its sections.
  read_lines-Reads :
      (done conf : Conf) (name : Bytes) (w : W)
      → IsFresh done conf
      → IsDistinct conf
      → AllReadable conf
      → let r = read_lines te name done (conf_lines conf) w in
        (r.0.rc ≡ ok tt)
        × (gss : List (List Bytes)) × (r.0.conf ≡ done ++ reread (stretched gss conf))
  read_lines-Reads done [] name w f u h = unfold read_lines in (refl, [], sym (append-nil done))
  read_lines-Reads done (s ∷ conf) name w f u h =
      let line : Bytes = header_text s ++ 10 ∷ [] in
      let new : Section = record { name = s.name; delimiter = 32 ∷ []; items = [] } in
      let step =
        read_lines-cons name s.name done (done ++ new ∷ []) line
          (item_lines s.delimiter s.items ++ conf_lines conf) w
          (read_line-header name done s w h.0.0) in
      let (w', gs, e) =
        read_lines-items done new s.delimiter s.items (conf_lines conf)
          (read_line te name done line w).1 f.0 h.0.1 in
      let s' : Section = reread_section (record s { items = stretched_items gs s.items }) in
      let (rc, gss, sections) =
        read_lines-Reads (done ++ s' ∷ []) conf s.name w' (IsFresh-append done conf s' f.1 u.0) u.1
          h.1 in
      rw (step ∙ e)
        (rc, gs ∷ gss, sections ∙ append_assoc done (s' ∷ []) (reread (stretched gss conf)))

  -- Reading the text that a configuration is flushed to gives its sections again, in their order, with
  -- the delimiter replaced by a space, each value preceded by the old delimiter and a space, and each key
  -- followed by what lies behind its block. It holds
  -- where the lines fit the buffer, the names differ, and keys and values have no byte that the format
  -- cannot carry.
  pub read_lines-print :
      (conf : Conf) (w : W)
      → HasLines conf
      → IsDistinct conf
      → AllReadable conf
      → let r = read_lines te [] [] (fgets_lines path_max (path_max - 1) [] (print conf)) w in
        (r.0.rc ≡ ok tt) × (gss : List (List Bytes)) × (r.0.conf ≡ reread (stretched gss conf))
  read_lines-print conf w fit u h =
      rw (read_all-print conf fit) (read_lines-Reads [] conf [] w (IsFresh-nil conf) u h)
