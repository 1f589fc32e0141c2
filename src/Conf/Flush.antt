-- ===== src/Conf/Flush.antt =====
-- Writing a configuration out as text.
use cns_virtblk_ts.Base.{◌≡◌, refl, sym, List, [], ◌∷◌, ◌++◌, append-nil, append_assoc, arith}
use cns_virtblk_ts.Base.Text.{Bytes}
use cns_virtblk_ts.Base.Exec.{Errno, ok, err, Status}
use cns_virtblk_ts.Te.{TeLib, IsDocumented, IsPlentiful}
use cns_virtblk_ts.Conf.{
  Kv, Section, Conf, header_line, item_line, flush_items, flush_sections, flush_conf_to_str,
}

abbrev pub print_items : Bytes → List Kv → Bytes
print_items d [] = []
print_items d (kv ∷ kvs) = item_line d kv ++ print_items d kvs

abbrev pub print_section : Section → Bytes
print_section s = header_line s ++ print_items s.delimiter s.items

-- The text of a configuration.
abbrev pub print : Conf → Bytes
print [] = []
print (s ∷ conf) = print_section s ++ print conf

-- The status and the string of a call.
abbrev pub Writes : {W : Type 0} → Status × Bytes × W → Bytes → Type 0
Writes r str = (r.0 ≡ ok tt) × (r.1 ≡ str)

module _ {W : Type 0} (te : TeLib W) (doc : IsDocumented te) (p : IsPlentiful te) where
  append-Writes : (s t : Bytes) (w : W) → Writes (te.te_string_append s t w) (s ++ t)
  append-Writes s t w = (p.appends s t w, doc.append_ok s t w (p.appends s t w))

  flush_items-Writes :
      (d : Bytes) (kvs : List Kv) (str : Bytes) (w : W)
      → Writes (flush_items te d kvs (ok tt) str w) (str ++ print_items d kvs)
  unfolding flush_items
  flush_items-Writes d [] str w = (refl, sym (append-nil str))
  flush_items-Writes d (kv ∷ kvs) str w =
      let (r, str', w') = te.te_string_append str (item_line d kv) w in
      let (done, text) = append-Writes str (item_line d kv) w in
      rw (done, flush_items)
        (rw (← append_assoc str (item_line d kv) (print_items d kvs), ← text)
          (flush_items-Writes d kvs str' w'))

  flush_sections-Writes :
      (conf : Conf) (str : Bytes) (w : W)
      → Writes (flush_sections te conf (ok tt) str w) (str ++ print conf)
  unfolding flush_sections
  flush_sections-Writes [] str w = (refl, sym (append-nil str))
  flush_sections-Writes (s ∷ conf) str w =
      let (r, str', w') = te.te_string_append str (header_line s) w in
      let (done, text) = append-Writes str (header_line s) w in
      let (rc, str'', w'') = flush_items te s.delimiter s.items (ok tt) str' w' in
      let (done', text') = flush_items-Writes s.delimiter s.items str' w' in
      let regroup : str'' ++ print conf ≡ str ++ print (s ∷ conf) =
        rw (text', text) (simp append_assoc) in
      rw (done, flush_sections) (rw (done', ← regroup) (flush_sections-Writes conf str'' w''))

  -- Where the library works as documented and no request for memory fails, flushing succeeds and
  -- appends the text of the configuration: for each section its name in brackets, and a line for
  -- each item.
  pub flush-print :
      (conf : Conf) (str : Bytes) (w : W)
      → ((flush_conf_to_str te conf str w).0 ≡ ok tt)
        × ((flush_conf_to_str te conf str w).1 ≡ str ++ print conf)
  unfolding flush_conf_to_str
  flush-print conf str w =
      let (done, text) = flush_sections-Writes conf str w in rw done (refl, text)

-- One section whose header could be written: the loop goes on with the status of its items.
flush_sections-cons :
    {W : Type 0} (te : TeLib W) (s : Section) (conf : Conf) (rc r : Status) (str str' str'' : Bytes)
    (w w' w'' : W)
    → te.te_string_append str (header_line s) w ≡ (ok tt, str', w')
    → flush_items te s.delimiter s.items (ok tt) str' w' ≡ (r, str'', w'')
    → flush_sections te (s ∷ conf) rc str w ≡ flush_sections te conf r str'' w''
unfolding flush_sections
flush_sections-cons te s conf rc r str str' str'' w w' w'' h k = ground arith

-- If an item of a section cannot be written, another section follows, and the sections that follow
-- can be written, then the flush reports success: the error is lost.
pub flush_loses_error :
    {W : Type 0} (te : TeLib W) (s t : Section) (conf : Conf) (e : Errno) (str str' str'' : Bytes)
    (w w' w'' : W)
    → te.te_string_append str (header_line s) w ≡ (ok tt, str', w')
    → flush_items te s.delimiter s.items (ok tt) str' w' ≡ (err e, str'', w'')
    → (flush_sections te (t ∷ conf) (ok tt) str'' w'').0 ≡ ok tt
    → (flush_conf_to_str te (s ∷ t ∷ conf) str w).0 ≡ ok tt
unfolding flush_conf_to_str
flush_loses_error te s t conf e str str' str'' w w' w'' h k rest =
    rw (flush_sections-cons te s (t ∷ conf) (ok tt) (err e) str str' str'' w w' w'' h k) rest
