-- ===== src/Conf/Lines.antt =====
-- The lines that fgets() reads from the text of a configuration.
use cns_virtblk_ts.Base.{
  ℕ, ◌-◌, ◌<◌, ◌≡◌, refl, ◌∙◌, List, [], ◌∷◌, ◌++◌, length, All, arith, ap, append_assoc,
}
use cns_virtblk_ts.Base.Text.{Bytes, Lacks}
use cns_virtblk_ts.Conf.{Kv, Section, Conf}
use cns_virtblk_ts.Conf.Flush.{print_items, print}
use cns_virtblk_ts.Conf.Read.{fgets_lines, path_max}

-- The text of a line without its newline, which fits the buffer.
pub record IsLine (l : Bytes) : Type 0 where
  pub lacks : Lacks 10 l
  pub fits : length l < path_max - 1

-- A line that fits is read whole, and the next one begins behind its newline.
pub fgets_lines-newline :
    (size room : ℕ) (line l rest : Bytes)
    → Lacks 10 l
    → length l < room
    → fgets_lines size room line (l ++ 10 ∷ rest)
      ≡ (line ++ (l ++ 10 ∷ [])) ∷ fgets_lines size (size - 1) [] rest
unfolding fgets_lines
fgets_lines-newline size room [] [] rest h f = refl
fgets_lines-newline size room (d ∷ line) [] rest h f = refl
fgets_lines-newline size room line (c ∷ l) rest h f =
    let e = append_assoc line (c ∷ []) (l ++ 10 ∷ []) in
    ground (arith, e, fgets_lines-newline size (room - 1) (line ++ c ∷ []) l rest h.1)

abbrev pub header_text : Section → Bytes
header_text s = b'[' ∷ (s.name ++ b']' ∷ [])

abbrev pub item_text : Bytes → Kv → Bytes
item_text d kv = kv.key ++ 32 ∷ (d ++ 32 ∷ kv.value)

abbrev pub item_lines : Bytes → List Kv → List Bytes
item_lines d [] = []
item_lines d (kv ∷ kvs) = (item_text d kv ++ 10 ∷ []) ∷ item_lines d kvs

abbrev pub conf_lines : Conf → List Bytes
conf_lines [] = []
conf_lines (s ∷ conf) =
    (header_text s ++ 10 ∷ []) ∷ (item_lines s.delimiter s.items ++ conf_lines conf)

-- Every line of the text fits the buffer, and holds no newline but its last byte.
abbrev pub HasLines : Conf → Type 0
HasLines = All (λ s. IsLine (header_text s) × All (λ kv. IsLine (item_text s.delimiter kv)) s.items)

abbrev read_all : Bytes → List Bytes
read_all s = fgets_lines path_max (path_max - 1) [] s

read_all-newline :
    (l rest : Bytes) → IsLine l → read_all (l ++ 10 ∷ rest) ≡ (l ++ 10 ∷ []) ∷ read_all rest
read_all-newline l rest h = fgets_lines-newline path_max (path_max - 1) [] l rest h.lacks h.fits

read_all-items :
    (d : Bytes) (kvs : List Kv) (rest : Bytes)
    → All (λ kv. IsLine (item_text d kv)) kvs
    → read_all (print_items d kvs ++ rest) ≡ item_lines d kvs ++ read_all rest
read_all-items d [] rest h = refl
read_all-items d (kv ∷ kvs) rest h =
    let text : Bytes = print_items d kvs ++ rest in
    let e : print_items d (kv ∷ kvs) ++ rest ≡ item_text d kv ++ 10 ∷ text = simp append_assoc in
    ap read_all e
    ∙ read_all-newline (item_text d kv) text h.0
    ∙ ap (λ ls. (item_text d kv ++ 10 ∷ []) ∷ ls) (read_all-items d kvs rest h.1)

pub read_all-print : (conf : Conf) → HasLines conf → read_all (print conf) ≡ conf_lines conf
read_all-print [] h = unfold fgets_lines in refl
read_all-print (s ∷ conf) h =
    let d : Bytes = s.delimiter in
    let text : Bytes = print_items d s.items ++ print conf in
    let e : print (s ∷ conf) ≡ header_text s ++ 10 ∷ text = simp append_assoc in
    let items : read_all text ≡ item_lines d s.items ++ conf_lines conf =
      rw (read_all-items d s.items (print conf) h.0.1, read_all-print conf h.1) refl in
    ap read_all e
    ∙ read_all-newline (header_text s) text h.0.0
    ∙ ap (λ ls. (header_text s ++ 10 ∷ []) ∷ ls) items
