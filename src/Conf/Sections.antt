-- ===== src/Conf/Sections.antt =====
-- Creating sections and appending items to them, as seen by tsapi_conf_section_get().
use cns_virtblk_ts.Base.{
  ◌≡◌, refl, true, Option, none, some, [], ◌∷◌, ◌++◌, inl, inr, arith, Bool-cases, if◌then◌else◌,
}
use cns_virtblk_ts.Base.Text.{Bytes, strcmp, strcmp→eq}
use cns_virtblk_ts.Base.Exec.{ok, err, efail}
use cns_virtblk_ts.Te.{TeLib, IsPlentiful}
use cns_virtblk_ts.Conf.{
  Kv, Section, Conf, tsapi_conf_section_get, push_item, append_item, append_found,
  tsapi_conf_append,
}

abbrev pub add_item : Kv → Section → Section
add_item kv s = record s { items = s.items ++ kv ∷ [] }

abbrev pub with_item : Kv → Option Section → Option Section
with_item kv none = none
with_item kv (some s) = some (add_item kv s)

-- What is found behind a new section: what was there, or the new section.
abbrev pub or_else : Option Section → Option Section → Option Section
or_else none o = o
or_else (some s) o = some s

-- No two sections have one name.
abbrev pub IsDistinct : Conf → Type 0
IsDistinct [] = Unit
IsDistinct (s ∷ conf) = (tsapi_conf_section_get conf s.name ≡ none) × IsDistinct conf

pub strcmp-sym : (a b : Bytes) → strcmp a b ≡ strcmp b a
unfolding strcmp
strcmp-sym [] [] = refl
strcmp-sym [] (b ∷ t) = refl
strcmp-sym (a ∷ s) [] = refl
strcmp-sym (a ∷ s) (b ∷ t) = ground (arith, strcmp-sym s t)

pub get-append :
    (conf conf' : Conf) (name : Bytes)
    → tsapi_conf_section_get (conf ++ conf') name
      ≡ or_else (tsapi_conf_section_get conf name) (tsapi_conf_section_get conf' name)
unfolding tsapi_conf_section_get
get-append [] conf' name = refl
get-append (s ∷ conf) conf' name = ground (arith, get-append conf conf' name)

-- Names that compare equal are told apart from a third alike.
strcmp_left : (a b c : Bytes) → strcmp a b ≡ true → strcmp a c ≡ strcmp b c
strcmp_left a b c h = rw (strcmp→eq a b h)

strcmp_right : (a b c : Bytes) → strcmp b c ≡ true → strcmp a b ≡ strcmp a c
strcmp_right a b c h = rw (strcmp→eq b c h)

pub get-push_item :
    (conf : Conf) (name m : Bytes) (kv : Kv)
    → tsapi_conf_section_get (push_item conf name kv) m ≡ (
        if strcmp name m
        then with_item kv (tsapi_conf_section_get conf name)
        else tsapi_conf_section_get conf m)
unfolding tsapi_conf_section_get push_item
get-push_item [] name m kv = ground arith
get-push_item (s ∷ conf) name m kv =
    ground
      (arith, get-push_item conf name m kv, strcmp_left s.name name m, strcmp_right s.name name m)

pub IsDistinct-push_item :
    (conf : Conf) (name : Bytes) (kv : Kv) → IsDistinct conf → IsDistinct (push_item conf name kv)
unfolding push_item
IsDistinct-push_item [] name kv u = tt
IsDistinct-push_item (s ∷ conf) name kv u = elim (Bool-cases (strcmp s.name name)) [
  | inl same ↦ rw same u
  | inr other ↦ rw other (
    rw (get-push_item conf name s.name kv, ← strcmp-sym s.name name, other) u.0,
    IsDistinct-push_item conf name kv u.1,
  )
]

pub IsDistinct-append :
    (conf : Conf) (s : Section)
    → IsDistinct conf
    → tsapi_conf_section_get conf s.name ≡ none
    → IsDistinct (conf ++ s ∷ [])
unfolding tsapi_conf_section_get
IsDistinct-append [] s u n = (refl, tt)
IsDistinct-append (t ∷ conf) s u n =
    let e = strcmp-sym t.name s.name in
    (
      rw (get-append conf (s ∷ []) t.name, u.0) (ground arith),
      IsDistinct-append conf s u.1 (ground arith),
    )

module _ {W : Type 0} (te : TeLib W) where
  append_found-eq-ok :
      (o : Option Section) (conf conf' : Conf) (name key value : Bytes) (w : W)
      → (append_found te o conf name key value w).0 ≡ ok conf'
      → conf' ≡ push_item conf name (record { key = key; value = value })
  unfolding append_found append_item
  append_found-eq-ok none conf conf' name key value w h = cc
  append_found-eq-ok (some s) conf conf' name key value w h = ground arith

  -- After a successful append the section of that name has one more item, at its end, and
  -- every other section is found as before.
  pub get-append_item :
      (conf conf' : Conf) (name key value m : Bytes) (w : W)
      → (tsapi_conf_append te (some conf) name key value w).0 ≡ ok conf'
      → tsapi_conf_section_get conf' m ≡ (
          if strcmp name m
          then with_item (record { key = key; value = value }) (tsapi_conf_section_get conf name)
          else tsapi_conf_section_get conf m)
  get-append_item conf conf' name key value m w h =
      rw
        (append_found-eq-ok (tsapi_conf_section_get conf name) conf conf' name key value w
          (unfold tsapi_conf_append in h))
        (get-push_item conf name m _)

  -- With memory at hand an append fails exactly for a section that is not there.
  pub append_outcome :
      IsPlentiful te
      → (conf : Conf) (name key value : Bytes) (w : W)
      → (tsapi_conf_append te (some conf) name key value w).0
        ≡ elim (tsapi_conf_section_get conf name) [
          | none ↦ err efail
          | some _ ↦ ok (push_item conf name (record { key = key; value = value }))
        ]
  append_outcome p conf name key value w =
      unfold tsapi_conf_append append_found append_item in grind (arith, p.grows, p.copies)
