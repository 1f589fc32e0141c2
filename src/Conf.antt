-- ===== src/Conf.antt =====
-- block-ts/lib/tsapi-conf.c: configurations of sections with key and value pairs.
pub mod Sections
pub mod Flush
pub mod Parse
pub mod Read
pub mod Write
pub mod Written
pub mod Lines
pub mod Reread
mod Tests
use cns_virtblk_ts.Base.{
  ℕ, ◌+◌, ◌-◌, ◌==◌, Bool, true, false, Option, none, some, List, [], ◌∷◌, ◌++◌, length, take, drop,
  if◌then◌else◌,
}
use cns_virtblk_ts.Base.Text.{Bytes, codes, strcmp, strstr}
use cns_virtblk_ts.Base.Exec.{
  Result, ok, err, einval, efail, enomem, Status, Exec, pure, raise, ◌>>=◌, ◌>>◌,
}
use cns_virtblk_ts.Te.{TeLib}

pub record Kv : Type 0 where
  pub key : Bytes
  pub value : Bytes

pub record Section : Type 0 where
  pub name : Bytes
  pub delimiter : Bytes
  pub items : List Kv

-- The vector of sections.
abbrev pub Conf : Type 0
Conf = List Section

-- The first section of that name; `none` is NULL.
unfoldable pub tsapi_conf_section_get : Conf → Bytes → Option Section
tsapi_conf_section_get [] name = none
tsapi_conf_section_get (s ∷ conf) name =
    if strcmp s.name name then some s else tsapi_conf_section_get conf name

-- A write through the pointer that tsapi_conf_section_get() returns.
unfoldable pub push_item : Conf → Bytes → Kv → Conf
push_item [] name kv = []
push_item (s ∷ conf) name kv =
    if strcmp s.name name
    then record s { items = s.items ++ kv ∷ [] } ∷ conf
    else s ∷ push_item conf name kv

abbrev pub header_line : Section → Bytes
header_line s = b'[' ∷ (s.name ++ b']' ∷ 10 ∷ [])

abbrev pub item_line : Bytes → Kv → Bytes
item_line delimiter kv = kv.key ++ 32 ∷ (delimiter ++ 32 ∷ (kv.value ++ 10 ∷ []))

abbrev keep_on_success : Status → Bytes → Bytes
keep_on_success (ok _) str = str
keep_on_success (err _) str = []

module _ {W : Type 0} (te : TeLib W) where
  open te use {
    te_string_append, te_vec_append, strdup, after_block, te_string_cut, strcmp_start,
    te_str_strip_spaces, getenv, rcf_ta_get_file, fopen_read,
  }

  unfoldable pub tsapi_conf_create_section : Conf → Bytes → Bytes → Exec W Conf
  tsapi_conf_create_section conf name delimiter = do
    te_vec_append
    pure (conf ++ record { name = name; delimiter = delimiter; items = [] } ∷ [])

  unfoldable pub copy_string : Bytes → Exec W Bytes
  copy_string s w = let (done, w') = strdup w in (if done then ok s else err enomem, w')

  unfoldable pub append_item : Conf → Bytes → Bytes → Bytes → Exec W Conf
  unfolding copy_string push_item
  append_item conf name key value = do
    k ← copy_string key
    v ← copy_string value
    te_vec_append
    pure (push_item conf name (record { key = k; value = v }))

  append_found : Option Section → Conf → Bytes → Bytes → Bytes → Exec W Conf
  append_found none conf name key value = raise efail
  append_found (some s) conf name key value = append_item conf name key value

  -- `none` is a NULL handler.
  unfoldable pub tsapi_conf_append : Option Conf → Bytes → Bytes → Bytes → Exec W Conf
  unfolding append_item append_found tsapi_conf_section_get
  tsapi_conf_append none name key value = raise einval
  tsapi_conf_append (some conf) name key value =
      append_found (tsapi_conf_section_get conf name) conf name key value

  -- The inner loop. Its `break` leaves only this loop, with the status in `rc`.
  unfoldable pub flush_items : Bytes → List Kv → Status → Bytes → W → Status × Bytes × W
  flush_items delimiter [] rc str w = (rc, str, w)
  flush_items delimiter (kv ∷ kvs) rc str w =
      let (r, str', w') = te_string_append str (item_line delimiter kv) w in
      elim r [ ok _ ↦ flush_items delimiter kvs (ok tt) str' w' | err e ↦ (err e, str', w') ]

  unfoldable pub flush_sections : Conf → Status → Bytes → W → Status × Bytes × W
  unfolding flush_items
  flush_sections [] rc str w = (rc, str, w)
  flush_sections (s ∷ conf) rc str w =
      let (r, str', w') = te_string_append str (header_line s) w in
      elim r [
        | ok _ ↦
            let (rc', str'', w'') = flush_items s.delimiter s.items (ok tt) str' w' in
            flush_sections conf rc' str'' w''
        | err e ↦ (err e, str', w')
      ]

  -- On an error the string is freed.
  unfoldable pub flush_conf_to_str : Conf → Bytes → W → Status × Bytes × W
  unfolding flush_sections
  flush_conf_to_str conf str w =
      let (rc, str', w') = flush_sections conf (ok tt) str w in (rc, keep_on_success rc str', w')
