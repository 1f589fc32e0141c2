-- ===== src/BlkProxy/Build.antt =====
-- The options of the command line, grouped into sections.
use cns_virtblk_ts.Base.{Bool, Option, none, some, List, [], ◌∷◌, ◌++◌, if◌then◌else◌}
use cns_virtblk_ts.Base.Text.{Bytes, codes, strcmp, Lacks}
use cns_virtblk_ts.Conf.{Kv, Section, Conf, tsapi_conf_section_get, push_item}

-- One option of the command line, and its text.
pub record Setting : Type 0 where
  pub section : Bytes
  pub key : Bytes
  pub value : Bytes

abbrev pub text : Setting → Bytes
text o = o.section ++ b'-' ∷ (o.key ++ b'=' ∷ o.value)

abbrev pub IsSetting : Setting → Type 0
IsSetting o = Lacks b'-' o.section × Lacks b'=' o.key

-- The settings with texts behind their keys.
abbrev pub stretched : List Bytes → List Setting → List Setting
stretched [] os = os
stretched (g ∷ gs) [] = []
stretched (g ∷ gs) (o ∷ os) = record o { key = o.key ++ g } ∷ stretched gs os

abbrev is_none : Setting → Bool
is_none o = strcmp o.value (codes "none")

-- A configuration in which the section exists.
abbrev with_section : Option Section → Conf → Bytes → Conf
with_section none conf name = conf ++ record { name = name; delimiter = []; items = [] } ∷ []
with_section (some s) conf name = conf

module _ (expand : Bytes → Bytes) where
  abbrev item : Setting → Kv
  item o = record { key = o.key; value = expand o.value }

  abbrev put : Conf → Setting → Conf
  put conf o =
      if is_none o
      then conf
      else push_item (with_section (tsapi_conf_section_get conf o.section) conf o.section) o.section
          (item o)

  abbrev puts : Conf → List Setting → Conf
  puts conf [] = conf
  puts conf (o ∷ os) = puts (put conf o) os

  -- The items that the options give a section, in their order; "none" gives no item.
  abbrev pub items_for : Bytes → List Setting → List Kv
  items_for name [] = []
  items_for name (o ∷ os) =
      if is_none o
      then items_for name os
      else if strcmp o.section name
      then item o ∷ items_for name os
      else items_for name os

abbrev pub items_of : Option Section → List Kv
items_of none = []
items_of (some s) = s.items
