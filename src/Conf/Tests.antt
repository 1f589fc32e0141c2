-- ===== src/Conf/Tests.antt =====
-- Runs of the configuration code, and its theorems at concrete inputs.
use cns_virtblk_ts.Base.{◌≡◌, refl, some, List, [], ◌∷◌, ◌++◌, arith, if◌then◌else◌}
use cns_virtblk_ts.Base.Text.{Bytes, codes, strcmp}
use cns_virtblk_ts.Base.Exec.{ok, err, efail, enomem}
use cns_virtblk_ts.Te.{TeLib}
use cns_virtblk_ts.Te.Model.{Files, files, files-IsDocumented, files-IsPlentiful}
use cns_virtblk_ts.Conf.{
  Kv, Section, Conf, item_line, header_line, tsapi_conf_section_get, push_item, tsapi_conf_append,
  append_item, append_found, flush_conf_to_str, flush_sections, flush_items,
}
use cns_virtblk_ts.Conf.Sections.{with_item, get-append_item, append_outcome}
use cns_virtblk_ts.Conf.Flush.{print, flush_loses_error}
use cns_virtblk_ts.Conf.Parse.{
  tsapi_conf_opts_read, tsapi_conf_parse_string, selected, some_or_efail, parse_string-append,
  opts_read-selected,
}

abbrev ceph : Section
ceph = record {
  name = codes "Ceph";
  delimiter = [];
  items = record { key = codes "User"; value = codes "admin" } ∷ [];
}

abbrev map_dev : Section
map_dev = record {
  name = codes "MapVirtioBlk0";
  delimiter = [];
  items =
      record { key = codes "Dev"; value = codes "Ceph0" }
      ∷ record { key = codes "Cpumask"; value = codes "0x2" }
      ∷ [];
}

abbrev two : Conf
two = ceph ∷ map_dev ∷ []

-- A file system with the text of `two` on the agent.
abbrev stored : Files
stored = (codes "/agt/bp.conf", print two) ∷ []

-- A library in which there is no memory for one line.
abbrev short : TeLib Files
short = record files {
  te_string_append = λ s t w.
      if strcmp t (item_line [] (record { key = codes "User"; value = codes "admin" }))
      then (err enomem, s, w)
      else (ok tt, s ++ t, w);
}

-- The line is missing from the text, and the status is 0.
flush_short :
    flush_conf_to_str short two [] [] ≡ (ok tt, header_line ceph ++ print (map_dev ∷ []), [])
unfolding flush_conf_to_str strcmp
flush_short = refl

flush_loses_error_example : (flush_conf_to_str short two [] []).0 ≡ ok tt
unfolding flush_sections flush_items strcmp
flush_loses_error_example =
    flush_loses_error short ceph map_dev [] enomem [] (header_line ceph) (header_line ceph) [] [] []
      refl refl refl

abbrev option : Bytes
option = codes "Ceph-User=a=b-c"

parse_string-append_example :
    (tsapi_conf_parse_string files option [] []).0
    ≡ ok (codes "Ceph", record { key = codes "User"; value = codes "a=b-c" })
parse_string-append_example =
    parse_string-append files files-IsDocumented files-IsPlentiful (codes "Ceph") (codes "User")
      (codes "a=b-c") [] (omega arith) (omega arith)

abbrev argv : List Bytes
argv = codes "rate=5" ∷ codes "bp.Ceph-User=admin" ∷ codes "bp.Ceph-Pool=rbd" ∷ []

opts_read-selected_example :
    (tsapi_conf_opts_read files argv (codes "bp") [] []).0
    ≡ some_or_efail (selected (codes "bp") argv)
opts_read-selected_example =
    opts_read-selected files files-IsDocumented files-IsPlentiful argv (codes "bp") []
      (ground arith)

abbrev pool : Kv
pool = record { key = codes "Pool"; value = codes "rbd" }

get-append_item_example :
    tsapi_conf_section_get (push_item two (codes "Ceph") pool) (codes "Ceph") ≡ (
      if strcmp (codes "Ceph") (codes "Ceph")
      then with_item pool (tsapi_conf_section_get two (codes "Ceph"))
      else tsapi_conf_section_get two (codes "Ceph"))
unfolding tsapi_conf_append append_item append_found tsapi_conf_section_get push_item strcmp
get-append_item_example =
    get-append_item files two (push_item two (codes "Ceph") pool) (codes "Ceph") (codes "Pool")
      (codes "rbd") (codes "Ceph") [] refl

append_outcome_example :
    (tsapi_conf_append files (some two) (codes "NVMe") (codes "Pool") (codes "rbd") []).0
    ≡ err efail
unfolding tsapi_conf_section_get strcmp
append_outcome_example =
    append_outcome files files-IsPlentiful two (codes "NVMe") (codes "Pool") (codes "rbd") []
