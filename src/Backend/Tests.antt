-- ===== src/Backend/Tests.antt =====
-- Runs of the backend code, and its theorems at concrete inputs.
use cns_virtblk_ts.Base.{
  ◌+◌, ◌-◌, ◌*◌, ◌<◌, ◌≤◌, ◌^◌, ◌≡◌, refl, arith, false, List, [], ◌∷◌, ◌++◌, if◌then◌else◌,
}
use cns_virtblk_ts.Base.Text.{Bytes, codes, strcmp}
use cns_virtblk_ts.Base.Exec.{ok, err, efail}
use cns_virtblk_ts.Te.Model.{Files, files}
use cns_virtblk_ts.Backend.{nvme, CfgLib, tsapi_backend_get_mode, tsapi_backend_get_type, find_type}
use cns_virtblk_ts.Backend.Inventory.{ServerLib, expand_lines}
use cns_virtblk_ts.Backend.Prepare.{dev_size}
use cns_virtblk_ts.Backend.Types.{mode_of, get_type-mode}
use cns_virtblk_ts.Backend.Devices.{
  IsFormatting, joined, are_whole, dev_size-fits, expand_lines-joined,
}

-- A configuration with one backend, nvme, of type "none".
abbrev nvme_cfg : CfgLib Files
nvme_cfg = record {
  cfg_find_pattern = λ p w. (ok (7 ∷ []), w);
  no_instance = λ w. 0;
  cfg_get_inst_name = λ i n w. (ok (codes "nvme"), w);
  cfg_get_instance = λ i w. (ok (codes "none"), w);
  cfg_get_instance_fmt = λ p w. (ok (codes "none"), w);
  cfg_add_instance_fmt = λ p v w. (ok tt, (p, v) ∷ w);
  te_kvpair_add = λ ps n v w. (ok (ps ++ (n, v) ∷ []), w);
  te_strtoi = λ s w. (ok 100, w);
  decimal = λ n. codes "100";
  null_text = codes "(null)";
}

-- Lines stand for themselves, and every script works.
abbrev server : ServerLib Files
server = record {
  te_expand_kvpairs = λ s params w. (ok s, w);
  before_block = λ w. 0;
  te_string_append_format = λ s format w. (ok tt, s ++ format, w);
  ferror = λ w. (ok tt, w);
  agent_dir = λ ta. codes "/agt";
  set_timeout = λ n w. w;
  rpc_system_ex = λ s w. (0, w);
  ipstr = codes "10.0.0.1";
  double_quotient = λ a b. 1;
  trap = λ w. (err efail, w);
}

type_is_nvme : (tsapi_backend_get_type nvme_cfg []).0 ≡ nvme
unfolding tsapi_backend_get_type tsapi_backend_get_mode find_type strcmp
type_is_nvme = refl

get_type-mode_example :
    (tsapi_backend_get_mode nvme_cfg []).0 ≡ mode_of (tsapi_backend_get_type nvme_cfg []).0
get_type-mode_example = get_type-mode nvme_cfg [] (rw type_is_nvme (λ e. cc))

dev_size-fits_example :
    (dev_size 102 3 < 2 ^ 31)
    × (dev_size 102 3 * 3 ≤ (102 - 2) * 1024)
    × ((102 - 2) * 1024 < (dev_size 102 3 + 1024) * 3)
dev_size-fits_example = dev_size-fits 102 3 (omega arith) (omega arith) (omega arith) (omega arith)

-- A share of 2 ^ 21 gigabytes or more has the bits of a negative int.
dev_size_overflows : dev_size 4194303 1 ≡ 4294964224
unfolding dev_size
dev_size_overflows = refl

-- A storage of one gigabyte gives a size of more than 1023 gigabytes, and one device the bits of a
-- negative number.
dev_size_of_one : (dev_size 1 3 ≡ 1431655424) × (dev_size 1 1 ≡ 4294966272)
unfolding dev_size
dev_size_of_one = (refl, refl)

abbrev two_lines : List Bytes
two_lines = codes "all:\n" ∷ codes "hosts:" ∷ []

abbrev same : Bytes → Bytes
same s = s

server-IsFormatting : IsFormatting server
server-IsFormatting = record { plain = λ s format w h e. refl; appends = λ s format w. refl }

expand_lines-joined_example :
    (expand_lines files nvme_cfg server [] false two_lines [] []).0
    ≡ (if are_whole same false two_lines then ok (joined same two_lines) else err efail)
expand_lines-joined_example =
    expand_lines-joined files nvme_cfg server server-IsFormatting [] same (λ line w. refl) two_lines
      false [] [] (ground arith)
