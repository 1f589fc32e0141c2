-- ===== src/Backend/Inventory.antt =====
-- block-ts/lib/tsapi-inventory.c: the inventory file that the scripts of a backend read.
use cns_virtblk_ts.Base.{
  ℕ, ◌-◌, ◌==◌, Bool, true, false, not, Option, none, some, List, [], ◌∷◌, ◌++◌,
}
use cns_virtblk_ts.Base.Text.{Bytes, codes}
use cns_virtblk_ts.Base.Exec.{
  Result, ok, err, efail, einval, Status, Exec, pure, raise, ◌>>=◌, ◌>>◌,
}
use cns_virtblk_ts.Te.{TeLib}
use cns_virtblk_ts.Te.Files.{tsapi_put_str_to_agt_file}
use cns_virtblk_ts.Conf.Read.{fgets_lines}
use cns_virtblk_ts.Backend.{
  Mode, mode_ceph, mode_nvme, mode_malloc, mode_nullblock, mode_unknown, CfgLib,
}

-- A list of te_kvpair.
abbrev pub Params : Type 0
Params = List (Bytes × Bytes)

-- What the files of the backends call beside the Configurator.
pub record ServerLib (W : Type 0) : Type 0 where
  pub te_expand_kvpairs : Bytes → Params → Exec W Bytes
  -- the byte in front of an expanded line, which is read where the line is empty
  pub before_block : W → ℕ
  -- te_string_append(s, format) without arguments: the status, and the string that it leaves
  pub te_string_append_format : Bytes → Bytes → W → Status × Bytes × W
  -- ferror() and its error, when the file has been read
  pub ferror : Exec W Unit
  -- the directory of an agent, for tsapi_append_path_to_agt_dir()
  pub agent_dir : Bytes → Bytes
  -- rpcs->timeout = n
  pub set_timeout : ℕ → W → W
  -- rpc_system_ex(): the value of the status
  pub rpc_system_ex : Bytes → W → ℕ × W
  -- te_sockaddr_get_ipstr() of the address of the server
  pub ipstr : Bytes
  -- the bits of (int)((double)a / b)
  pub double_quotient : ℕ → ℕ → ℕ
  -- what an unsigned division by zero does
  pub trap : Exec W ℕ

unfoldable pub inventory_names : Mode → Option Bytes
inventory_names mode_ceph = some (codes "ceph_inventory")
inventory_names mode_nvme = some (codes "nvme_inventory")
inventory_names mode_malloc = none
inventory_names mode_nullblock = none
inventory_names mode_unknown = none

-- TSAPI_INVENTORY_INPUT_STR_BUF_SIZE
abbrev pub buf_size : ℕ
buf_size = 256

abbrev pub append_result : {W : Type 0} → Status × Bytes × W → Result Bytes × W
append_result (ok _, s, w) = (ok s, w)
append_result (err e, s, w) = (err e, w)

-- Whether target_buf[strlen(target_buf) - 1] is a newline.
abbrev pub ends_line : ℕ → Bytes → Bool
ends_line before [] = before == 10
ends_line before (c ∷ s) = ends_line c s

module _ {W : Type 0} (te : TeLib W) (cfg : CfgLib W) (lib : ServerLib W) where
  open te use {te_string_append, getenv, fopen_read}
  open cfg use {
    cfg_find_pattern, cfg_get_inst_name, cfg_get_instance, cfg_add_instance_fmt, te_kvpair_add,
    decimal,
  }
  open lib use {te_expand_kvpairs, before_block, te_string_append_format, ferror, agent_dir}

  -- te_string_append() to a string that nothing else reads.
  abbrev pub appended_to : Bytes → Bytes → Exec W Bytes
  appended_to s t w = append_result (te_string_append s t w)

  abbrev pub or_error : Option Bytes → (Bytes → Exec W Bytes) → Exec W Bytes → Exec W Bytes
  or_error (some a) f g = f a
  or_error none f g = g

  unfoldable pub tsapi_inventory_get_tmpl_path : Bytes → Mode → Exec W Bytes
  tsapi_inventory_get_tmpl_path tmpl_path mode =
      or_error (getenv (codes "TE_TS_DIR"))
        (λ ts_dir.
          or_error (inventory_names mode)
            (λ name.
              appended_to tmpl_path
                (ts_dir ++ codes "/backend_tmpls/" ++ name ++ codes "_tmpl.yml"))
            (raise einval))
        (raise efail)

  unfoldable pub tsapi_inventory_get_ta_path : Bytes → Mode → Option Bytes
  tsapi_inventory_get_ta_path ta mode = elim (inventory_names mode) [
    | none ↦ none
    | some name ↦ some (agent_dir ta ++ b'/' ∷ (name ++ codes ".yml"))
  ]

  -- The expanded line is the format.
  abbrev pub append_line : Bytes → Bytes → Exec W Bytes
  append_line inventory target_buf w =
      append_result (te_string_append_format inventory target_buf w)

  -- The loop over the lines: `broken` is newline_not_found.
  unfoldable pub expand_lines : Params → Bool → List Bytes → Bytes → Exec W Bytes
  expand_lines kv_params broken [] inventory = pure inventory
  expand_lines kv_params true (line ∷ lines) inventory = raise efail
  expand_lines kv_params false (line ∷ lines) inventory = do
    target_buf ← te_expand_kvpairs line kv_params
    before ← (λ w. (ok (before_block w), w))
    inventory' ← append_line inventory target_buf
    expand_lines kv_params (not (ends_line before target_buf)) lines inventory'

  unfoldable pub tsapi_inventory_expand_template : Bytes → Params → Bytes → Exec W Bytes
  tsapi_inventory_expand_template tmpl_path kv_params inventory = do
    text ← fopen_read tmpl_path
    inventory' ←
        expand_lines kv_params false (fgets_lines buf_size (buf_size - 1) [] text) inventory
    ferror >> pure inventory'

  abbrev pub put_inventory : Bytes → Option Bytes → Exec W (Option Bytes)
  put_inventory inventory none = pure none
  put_inventory inventory (some dst_path) =
      tsapi_put_str_to_agt_file te inventory dst_path >> pure (some dst_path)

  -- What is stored to *inventory_path; `none` where nothing is.
  unfoldable pub tsapi_inventory_prepare : Bytes → Params → Mode → Exec W (Option Bytes)
  tsapi_inventory_prepare ta kv_params mode = do
    tmpl_path ← tsapi_inventory_get_tmpl_path [] mode
    inventory ← tsapi_inventory_expand_template tmpl_path kv_params []
    put_inventory inventory (tsapi_inventory_get_ta_path ta mode)

  unfoldable pub tsapi_inventory_local_add_str : Bytes → Bytes → Bytes → Exec W Unit
  tsapi_inventory_local_add_str backend name value =
      cfg_add_instance_fmt (codes "/local:/backend:" ++ backend ++ codes "/inventory:" ++ name)
        value

  unfoldable pub tsapi_inventory_local_add_int : Bytes → Bytes → ℕ → Exec W Unit
  tsapi_inventory_local_add_int backend name value = do
    val ← appended_to [] (decimal value)
    tsapi_inventory_local_add_str backend name val

  -- The loop over the instances.
  unfoldable pub add_instances : List ℕ → Params → Exec W Params
  add_instances [] params = pure params
  add_instances (i ∷ instances) params = do
    name ← cfg_get_inst_name i 3
    val ← cfg_get_instance i
    params' ← te_kvpair_add params name val
    add_instances instances params'

  unfoldable pub tsapi_inventory_local_to_kv_pair : Bytes → Params → Exec W Params
  tsapi_inventory_local_to_kv_pair backend params = do
    instances ← cfg_find_pattern (codes "/local:/backend:" ++ backend ++ codes "/inventory:*")
    add_instances instances params
