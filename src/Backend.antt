-- ===== src/Backend.antt =====
-- block-ts/lib/tsapi-backend.c and .h: the storage backends, their modes and types and the table of
-- what each type needs; block-ts/lib/tsapi.c: the parameters of a backend.
pub mod Inventory
pub mod Prepare
pub mod Server
pub mod Types
pub mod Devices
mod Tests
use cns_virtblk_ts.Base.{
  ℕ, ◌==◌, Bool, true, false, not, ◌&&◌, ◌||◌, Option, none, some, List, [], ◌∷◌, ◌++◌,
  if◌then◌else◌,
}
use cns_virtblk_ts.Base.Text.{Bytes, codes, strcmp}
use cns_virtblk_ts.Base.Exec.{
  Result, ok, err, einval, Exec, pure, raise, lift, continue, ◌>>=◌, ◌>>◌,
}

-- tsapi_backend_mode
pub data Mode : Type 0 where
  mode_ceph mode_nvme mode_malloc mode_nullblock mode_unknown : Mode

-- tsapi_backend_types
pub data BackendType : Type 0 where
  ceph_container ceph_connect ceph_qemu nvme nvme_connect malloc nullblock type_none : BackendType

-- The functions that the table points to.
pub data Start : Type 0 where
  backend_start_server : Start

pub data Stop : Type 0 where
  backend_stop_server : Stop

pub data PrepareParams : Type 0 where
  ceph_prepare_params nvme_prepare_params : PrepareParams

pub data PrepareClients : Type 0 where
  ceph_prepare_client : PrepareClients

pub data Hook : Type 0 where
  ceph_enable_logger : Hook

pub record Callbacks : Type 0 where
  pub start : Option Start
  pub stop : Option Stop
  pub prepare_params : Option PrepareParams
  pub prepare_clients : Option PrepareClients
  pub hook : Option Hook

abbrev pub no_callbacks : Callbacks
no_callbacks = record {
  start = none;
  stop = none;
  prepare_params = none;
  prepare_clients = none;
  hook = none;
}

-- The table has no entry for type_none.
unfoldable pub backend_callbacks : BackendType → Option Callbacks
backend_callbacks ceph_container = some (record {
  start = some backend_start_server;
  stop = some backend_stop_server;
  prepare_params = some ceph_prepare_params;
  prepare_clients = some ceph_prepare_client;
  hook = some ceph_enable_logger;
})
backend_callbacks ceph_connect = some (record {
  start = none;
  stop = none;
  prepare_params = none;
  prepare_clients = some ceph_prepare_client;
  hook = some ceph_enable_logger;
})
backend_callbacks nvme = some (record {
  start = some backend_start_server;
  stop = some backend_stop_server;
  prepare_params = some nvme_prepare_params;
  prepare_clients = none;
  hook = none;
})
backend_callbacks nvme_connect = some (record {
  start = none;
  stop = none;
  prepare_params = some nvme_prepare_params;
  prepare_clients = none;
  hook = none;
})
backend_callbacks ceph_qemu = some no_callbacks
backend_callbacks malloc = some no_callbacks
backend_callbacks nullblock = some no_callbacks
backend_callbacks type_none = none

unfoldable pub tsapi_backend_mode2str : Mode → Option Bytes
tsapi_backend_mode2str mode_malloc = some (codes "malloc")
tsapi_backend_mode2str mode_ceph = some (codes "ceph")
tsapi_backend_mode2str mode_nullblock = some (codes "nullblock")
tsapi_backend_mode2str mode_nvme = some (codes "nvme")
tsapi_backend_mode2str mode_unknown = none

-- The Configurator of the Test Environment, and the library of name-value pairs.
pub record CfgLib (W : Type 0) : Type 0 where
  -- cfg_find_pattern() and cfg_find_pattern_fmt(): the handles of the instances
  pub cfg_find_pattern : Bytes → Exec W (List ℕ)
  -- what the first element of the array is where the pattern matched no instance
  pub no_instance : W → ℕ
  -- cfg_get_oid(), then CFG_OID_GET_INST_NAME(oid, n)
  pub cfg_get_inst_name : ℕ → ℕ → Exec W Bytes
  pub cfg_get_instance : ℕ → Exec W Bytes
  pub cfg_get_instance_fmt : Bytes → Exec W Bytes
  pub cfg_add_instance_fmt : Bytes → Bytes → Exec W Unit
  pub te_kvpair_add : List (Bytes × Bytes) → Bytes → Bytes → Exec W (List (Bytes × Bytes))
  -- te_strtoi(s, 10, &n): the bits of the int
  pub te_strtoi : Bytes → Exec W ℕ
  -- what "%d" prints for the bits of an int
  pub decimal : ℕ → Bytes
  -- what "%s" prints for a NULL pointer
  pub null_text : Bytes

abbrev pub mode_of_name : Bytes → Mode
mode_of_name name =
    if strcmp name (codes "malloc")
    then mode_malloc
    else if strcmp name (codes "ceph")
    then mode_ceph
    else if strcmp name (codes "nullblock")
    then mode_nullblock
    else if strcmp name (codes "nvme")
    then mode_nvme
    else mode_unknown

-- One row of the table `maps`.
pub record TypeEntry : Type 0 where
  pub mode : Mode
  pub type_str : Bytes
  pub type : BackendType

abbrev pub maps : List TypeEntry
maps =
    record { mode = mode_ceph; type_str = codes "container"; type = ceph_container }
    ∷ record { mode = mode_ceph; type_str = codes "qemu"; type = ceph_qemu }
    ∷ record { mode = mode_ceph; type_str = codes "connect"; type = ceph_connect }
    ∷ record { mode = mode_malloc; type_str = codes "none"; type = malloc }
    ∷ record { mode = mode_nullblock; type_str = codes "none"; type = nullblock }
    ∷ record { mode = mode_nvme; type_str = codes "none"; type = nvme }
    ∷ record { mode = mode_nvme; type_str = codes "connect"; type = nvme_connect }
    ∷ []

abbrev pub mode_number : Mode → ℕ
mode_number mode_ceph = 0
mode_number mode_nvme = 1
mode_number mode_malloc = 2
mode_number mode_nullblock = 3
mode_number mode_unknown = 4

unfoldable pub find_type : List TypeEntry → Mode → Bytes → BackendType
find_type [] mode val = type_none
find_type (e ∷ es) mode val =
    if (mode_number mode == mode_number e.mode) && strcmp val e.type_str
    then e.type
    else find_type es mode val

module _ {W : Type 0} (cfg : CfgLib W) where
  open cfg use {
    cfg_find_pattern, no_instance, cfg_get_inst_name, cfg_get_instance_fmt, te_strtoi, null_text,
  }

  abbrev pub percent_s : Option Bytes → Bytes
  percent_s (some s) = s
  percent_s none = null_text

  abbrev mode_of_instance : Result Bytes × W → Mode × W
  mode_of_instance (ok name, w) = (mode_of_name name, w)
  mode_of_instance (err e, w) = (mode_unknown, w)

  -- With no instance, the code reads the first element of an array that is not there.
  abbrev mode_of_instances : Result (List ℕ) × W → Mode × W
  mode_of_instances (err e, w) = (mode_unknown, w)
  mode_of_instances (ok [], w) = mode_of_instance (cfg_get_inst_name (no_instance w) 2 w)
  mode_of_instances (ok (i ∷ []), w) = mode_of_instance (cfg_get_inst_name i 2 w)
  mode_of_instances (ok (i ∷ j ∷ is), w) = (mode_unknown, w)

  unfoldable pub tsapi_backend_get_mode : W → Mode × W
  tsapi_backend_get_mode w = mode_of_instances (cfg_find_pattern (codes "/local:/backend:*") w)

  abbrev pub type_of_value : Mode → Result Bytes × W → BackendType × W
  type_of_value mode (ok val, w) = (find_type maps mode val, w)
  type_of_value mode (err e, w) = (type_none, w)

  unfoldable pub tsapi_backend_get_type : W → BackendType × W
  tsapi_backend_get_type w =
      let (mode, w') = tsapi_backend_get_mode w in
      type_of_value mode (
        cfg_get_instance_fmt
          (codes "/local:/backend:" ++ percent_s (tsapi_backend_mode2str mode) ++ codes "/type:")
          w')

  unfoldable pub tsapi_backend_need_env : W → Bool × W
  tsapi_backend_need_env w =
      let (mode, w') = tsapi_backend_get_mode w in
      (
        (mode_number mode == mode_number mode_ceph) || (mode_number mode == mode_number mode_nvme),
        w',
      )

  unfoldable pub tsapi_get_backend_param_str : Bytes → Bytes → W → Option Bytes × W
  tsapi_get_backend_param_str backend param w =
      let (r, w') =
        cfg_get_instance_fmt (codes "/local:/backend:" ++ backend ++ codes "/params:" ++ param) w in
      elim r [ ok val ↦ (some val, w') | err e ↦ (none, w') ]

  -- The value, or TE_EINVAL where the parameter is absent.
  abbrev param_or_einval : Option Bytes × W → Result Bytes × W
  param_or_einval (some val, w) = (ok val, w)
  param_or_einval (none, w) = (err einval, w)

  unfoldable pub tsapi_get_backend_param_int : Bytes → Bytes → Exec W ℕ
  tsapi_get_backend_param_int backend param_name = do
    val_str ← (λ w. param_or_einval (tsapi_get_backend_param_str backend param_name w))
    te_strtoi val_str

  unfoldable pub tsapi_get_backend_param_bool : Bytes → Bytes → Exec W Bool
  tsapi_get_backend_param_bool backend param_name = do
    val_str ← (λ w. param_or_einval (tsapi_get_backend_param_str backend param_name w))
    pure (strcmp val_str (codes "true") || strcmp val_str (codes "yes"))
