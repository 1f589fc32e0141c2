-- ===== src/Backend/Types.antt =====
-- What the type of a backend says of its mode and of the functions of its row of the table.
use cns_virtblk_ts.Base.{
  ℕ, ◌==◌, ◌≡◌, ◌≢◌, refl, sym, ◌∙◌, arith, true, ◌&&◌, Option, none, some, List, [], ◌∷◌, ◌++◌,
  All, Bool-cases, inl, inr, if◌then◌else◌,
}
use cns_virtblk_ts.Base.Text.{Bytes, codes, strcmp}
use cns_virtblk_ts.Base.Exec.{
  Result, ok, err, Errno, efail, einval, Exec, raise, pure, ◌>>=◌, >>=-ok,
}
use cns_virtblk_ts.Te.{TeLib}
use cns_virtblk_ts.Te.Files.{tsapi_put_str_to_agt_file}
use cns_virtblk_ts.Backend.{
  Mode, mode_ceph, mode_nvme, mode_malloc, mode_nullblock, mode_unknown, BackendType,
  ceph_container, ceph_connect, ceph_qemu, nvme, nvme_connect, malloc, nullblock, type_none, CfgLib,
  TypeEntry, maps, mode_number, find_type, tsapi_backend_get_mode, tsapi_backend_get_type,
  percent_s, tsapi_backend_mode2str, type_of_value,
}
use cns_virtblk_ts.Backend.Inventory.{
  ServerLib, Params, inventory_names, tsapi_inventory_get_tmpl_path, tsapi_inventory_get_ta_path,
  tsapi_inventory_expand_template, tsapi_inventory_prepare, put_inventory, or_error,
}

abbrev pub mode_of : BackendType → Mode
mode_of ceph_container = mode_ceph
mode_of ceph_connect = mode_ceph
mode_of ceph_qemu = mode_ceph
mode_of nvme = mode_nvme
mode_of nvme_connect = mode_nvme
mode_of malloc = mode_malloc
mode_of nullblock = mode_nullblock
mode_of type_none = mode_unknown

abbrev of_number : ℕ → Mode
of_number n =
    if n == 0
    then mode_ceph
    else if n == 1
    then mode_nvme
    else if n == 2
    then mode_malloc
    else if n == 3
    then mode_nullblock
    else mode_unknown

of_number-mode_number : (m : Mode) → of_number (mode_number m) ≡ m
of_number-mode_number mode_ceph = refl
of_number-mode_number mode_nvme = refl
of_number-mode_number mode_malloc = refl
of_number-mode_number mode_nullblock = refl
of_number-mode_number mode_unknown = refl

same_mode : (m n : Mode) → (mode_number m == mode_number n) ≡ true → m ≡ n
same_mode m n h =
    let e : mode_number m ≡ mode_number n = ground arith in
    sym (of_number-mode_number m) ∙ rw e (of_number-mode_number n)

find_type-mode :
    (es : List TypeEntry) (mode : Mode) (val : Bytes)
    → All (λ e. mode_of e.type ≡ e.mode) es
    → find_type es mode val ≢ type_none
    → mode ≡ mode_of (find_type es mode val)
unfolding find_type
find_type-mode [] mode val h n = absurd (n refl)
find_type-mode (e ∷ es) mode val h n =
    elim (Bool-cases ((mode_number mode == mode_number e.mode) && strcmp val e.type_str)) [
      | inl here ↦ rw here (same_mode mode e.mode (ground arith) ∙ sym h.0)
      | inr there ↦ rw there (find_type-mode es mode val h.1 (rw there at n))
    ]

maps-mode : All (λ e. mode_of e.type ≡ e.mode) maps
maps-mode = (refl, (refl, (refl, (refl, (refl, (refl, (refl, tt)))))))

module _ {W : Type 0} (cfg : CfgLib W) where
  type_of_value-mode :
      (mode : Mode) (r : Result Bytes × W)
      → (type_of_value cfg mode r).0 ≢ type_none
      → mode ≡ mode_of (type_of_value cfg mode r).0
  type_of_value-mode mode (ok val, w) n = find_type-mode maps mode val maps-mode n
  type_of_value-mode mode (err e, w) n = absurd (n refl)

  -- A type that is found belongs to the mode of the backend that is configured.
  pub get_type-mode :
      (w : W)
      → (tsapi_backend_get_type cfg w).0 ≢ type_none
      → (tsapi_backend_get_mode cfg w).0 ≡ mode_of (tsapi_backend_get_type cfg w).0
  unfolding tsapi_backend_get_type
  get_type-mode w n =
      let (mode, w') = tsapi_backend_get_mode cfg w in
      type_of_value-mode mode
        (cfg.cfg_get_instance_fmt
          (codes "/local:/backend:"
            ++ percent_s cfg (tsapi_backend_mode2str mode)
            ++ codes "/type:")
          w')
        n

module _ {W : Type 0} (te : TeLib W) (cfg : CfgLib W) (lib : ServerLib W) where
  put_inventory-ok :
      (inventory : Bytes) (o p : Option Bytes) (w : W)
      → (put_inventory te cfg lib inventory o w).0 ≡ ok p
      → p ≡ o
  put_inventory-ok inventory none p w h = cc
  put_inventory-ok inventory (some dst) p w h =
      let (u, k, e) =
        >>=-ok (tsapi_put_str_to_agt_file te inventory dst) (λ _. pure (some dst)) w p h in
      cc

  or_error-raise :
      (o : Option Bytes) (d e : Errno) (w : W) (p : Bytes)
      → (or_error te cfg lib o (λ _. raise d) (raise e) w).0 ≢ ok p
  or_error-raise (some b) d e w p h = cc
  or_error-raise none d e w p h = cc

  get_tmpl_path-name :
      (ta tmpl_path : Bytes) (mode : Mode) (w : W) (p : Bytes)
      → (tsapi_inventory_get_tmpl_path te cfg lib tmpl_path mode w).0 ≡ ok p
      → tsapi_inventory_get_ta_path te cfg lib ta mode ≢ none
  unfolding tsapi_inventory_get_tmpl_path tsapi_inventory_get_ta_path inventory_names
  get_tmpl_path-name ta tmpl_path mode_ceph w p h = λ e. cc
  get_tmpl_path-name ta tmpl_path mode_nvme w p h = λ e. cc
  get_tmpl_path-name ta tmpl_path mode_malloc w p h =
      absurd (or_error-raise (te.getenv (codes "TE_TS_DIR")) einval efail w p h)
  get_tmpl_path-name ta tmpl_path mode_nullblock w p h =
      absurd (or_error-raise (te.getenv (codes "TE_TS_DIR")) einval efail w p h)
  get_tmpl_path-name ta tmpl_path mode_unknown w p h =
      absurd (or_error-raise (te.getenv (codes "TE_TS_DIR")) einval efail w p h)

  -- tsapi_inventory_prepare() succeeds only for a mode that has an inventory file, and then gives the
  -- path of that file: its branch that returns 0 without a path is never taken.
  prepare-path :
      (ta : Bytes) (kv_params : Params) (mode : Mode) (w : W) (p : Option Bytes)
      → (tsapi_inventory_prepare te cfg lib ta kv_params mode w).0 ≡ ok p
      → (p ≡ tsapi_inventory_get_ta_path te cfg lib ta mode) × (p ≢ none)
  unfolding tsapi_inventory_prepare
  prepare-path ta kv_params mode w p h =
      let get = tsapi_inventory_get_tmpl_path te cfg lib [] mode in
      let expand : Bytes → Exec W Bytes =
        λ tmpl. tsapi_inventory_expand_template te cfg lib tmpl kv_params [] in
      let put : Bytes → Exec W (Option Bytes) = λ inventory.
        put_inventory te cfg lib inventory (tsapi_inventory_get_ta_path te cfg lib ta mode) in
      let (tmpl, got, h1) = >>=-ok get (λ tmpl. expand tmpl >>= put) w p h in
      let (inventory, _, h2) = >>=-ok (expand tmpl) put (get w).1 p h1 in
      let e =
        put_inventory-ok inventory (tsapi_inventory_get_ta_path te cfg lib ta mode) p
          ((expand tmpl) (get w).1).1 h2 in
      (e, rw e (get_tmpl_path-name ta [] mode w tmpl got))
