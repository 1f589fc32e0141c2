-- ===== src/Ceph/Cluster.antt =====
-- block-ts/lib/block-ts.c: block_ts_ceph_cluster_conf_create(), the configuration file of a Ceph
-- cluster; block-ts/lib/tsapi.c: tsapi_use_onload() and tsapi_use_plugin().
use cns_virtblk_ts.Base.{ℕ, Bool, true, false, ◌||◌, some, List, [], ◌∷◌, ◌++◌, if◌then◌else◌}
use cns_virtblk_ts.Base.Text.{Bytes, codes, strcmp}
use cns_virtblk_ts.Base.Exec.{Result, ok, err, Exec, pure, ◌>>=◌}
use cns_virtblk_ts.Te.{TeLib}
use cns_virtblk_ts.Conf.{Kv, Conf, tsapi_conf_create_section, tsapi_conf_append}
use cns_virtblk_ts.Conf.Write.{tsapi_conf_flush}
use cns_virtblk_ts.Backend.{CfgLib, tsapi_get_backend_param_bool}
use cns_virtblk_ts.Backend.Inventory.{append_result}

abbrev pub ceph_conf : Bytes
ceph_conf = codes "/etc/ceph/ceph.conf"

abbrev pub ceph_fsid : Bytes
ceph_fsid = codes "6cac38af-505c-4c8d-9aeb-4fbe814313b0"

abbrev pub log_path : Bytes
log_path = codes "/var/log/ceph/" ++ ceph_fsid ++ codes "/ceph.log"

abbrev option : Bytes → Bytes → Kv
option k v = record { key = k; value = v }

abbrev pub base_options : Bytes → Bytes → List Kv
base_options net mon =
    option (codes "fsid") ceph_fsid
    ∷ option (codes "public network") net
    ∷ option (codes "cluster network") net
    ∷ option (codes "ms bind msgr1") (codes "true")
    ∷ option (codes "ms bind msgr2") (codes "false")
    ∷ option (codes "mon warn on pool no redundancy") (codes "false")
    ∷ option (codes "mon warn on pool pg num not power of two") (codes "false")
    ∷ option (codes "auth cluster required") (codes "none")
    ∷ option (codes "auth service required") (codes "none")
    ∷ option (codes "auth client required") (codes "none")
    ∷ option (codes "osd crush update on start") (codes "false")
    ∷ option (codes "osd objectstore") (codes "filestore")
    ∷ option (codes "osd pool default size") (codes "1")
    ∷ option (codes "osd pool default min size") (codes "1")
    ∷ option (codes "osd crush chooseleaf type") (codes "0")
    ∷ option (codes "mon initial members") (codes "main")
    ∷ option (codes "mon host") mon
    ∷ option (codes "mon addr") mon
    ∷ []

abbrev pub onload_options : List Kv
onload_options =
    option (codes "ms type") (codes "async+onload")
    ∷ option (codes "ms async onload buffer pool size") (codes "2M")
    ∷ option (codes "ms nocrc") (codes "true")
    ∷ option (codes "ms crc data") (codes "false")
    ∷ option (codes "rbd cache") (codes "false")
    ∷ []

abbrev pub plugin_options : List Kv
plugin_options = option (codes "ms async onload rx plugin") (codes "true") ∷ []

abbrev pub log_options : List Kv
log_options = option (codes "log_to_file") (codes "true") ∷ option (codes "log_file") log_path ∷ []

abbrev pub is_yes : Bytes → Bool
is_yes val = strcmp val (codes "true") || strcmp val (codes "yes")

module _ {W : Type 0} (te : TeLib W) (cfg : CfgLib W) where
  open te use {te_string_append}
  open cfg use {cfg_get_instance_fmt, decimal}

  -- CHECK_RC ends the test on an error, which is the error here.
  unfoldable pub tsapi_use_onload : Exec W Bool
  tsapi_use_onload = cfg_get_instance_fmt (codes "/local:/use_onload:") >>= λ val. pure (is_yes val)

  unfoldable pub tsapi_use_plugin : Exec W Bool
  tsapi_use_plugin =
      cfg_get_instance_fmt (codes "/local:/plugin:/use_plugin:") >>= λ val. pure (is_yes val)

  abbrev pub made_string : Bytes → Exec W Bytes
  made_string t w = append_result (te_string_append [] t w)

  -- The status of tsapi_conf_create_section() is not looked at.
  abbrev pub or_empty : Result Conf × W → Result Conf × W
  or_empty (ok conf, w) = (ok conf, w)
  or_empty (err e, w) = (ok [], w)

  abbrev pub global_section : Exec W Conf
  global_section w = or_empty (tsapi_conf_create_section te [] (codes "global") (b'=' ∷ []) w)

  -- CEPH_CONF for each of the options.
  unfoldable pub append_options : List Kv → Conf → Exec W Conf
  append_options [] conf = pure conf
  append_options (kv ∷ kvs) conf = do
    conf' ← tsapi_conf_append te (some conf) (codes "global") kv.key kv.value
    append_options kvs conf'

  abbrev pub add_plugin : Bool → Conf → Exec W Conf
  add_plugin use_plugin conf = if use_plugin then append_options plugin_options conf else pure conf

  abbrev pub add_onload : Bool → Conf → Exec W Conf
  add_onload false conf = pure conf
  add_onload true conf = do
    conf' ← append_options onload_options conf
    use_plugin ← tsapi_use_plugin
    add_plugin use_plugin conf'

  abbrev pub add_log : Bool → Conf → Exec W Conf
  add_log false conf = pure conf
  add_log true conf = do
    ceph_log_path ← made_string log_path
    append_options
        (option (codes "log_to_file") (codes "true") ∷ option (codes "log_file") ceph_log_path ∷ [])
        conf

  abbrev pub net_text : Bytes → ℕ → Bytes
  net_text ip pfx = ip ++ b'/' ∷ decimal pfx

  abbrev pub mon_text : Bytes → Bytes
  mon_text ip = ip ++ b':' ∷ (decimal 6789 ++ codes "/0")

  -- The addresses are given as te_sockaddr_get_ipstr() prints them.
  unfoldable pub block_ts_ceph_cluster_conf_create : Bytes → Bytes → ℕ → Exec W Unit
  block_ts_ceph_cluster_conf_create ceph_net_ip ceph_mon_addr ceph_net_ip_pfx = do
    ceph_net_str ← made_string (net_text ceph_net_ip ceph_net_ip_pfx)
    ceph_mon_addr_str ← made_string (mon_text ceph_mon_addr)
    conf ← global_section
    conf1 ← append_options (base_options ceph_net_str ceph_mon_addr_str) conf
    use_onload ← tsapi_use_onload
    conf2 ← add_onload use_onload conf1
    is_enabled_logging ← tsapi_get_backend_param_bool cfg (codes "ceph") (codes "enable_logging")
    conf3 ← add_log is_enabled_logging conf2
    tsapi_conf_flush te conf3 ceph_conf
