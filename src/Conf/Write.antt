-- ===== src/Conf/Write.antt =====
-- block-ts/lib/tsapi-conf.c: tsapi_conf_flush() and tsapi_conf_flush_local().
use cns_virtblk_ts.Base.{[]}
use cns_virtblk_ts.Base.Text.{Bytes}
use cns_virtblk_ts.Base.Exec.{ok, err, Status, Exec}
use cns_virtblk_ts.Te.{TeLib}
use cns_virtblk_ts.Te.Files.{tsapi_put_str_to_agt_file, tsapi_put_str_to_local_file}
use cns_virtblk_ts.Conf.{Conf, flush_conf_to_str}

module _ {W : Type 0} (te : TeLib W) where
  abbrev pub put_flushed : (Bytes → Exec W Unit) → Status × Bytes × W → Status × W
  put_flushed put (ok _, config_str, w) = put config_str w
  put_flushed put (err e, config_str, w) = (err e, w)

  unfoldable pub tsapi_conf_flush : Conf → Bytes → Exec W Unit
  tsapi_conf_flush conf path w =
      put_flushed (λ str. tsapi_put_str_to_agt_file te str path) (flush_conf_to_str te conf [] w)

  unfoldable pub tsapi_conf_flush_local : Conf → Bytes → Exec W Unit
  tsapi_conf_flush_local conf path w =
      put_flushed (λ str. tsapi_put_str_to_local_file te str path) (flush_conf_to_str te conf [] w)
