-- ===== src/Conf/Written.antt =====
-- What writing a configuration to a file puts there.
use cns_virtblk_ts.Base.{◌≡◌, refl, []}
use cns_virtblk_ts.Base.Text.{Bytes}
use cns_virtblk_ts.Base.Exec.{ok, err, Status, Exec}
use cns_virtblk_ts.Te.{TeLib, IsDocumented, IsPlentiful}
use cns_virtblk_ts.Te.Files.{tsapi_put_str_to_agt_file, tsapi_put_str_to_local_file}
use cns_virtblk_ts.Conf.{Conf, flush_conf_to_str}
use cns_virtblk_ts.Conf.Flush.{print, flush-print}
use cns_virtblk_ts.Conf.Write.{put_flushed, tsapi_conf_flush, tsapi_conf_flush_local}

module _ {W : Type 0} (te : TeLib W) where
  put_flushed-ok :
      (put : Bytes → Exec W Unit) (r : Status × Bytes × W) (str : Bytes)
      → r.0 ≡ ok tt
      → r.1 ≡ str
      → put_flushed te put r ≡ put str r.2
  put_flushed-ok put (ok u, s, w) str h k = rw k refl
  put_flushed-ok put (err e, s, w) str h k = cc

  -- Where the library works as documented and no request for memory fails, writing a configuration
  -- to an agent and writing it to the engine put the same text to the file, the text of the
  -- configuration, and return the status of that.
  conf_flush-put :
      (doc : IsDocumented te) (p : IsPlentiful te) (conf : Conf) (path : Bytes) (w : W)
      → (w' : W) × (tsapi_conf_flush te conf path w
          ≡ tsapi_put_str_to_agt_file te (print conf) path w')
        × (tsapi_conf_flush_local te conf path w
            ≡ tsapi_put_str_to_local_file te (print conf) path w')
  unfolding tsapi_conf_flush tsapi_conf_flush_local
  conf_flush-put doc p conf path w =
      let (done, text) = flush-print te doc p conf [] w in
      let r = flush_conf_to_str te conf [] w in
      (
        r.2,
        put_flushed-ok (λ str. tsapi_put_str_to_agt_file te str path) r (print conf) done text,
        put_flushed-ok (λ str. tsapi_put_str_to_local_file te str path) r (print conf) done text,
      )
