-- ===== src/Te/Files.antt =====
-- block-ts/lib/tsapi.c: how a text is put to a file of an agent or of the engine.
use cns_virtblk_ts.Base.{ℕ, ◌==◌, Option, none, some, length, if◌then◌else◌}
use cns_virtblk_ts.Base.Text.{Bytes}
use cns_virtblk_ts.Base.Exec.{ok, Status, Exec, ◌>>◌}
use cns_virtblk_ts.Te.{TeLib}

module _ {W : Type 0} (te : TeLib W) where
  open te use {fopen_write, fwrite, rpc_open, rpc_write_and_close, rpc_errno}

  abbrev write_status : Bytes → ℕ × W → Status × W
  write_status str (rv, w) = (if rv == length str then ok tt else rpc_errno w, w)

  abbrev put_status : Bytes → Option ℕ × W → Status × W
  put_status str (none, w) = (rpc_errno w, w)
  put_status str (some fd, w) = write_status str (rpc_write_and_close fd str w)

  unfoldable pub tsapi_put_str_to_agt_file : Bytes → Bytes → Exec W Unit
  tsapi_put_str_to_agt_file str path w = put_status str (rpc_open path w)

  unfoldable pub tsapi_put_str_to_local_file : Bytes → Bytes → Exec W Unit
  tsapi_put_str_to_local_file str path = do fopen_write path; fwrite path str
