-- ===== src/Ceph/Logger.antt =====
-- What the logger of Ceph reads when the query for the FSID has failed.
use cns_virtblk_ts.Base.{ℕ, ◌≡◌, refl, Option, none, [], ◌∷◌, ◌++◌}
use cns_virtblk_ts.Base.Text.{Bytes, codes}
use cns_virtblk_ts.Base.Exec.{Errno, ok, err}
use cns_virtblk_ts.Te.{TeLib}
use cns_virtblk_ts.Plugin.{PsLib}
use cns_virtblk_ts.Backend.{CfgLib}
use cns_virtblk_ts.Ceph.Jobs.{
  JobLib, no_common, get_fsid_steps, tsapi_ceph_cleanup, block_ts_ceph_cluster_get_fsid,
}
use cns_virtblk_ts.Ceph.Daemons.{
  DaemonLib, log_dir_path, logger_path, start_tail, block_ts_ceph_start_logger,
}

module _ {W : Type 0} (te : TeLib W) (cfg : CfgLib W) (jobs : JobLib W) (ps : PsLib W)
    (lib : DaemonLib W) where
  -- Where destroying a job always works: when a step of the query for the FSID fails, the logger is
  -- started all the same, on a path in which the FSID is what a NULL pointer is printed as.
  start_logger-no_fsid :
      (ta : Bytes) (e : Errno) (w : W)
      → ((job : Option ℕ) (ms : ℕ) (w' : W) → (jobs.tapi_job_destroy job ms w').0 ≡ ok tt)
      → (get_fsid_steps te jobs [] (no_common, w)).0 ≡ err e
      → (w' : W) × (block_ts_ceph_start_logger te cfg jobs ps lib ta w
          ≡ start_tail te cfg jobs ps lib ta none w')
        × (logger_path te cfg jobs ps lib none
            ≡ log_dir_path ++ b'/' ∷ (cfg.null_text ++ codes "/ceph.log"))
  unfolding block_ts_ceph_start_logger block_ts_ceph_cluster_get_fsid tsapi_ceph_cleanup
  start_logger-no_fsid ta e w h k =
      let (c, v) = (get_fsid_steps te jobs [] (no_common, w)).1 in
      let destroyed = jobs.tapi_job_destroy c.job 30000 v in
      let w' = jobs.tapi_job_factory_destroy c.factory destroyed.1 in
      (w', rw (h c.job 30000 v) (rw k refl), refl)
