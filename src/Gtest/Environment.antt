-- ===== src/Gtest/Environment.antt =====
-- The errors of block_ts_gtest_setenv().
use cns_virtblk_ts.Base.{◌≡◌, refl, some}
use cns_virtblk_ts.Base.Text.{Bytes, codes}
use cns_virtblk_ts.Base.Exec.{Errno, ok, err}
use cns_virtblk_ts.Te.{TeLib}
use cns_virtblk_ts.Rbd.{EnvLib, block_ts_test_specific_setenv}
use cns_virtblk_ts.Ceph.Jobs.{JobLib}
use cns_virtblk_ts.Gtest.{GtestLib, env_status, gtest_setenv_ld_preload, block_ts_gtest_setenv}

module _ {W : Type 0} (te : TeLib W) (rpc : EnvLib W) (jobs : JobLib W) (lib : GtestLib W) where
  -- When CEPH_LIB is set and the steps before it succeed: an error of setting LD_PRELOAD that is not one
  -- of the RPC server, as a string that could not be made, is lost. The function returns 0, and no job
  -- factory has been made.
  setenv_loses_error :
      (ceph_lib features : Bytes) (e : Errno) (w w1 w2 w3 : W)
      → te.getenv (codes "CEPH_LIB") ≡ some ceph_lib
      → env_status te rpc jobs lib (rpc.rpc_setenv (codes "CEPH_LIB") ceph_lib w) ≡ (ok tt, w1)
      → block_ts_test_specific_setenv te rpc features w1 ≡ (ok tt, w2)
      → gtest_setenv_ld_preload te rpc jobs lib ceph_lib (te.getenv (codes "ONLOAD_LIB")) w2
        ≡ (err e, w3)
      → rpc.rpc_errno w3 ≡ ok tt
      → block_ts_gtest_setenv te rpc jobs lib features w ≡ (ok tt, w3)
  unfolding block_ts_gtest_setenv
  setenv_loses_error ceph_lib features e w w1 w2 w3 c h1 h2 h3 h4 =
      rw (c, block_ts_gtest_setenv) (rw h1 (rw h2 (rw h3 (rw h4 refl))))
