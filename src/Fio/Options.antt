-- ===== src/Fio/Options.antt =====
-- block-ts/lib/tsapi-fio.c: reading the options of FIO from the parameters of a test.
use cns_virtblk_ts.Base.{
  ℕ, Bool, true, Option, none, some, List, [], ◌∷◌, ◌++◌, take, if◌then◌else◌,
}
use cns_virtblk_ts.Base.Text.{Bytes, codes}
use cns_virtblk_ts.Base.Exec.{Result, Exec, pure, lift, ◌>>=◌}
use cns_virtblk_ts.Te.{TeLib}
use cns_virtblk_ts.Backend.{CfgLib}
use cns_virtblk_ts.Fio.{WaitOpts}
use cns_virtblk_ts.Virtio.{PciLib, tsapi_get_devices}

-- The options that the suite reads. A number is the bits of an int or an unsigned int, the value of an
-- enumeration is its number, and a text that is `none` is NULL.
pub record FioOpts : Type 0 where
  pub filename : Option Bytes
  pub direct : Bool
  pub rand_gen : Option Bytes
  pub blocksize : ℕ
  pub ioengine : ℕ
  pub rwtype : ℕ
  pub runtime_sec : ℕ
  pub iodepth : ℕ
  pub numjobs : ℕ
  pub rwmixread : ℕ
  pub name : Option Bytes
  pub user : Option Bytes
  pub rbdname : Option Bytes
  pub pool : Option Bytes
  pub size : Option Bytes

-- The parameters in argv: whether there is one of a name, and its value. An error ends the test.
pub record ParamLib : Type 0 where
  pub test_find_param : Bytes → Bool
  pub test_get_uint_param : Bytes → Result ℕ
  pub test_get_int_param : Bytes → Result ℕ
  pub test_get_string_param : Bytes → Result Bytes
  pub test_get_fio_numjobs_param : Bytes → Result ℕ
  pub get_ioengine_param : Bytes → Result ℕ
  pub get_rwtype_param : Bytes → Result ℕ

-- TE_SPRINTF() into a buffer of 256 bytes.
unfoldable pub fio_suffix : Bytes → Bytes → Bytes
fio_suffix opt suffix = take 255 (opt ++ suffix)

abbrev pub wait_of : FioOpts → WaitOpts
wait_of opts = record {
  numjobs = opts.numjobs;
  blocksize = opts.blocksize;
  runtime_sec = opts.runtime_sec;
}

module _ (params : ParamLib) {W : Type 0} where
  open params use {
    test_find_param, test_get_uint_param, test_get_int_param, test_get_string_param,
    test_get_fio_numjobs_param, get_ioengine_param, get_rwtype_param,
  }

  abbrev pub some_text : Exec W Bytes → Exec W (Option Bytes)
  some_text m = m >>= λ s. pure (some s)

  -- FIO_HAS_PARAM() and FIO_STRING_PARAM(): the first does not look at the suffix.
  unfoldable pub optional : Bytes → Bytes → Option Bytes → Exec W (Option Bytes)
  optional name suffix old =
      if test_find_param name
      then some_text (lift (test_get_string_param (fio_suffix name suffix)))
      else pure old

  unfoldable pub tsapi_fio_opts_read_suf : FioOpts → Bytes → Exec W FioOpts
  tsapi_fio_opts_read_suf opts suffix = do
    blocksize ← lift (test_get_uint_param (fio_suffix (codes "blocksize") suffix))
    ioengine ← lift (get_ioengine_param (fio_suffix (codes "ioengine") suffix))
    rwtype ← lift (get_rwtype_param (fio_suffix (codes "rwtype") suffix))
    runtime_sec ← lift (test_get_int_param (fio_suffix (codes "runtime_sec") suffix))
    iodepth ← lift (test_get_uint_param (fio_suffix (codes "iodepth") suffix))
    numjobs ← lift (test_get_fio_numjobs_param (fio_suffix (codes "numjobs") suffix))
    rwmixread ← lift (test_get_uint_param (fio_suffix (codes "rwmixread") suffix))
    name ← optional (codes "name") suffix opts.name
    user ← optional (codes "user") suffix opts.user
    rbdname ← optional (codes "rbdname") suffix opts.rbdname
    pool ← optional (codes "pool") suffix opts.pool
    size ← optional (codes "size") suffix opts.size
    pure (record {
      filename = opts.filename;
      direct = true;
      rand_gen = some (codes "tausworthe64");
      blocksize = blocksize;
      ioengine = ioengine;
      rwtype = rwtype;
      runtime_sec = runtime_sec;
      iodepth = iodepth;
      numjobs = numjobs;
      rwmixread = rwmixread;
      name = name;
      user = user;
      rbdname = rbdname;
      pool = pool;
      size = size;
    })

-- blocks[0]; tsapi_get_devices() gives no empty list where it succeeds.
abbrev pub first : List Bytes → Option Bytes
first [] = none
first (b ∷ bs) = some b

abbrev pub with_filename : Option Bytes → FioOpts → FioOpts
with_filename f opts = record opts { filename = f }

module _ (params : ParamLib) {W : Type 0} (te : TeLib W) (cfg : CfgLib W) (pci : PciLib W) where
  unfoldable pub tsapi_fio_opts_read : FioOpts → Bytes → Exec W FioOpts
  tsapi_fio_opts_read opts ta = do
    found ← tsapi_get_devices te cfg pci ta
    tsapi_fio_opts_read_suf params (with_filename (first found.0) opts) []
