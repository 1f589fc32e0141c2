-- ===== src/Fio/Tests.antt =====
-- Runs of the FIO code, and its theorems at concrete inputs.
use cns_virtblk_ts.Base.{◌-◌, ◌^◌, ◌≤◌, ◌≡◌, refl, arith, [], ◌∷◌, length, none, some, true}
use cns_virtblk_ts.Base.Text.{codes, strcmp}
use cns_virtblk_ts.Base.Exec.{ok, err, efail}
use cns_virtblk_ts.Te.Model.{Files, files, files-IsDocumented, files-IsPlentiful}
use cns_virtblk_ts.BlkProxy.Masks.{ReportLib}
use cns_virtblk_ts.Fio.{
  WaitOpts, FioContext, FioLib, get_timeout, additional, init_from, tsapi_fio_multi_init,
  tsapi_fio_multi_fini,
}
use cns_virtblk_ts.Fio.Report.{add_fio_arg_to_mi_log, add_fio_arg-key}
use cns_virtblk_ts.Fio.Multi.{IsCount, get_timeout-negative, multi_fini-init}
use cns_virtblk_ts.Fio.Options.{FioOpts, fio_suffix, optional, tsapi_fio_opts_read_suf}
use cns_virtblk_ts.Fio.Reading.{IsFilled, read_suf-IsFilled}
use cns_virtblk_ts.Package.Model.{params, defaults}

-- The MI log is a list of keys with their values.
abbrev logger : ReportLib Files
logger = record {
  te_strtoul = λ s. err efail;
  te_strtol = λ s. err efail;
  te_kvpairs_get = λ ps k. none;
  te_kvpair_add = λ ps k v w. (ok ps, w);
  te_mi_logger_add_meas_key = λ k v w. (ok tt, (k, v) ∷ w);
  decimal = λ n. [];
}

add_fio_arg-key_example :
    (w' : Files) × (add_fio_arg_to_mi_log files logger (codes "iodepth=32") []
      ≡ logger.te_mi_logger_add_meas_key (codes "FIO-iodepth") (codes "32") w')
add_fio_arg-key_example =
    add_fio_arg-key files logger files-IsDocumented files-IsPlentiful (codes "iodepth") (codes "32")
      [] (omega arith)

abbrev drop_one : Files → Files
drop_one [] = []
drop_one (f ∷ fs) = fs

length-drop_one : (w : Files) → length (drop_one w) ≡ length w - 1
length-drop_one [] = refl
length-drop_one (f ∷ fs) = omega arith

-- The files count as the factories that are there.
abbrev processes : FioLib Files
processes = record {
  rounded = λ n. n;
  timeout_default = 1000;
  tapi_fio_wait = λ n w. (ok tt, w);
  rcf_rpc_server_create_process = λ name w. (ok 5, w);
  rcf_rpc_server_destroy = λ r w. (ok tt, w);
  tapi_job_factory_rpc_create = λ r w. (ok 6, ([], []) ∷ w);
  tapi_job_factory_destroy = λ f w. drop_one w;
  decimal = λ n. codes "0";
}

abbrev long_run : WaitOpts
long_run = record { numjobs = 250; blocksize = 4096; runtime_sec = 600 }

get_timeout-negative_example : 2 ^ 15 ≤ get_timeout files processes long_run additional
get_timeout-negative_example = get_timeout-negative files processes long_run (omega arith)

processes-IsCount : IsCount files processes length
processes-IsCount = record {
  created = λ r f w h. omega arith;
  destroyed = λ f w. length-drop_one w;
  append_keeps = λ s t w. refl;
  start_keeps = λ name w. refl;
  stop_keeps = λ r w. refl;
}

abbrev context : FioContext
context = record { forked_rpcs = 5; forked_factory = 6 }

two_processes : (tsapi_fio_multi_init files processes 2 []).0 ≡ ok (context ∷ context ∷ [])
unfolding tsapi_fio_multi_init init_from
two_processes = refl

all_finished :
    (tsapi_fio_multi_fini files processes
      (context ∷ context ∷ [])
      (tsapi_fio_multi_init files processes 2 []).1).0
    ≡ ok tt
unfolding tsapi_fio_multi_fini
all_finished = refl

multi_fini-init_example :
    length
      (tsapi_fio_multi_fini files processes
        (context ∷ context ∷ [])
        (tsapi_fio_multi_init files processes 2 []).1).1
    ≡ 0
multi_fini-init_example =
    multi_fini-init files processes length processes-IsCount 2 (context ∷ context ∷ []) []
      two_processes all_finished

-- With the suffix, the name is that of the parameter with the suffix, and there is no user.
abbrev second_opts : FioOpts
second_opts = record defaults {
  direct = true;
  rand_gen = some (codes "tausworthe64");
  blocksize = 4096;
  ioengine = 1;
  rwtype = 3;
  runtime_sec = 10;
  iodepth = 4096;
  numjobs = 2;
  rwmixread = 4096;
  name = some (codes "name_second");
  size = some (codes "size_second");
}

second_opts-read :
    (tsapi_fio_opts_read_suf params {W = Files} defaults (codes "_second") []).0 ≡ ok second_opts
unfolding tsapi_fio_opts_read_suf optional fio_suffix strcmp
second_opts-read = refl

read_suf-IsFilled_example : IsFilled params defaults (codes "_second") second_opts
read_suf-IsFilled_example =
    read_suf-IsFilled params defaults second_opts (codes "_second") [] second_opts-read
