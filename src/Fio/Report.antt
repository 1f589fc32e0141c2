-- ===== src/Fio/Report.antt =====
-- block-ts/lib/tsapi-fio.c: what the MI log says of a run of FIO.
use cns_virtblk_ts.Base.{
  ℕ, ◌-◌, ◌+◌, ◌≡◌, refl, Bool, Option, none, some, List, [], ◌∷◌, ◌++◌, length, drop,
  if◌then◌else◌, length-append, arith, drop_behind,
}
use cns_virtblk_ts.Base.Text.{Bytes, codes, strstr, Lacks, strstr-append}
use cns_virtblk_ts.Base.Exec.{Result, ok, err, efail, Status, Exec, pure, raise, ◌>>=◌, ◌>>◌}
use cns_virtblk_ts.Te.{TeLib, IsDocumented, IsPlentiful}
use cns_virtblk_ts.Conf.{Conf}
use cns_virtblk_ts.Conf.Read.{tsapi_conf_read_from_file}
use cns_virtblk_ts.Backend.Inventory.{append_result}
use cns_virtblk_ts.Backend.Devices.{append_result_lem}
use cns_virtblk_ts.BlkProxy.Masks.{ReportLib, tsapi_blkproxy_add_conf_to_mi_log}

-- TSAPI_FIO_ARGS_FOR_MI_LOG
abbrev pub list_args : List Bytes
list_args =
    codes "iodepth"
    ∷ codes "blocksize"
    ∷ codes "rwmixread"
    ∷ codes "readwrite"
    ∷ codes "numjobs"
    ∷ []

module _ {W : Type 0} (te : TeLib W) (lib : ReportLib W) where
  open te use {te_string_append, te_string_cut, strcmp_start}
  open lib use {te_mi_logger_add_meas_key}

  abbrev pub joined_to : Bytes → Bytes → Exec W Bytes
  joined_to s t w = append_result (te_string_append s t w)

  unfoldable pub add_fio_arg_at : Bytes → Option ℕ → Exec W Unit
  add_fio_arg_at arg none = raise efail
  add_fio_arg_at arg (some i) = do
    key ← joined_to [] (codes "FIO-" ++ arg)
    val ← joined_to [] (drop (i + 1) arg)
    te_mi_logger_add_meas_key (te_string_cut key (length arg - i)) val

  unfoldable pub add_fio_arg_to_mi_log : Bytes → Exec W Unit
  add_fio_arg_to_mi_log arg = add_fio_arg_at arg (strstr arg (b'=' ∷ []))

  -- The loop over list_args.
  unfoldable pub log_listed : List Bytes → Bytes → Exec W Unit
  log_listed [] arg = pure tt
  log_listed (l ∷ ls) arg =
      (if strcmp_start l arg then add_fio_arg_to_mi_log arg else pure tt) >> log_listed ls arg

  -- The loop over list_exclude_args, which has one element.
  unfoldable pub add_to_command : Bytes → Bytes → Exec W Bytes
  add_to_command arg cmd =
      if strcmp_start (codes "output") (drop 2 arg) then pure cmd else joined_to cmd (32 ∷ arg)

  -- The loop over the arguments up to the one that is NULL.
  unfoldable pub add_args : List Bytes → Bytes → Exec W Bytes
  add_args [] cmd = pure cmd
  add_args (arg ∷ args) cmd =
      if strcmp_start (codes "--") arg
      then (do log_listed list_args (drop 2 arg); cmd' ← add_to_command arg cmd; add_args args cmd')
      else add_args args cmd

  unfoldable pub tsapi_fio_args_to_mi_log : List Bytes → Exec W Unit
  tsapi_fio_args_to_mi_log args = do
    cmd ← joined_to [] (codes "fio")
    cmd' ← add_args args cmd
    te_mi_logger_add_meas_key (codes "FIO-cmd") cmd'

  abbrev conf_read : Status × Conf × W → Result Conf × W
  conf_read (ok _, conf, w) = (ok conf, w)
  conf_read (err e, conf, w) = (err e, w)

  -- The parameters are te_mi_logger_meas_create() and tapi_fio_mi_report() for the report,
  -- te_mi_logger_destroy(), the value of TE_TMP and the directory of the agent.
  unfoldable pub tsapi_fio_mi_report :
      Exec W Unit
      → Exec W Unit
      → Exec W Unit
      → Bytes
      → Bytes
      → Bytes
      → Bytes
      → Bool
      → List Bytes
      → Exec W Unit
  tsapi_fio_mi_report create report destroy te_tmp dir blk_proxy_conf ta multipath args = do
    create
    report
    conf ← (λ w. conf_read (
        tsapi_conf_read_from_file te te_tmp ta (dir ++ b'/' ∷ (blk_proxy_conf ++ codes ".conf")) []
          w))
    tsapi_blkproxy_add_conf_to_mi_log te lib conf multipath
    tsapi_fio_args_to_mi_log args
    destroy

  -- Where the library works as documented and no request for memory fails, an argument key=value
  -- whose key has no equals sign is logged as the key FIO-key with the value.
  pub add_fio_arg-key :
      (doc : IsDocumented te) (p : IsPlentiful te) (key value : Bytes) (w : W)
      → Lacks b'=' key
      → (w' : W) × (add_fio_arg_to_mi_log (key ++ b'=' ∷ value) w
          ≡ te_mi_logger_add_meas_key (codes "FIO-" ++ key) value w')
  unfolding add_fio_arg_to_mi_log add_fio_arg_at
  add_fio_arg-key doc p key value w h =
      let arg = key ++ b'=' ∷ value in
      let w1 = (te_string_append [] (codes "FIO-" ++ arg) w).2 in
      let room = p.appends [] (codes "FIO-" ++ arg) w in
      let e1 =
        append_result_lem (te_string_append [] (codes "FIO-" ++ arg) w) (codes "FIO-" ++ arg) room
          (doc.append_ok [] (codes "FIO-" ++ arg) w room) in
      let room' = p.appends [] value w1 in
      let e2 =
        append_result_lem (te_string_append [] value w1) value room'
          (doc.append_ok [] value w1 room') in
      let cut : length arg - length key ≡ length (b'=' ∷ value) =
        omega (arith, length-append key (b'=' ∷ value)) in
      (
        (te_string_append [] value w1).2,
        rw
            (
              strstr-append b'=' key value h,
              e1,
              drop_behind key value b'=',
              e2,
              cut,
              doc.cut_lem (codes "FIO-" ++ key) (b'=' ∷ value),
            )
            refl,
      )
