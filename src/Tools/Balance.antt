-- ===== src/Tools/Balance.antt =====
-- block-ts/lib/tool: which jobs are left by making and destroying the benchmarks.
use cns_virtblk_ts.Base.{
  ℕ, ◌+◌, ◌-◌, ◌≡◌, refl, ◌∙◌, arith, ◌++◌, Option, none, some, List, [], if◌then◌else◌,
}
use cns_virtblk_ts.Base.Text.{Bytes, codes}
use cns_virtblk_ts.Base.Exec.{◌>>=◌}
use cns_virtblk_ts.Te.{TeLib}
use cns_virtblk_ts.Backend.{CfgLib}
use cns_virtblk_ts.Ceph.Jobs.{JobLib}
use cns_virtblk_ts.Ceph.Live.{succeeded}
use cns_virtblk_ts.Tools.{ToolBind, App, ToolLib, app_allocated, create_common, tool_destroy}
use cns_virtblk_ts.Tools.Create.{
  CompilebenchOpts, DbenchOpts, FsmarkOpts, IozoneOpts, Make, aside, make_app, write_filter,
  add_results_filter, get_compilebench_sources, get_client_txt_location, file_in, destroyed,
  dir_oid, fsmark_binds, tsapi_compilebench_create, tsapi_dbench_create, tsapi_fsmark_create,
  tsapi_iozone_create,
}
use cns_virtblk_ts.Tools.Owned.{
  Keeps, Makes, with_own, Stays, Fresh, continue-Keeps, continue-Makes, continue-pure,
  app_allocated-live, aside-Stays, >>=-Stays, >>=-Fresh, aside-Fresh, agent-Fresh, written,
  write_filter-Stays, formatted-live,
}

-- `live` counts the jobs: making one adds one where it succeeds, destroying one takes one away, and the
-- other operations leave it as it is.
pub record IsJobCount {W : Type 0} (te : TeLib W) (cfg : CfgLib W) (jobs : JobLib W)
    (lib : ToolLib W) (live : W → ℕ) : Type 0 where
  pub append_keeps : (s t : Bytes) (w : W) → live (te.te_string_append s t w).2 ≡ live w
  pub get_keeps : (oid : Bytes) (w : W) → live (cfg.cfg_get_instance_fmt oid w).1 ≡ live w
  pub sync_keeps : (oid : Bytes) (w : W) → live (lib.cfg_get_instance_sync_fmt oid w).1 ≡ live w
  pub alloc_keeps : (w : W) → live (lib.te_alloc w).1 ≡ live w
  pub build_keeps :
      (bin : Bytes) (binds : List ToolBind) (w : W)
      → live (lib.tapi_job_opt_build_args bin binds w).1 ≡ live w
  pub job_made :
      (factory : ℕ) (args : List Bytes) (re : Option Bytes) (w : W)
      → live (lib.tapi_job_simple_create factory args re w).1 ≡ (
          if succeeded (lib.tapi_job_simple_create factory args re w).0 then live w + 1 else live w)
  pub job_destroyed : (j ms : ℕ) (w : W) → live (jobs.tapi_job_destroy (some j) ms w).1 ≡ live w - 1
  pub attach_keeps :
      (channel : Option ℕ) (name : Bytes) (w : W)
      → live (jobs.tapi_job_attach_filter channel name w).1 ≡ live w
  pub regexp_keeps :
      (filter : ℕ) (re : Bytes) (w : W)
      → live (jobs.tapi_job_filter_add_regexp filter re w).1 ≡ live w

module _ {W : Type 0} (te : TeLib W) (cfg : CfgLib W) (jobs : JobLib W) (lib : ToolLib W)
    (live : W → ℕ) (count : IsJobCount te cfg jobs lib live) where
  create_common-Makes :
      (bin : Bytes) (binds : List ToolBind) (re : Option Bytes) (factory : ℕ)
      → Makes te cfg jobs lib live (create_common jobs lib bin binds re factory)
  unfolding create_common
  create_common-Makes bin binds re factory w =
      let a = app_allocated jobs lib (lib.te_alloc w) in
      continue-Makes te cfg jobs lib live (live w) a.0 _ a.1
        (app_allocated-live te cfg jobs lib live (lib.te_alloc w) ∙ count.alloc_keeps w)
        (λ _ w1.
          let b = lib.tapi_job_opt_build_args bin binds w1 in
          continue-Makes te cfg jobs lib live (live w1) b.0 _ b.1 (count.build_keeps bin binds w1)
            (λ args w2.
              let c = lib.tapi_job_simple_create factory args re w2 in
              continue-pure te cfg jobs lib live (live w2) c.0 _ c.1
                (count.job_made factory args re w2)))

  make_app-Fresh :
      (bin : Bytes) (binds : List ToolBind) (re : Option Bytes) (factory : ℕ)
      → Fresh te cfg jobs lib live (make_app te cfg jobs lib bin binds re factory)
  unfolding make_app
  make_app-Fresh bin binds re factory w =
      let r = create_common jobs lib bin binds re factory w in
      written te cfg jobs lib live (live w) r.0 r.1 (create_common-Makes bin binds re factory w)

  add_results_filter-Stays :
      (re : Bytes) (app : App)
      → Stays te cfg jobs lib live (add_results_filter te cfg jobs lib re app)
  unfolding add_results_filter
  add_results_filter-Stays re app =
      let attach = jobs.tapi_job_attach_filter (some app.out) [] in
      >>=-Stays te cfg jobs lib live (aside te cfg jobs lib attach) _
        (aside-Stays te cfg jobs lib live attach (count.attach_keeps (some app.out) []))
        (λ filter.
          >>=-Stays te cfg jobs lib live (write_filter te cfg jobs lib filter)
            (λ _. aside te cfg jobs lib (jobs.tapi_job_filter_add_regexp filter re))
            (write_filter-Stays te cfg jobs lib live filter)
            (λ _.
              aside-Stays te cfg jobs lib live (jobs.tapi_job_filter_add_regexp filter re)
                (count.regexp_keeps filter re)))

  get_sources-Keeps :
      (ta : Bytes) (dir : Option Bytes)
      → Keeps te cfg jobs lib live (get_compilebench_sources te cfg jobs lib ta dir)
  unfolding get_compilebench_sources
  get_sources-Keeps ta (some dir) w = refl
  get_sources-Keeps ta none w =
      let r = cfg.cfg_get_instance_fmt (dir_oid te cfg jobs lib ta) w in
      continue-Keeps te cfg jobs lib live r.0 _ r.1 (λ _ w1. refl)
      ∙ count.get_keeps (dir_oid te cfg jobs lib ta) w

  get_location-Keeps :
      (ta : Bytes) (file : Option Bytes)
      → Keeps te cfg jobs lib live (get_client_txt_location te cfg jobs lib ta file)
  unfolding get_client_txt_location
  get_location-Keeps ta (some file) w = refl
  get_location-Keeps ta none w =
      let r = lib.cfg_get_instance_sync_fmt (dir_oid te cfg jobs lib ta) w in
      continue-Keeps te cfg jobs lib live r.0 _ r.1 (λ _ w1. refl)
      ∙ count.sync_keeps (dir_oid te cfg jobs lib ta) w

  file_in-Keeps :
      (file dir : Option Bytes) → Keeps te cfg jobs lib live (file_in te cfg jobs lib file dir)
  file_in-Keeps (some file) dir w = refl
  file_in-Keeps none none w = refl
  file_in-Keeps none (some dir) w =
      formatted-live te cfg jobs lib live
        (te.te_string_append [] (dir ++ codes "/file_under_test") w)
      ∙ count.append_keeps [] (dir ++ codes "/file_under_test") w

  with_filter-Fresh :
      (bin : Bytes) (binds : List ToolBind) (re : Option Bytes) (factory : ℕ) (results : Bytes)
      → Fresh te cfg jobs lib live (
          make_app te cfg jobs lib bin binds re factory
          >>= add_results_filter te cfg jobs lib results)
  with_filter-Fresh bin binds re factory results =
      >>=-Fresh te cfg jobs lib live (make_app te cfg jobs lib bin binds re factory) _
        (make_app-Fresh bin binds re factory) (add_results_filter-Stays results)

  pub compilebench-Fresh :
      (opt : CompilebenchOpts) (factory : ℕ)
      → Fresh te cfg jobs lib live (tsapi_compilebench_create te cfg jobs lib opt factory)
  unfolding tsapi_compilebench_create
  compilebench-Fresh opt factory =
      agent-Fresh te cfg jobs lib live (lib.tapi_job_factory_ta factory) _ (λ ta.
        aside-Fresh te cfg jobs lib live
          (get_compilebench_sources te cfg jobs lib ta opt.sources_dir) _
          (get_sources-Keeps ta opt.sources_dir) (λ dir. with_filter-Fresh _ _ _ factory _))

  pub dbench-Fresh :
      (opt : DbenchOpts) (factory : ℕ)
      → Fresh te cfg jobs lib live (tsapi_dbench_create te cfg jobs lib opt factory)
  unfolding tsapi_dbench_create
  dbench-Fresh opt factory =
      agent-Fresh te cfg jobs lib live (lib.tapi_job_factory_ta factory) _ (λ ta.
        aside-Fresh te cfg jobs lib live
          (get_client_txt_location te cfg jobs lib ta opt.client_txt_location) _
          (get_location-Keeps ta opt.client_txt_location)
          (λ file. with_filter-Fresh _ _ _ factory _))

  pub fsmark-Fresh :
      (opt : FsmarkOpts) (factory : ℕ)
      → Fresh te cfg jobs lib live (tsapi_fsmark_create te cfg jobs lib opt factory)
  unfolding tsapi_fsmark_create
  fsmark-Fresh opt factory =
      >>=-Fresh te cfg jobs lib live
        (make_app te cfg jobs lib (codes "fs_mark") (fsmark_binds opt) none factory) _
        (make_app-Fresh (codes "fs_mark") (fsmark_binds opt) none factory)
        (λ app.
          let attach = jobs.tapi_job_attach_filter (some app.out) (codes "fsmark stdout") in
          >>=-Stays te cfg jobs lib live (aside te cfg jobs lib attach) _
            (aside-Stays te cfg jobs lib live attach
              (count.attach_keeps (some app.out) (codes "fsmark stdout")))
            (λ filter n s h. h))

  pub iozone-Fresh :
      (opt : IozoneOpts) (dir : Option Bytes) (factory : ℕ)
      → Fresh te cfg jobs lib live (tsapi_iozone_create te cfg jobs lib opt dir factory)
  unfolding tsapi_iozone_create
  iozone-Fresh opt dir factory =
      aside-Fresh te cfg jobs lib live (file_in te cfg jobs lib opt.file_under_test dir) _
        (file_in-Keeps opt.file_under_test dir) (λ file. with_filter-Fresh _ _ _ factory _)

  pub destroyed-live :
      (n : ℕ) (app : Option App) (w : W)
      → live w ≡ with_own te cfg jobs lib live n app
      → live (tool_destroy jobs lib app w).1 ≡ n
  unfolding tool_destroy
  destroyed-live n none w h = h
  destroyed-live n (some app) w h = count.job_destroyed app.job 1000 w ∙ omega (arith, h)

  Fresh-destroyed :
      {A : Type 0} (m : Make te cfg jobs lib A) (w : W)
      → Fresh te cfg jobs lib live m
      → live (destroyed te cfg jobs lib m w) ≡ live w
  Fresh-destroyed m w h = destroyed-live (live w) (m (none, w)).1.0 (m (none, w)).1.1 (h w)

  -- Where `live` counts the jobs: for each of the four benchmarks, whatever step of making it fails,
  -- destroying the application that the caller's pointer then holds, which was NULL before, leaves as
  -- many jobs as there were.
  pub tools-balance :
      (c : CompilebenchOpts) (d : DbenchOpts) (f : FsmarkOpts) (i : IozoneOpts) (dir : Option Bytes)
      (factory : ℕ) (w : W)
      → (live (destroyed te cfg jobs lib (tsapi_compilebench_create te cfg jobs lib c factory) w)
          ≡ live w)
        × (live (destroyed te cfg jobs lib (tsapi_dbench_create te cfg jobs lib d factory) w)
            ≡ live w)
        × (live (destroyed te cfg jobs lib (tsapi_fsmark_create te cfg jobs lib f factory) w)
            ≡ live w)
        × (live (destroyed te cfg jobs lib (tsapi_iozone_create te cfg jobs lib i dir factory) w)
            ≡ live w)
  tools-balance c d f i dir factory w = (
    Fresh-destroyed (tsapi_compilebench_create te cfg jobs lib c factory) w
        (compilebench-Fresh c factory),
    Fresh-destroyed (tsapi_dbench_create te cfg jobs lib d factory) w (dbench-Fresh d factory),
    Fresh-destroyed (tsapi_fsmark_create te cfg jobs lib f factory) w (fsmark-Fresh f factory),
    Fresh-destroyed (tsapi_iozone_create te cfg jobs lib i dir factory) w
        (iozone-Fresh i dir factory),
  )
