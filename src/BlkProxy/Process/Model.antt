-- ===== src/BlkProxy/Process/Model.antt =====
-- A concrete instance of what the blk-proxy process calls, to run the model on.
use cns_virtblk_ts.Base.{
  ℕ, ◌==◌, ◌≡◌, refl, ap, sym, Bool, true, false, Option, none, some, List, [], ◌∷◌, ◌++◌, map,
  if◌then◌else◌,
}
use cns_virtblk_ts.Base.Text.{Bytes, codes}
use cns_virtblk_ts.Base.Exec.{Result, ok, err, efail}
use cns_virtblk_ts.Te.{TeLib, IsPlentiful}
use cns_virtblk_ts.Backend.{CfgLib}
use cns_virtblk_ts.Backend.Inventory.{ServerLib}
use cns_virtblk_ts.BlkProxy.Process.{Bind, opt_uint, opt_string, opt_custom, LaunchLib}
use cns_virtblk_ts.BlkProxy.Launch.{Entry, exe, env, arg, IsLog}
use cns_virtblk_ts.BlkProxy.Arguments.{Renders, IsOptions}

-- The entries of the Configurator, and whether the process runs.
abbrev pub World : Type 0
World = List Entry × Bool

abbrev pub te : TeLib World
te = record {
  te_string_append = λ s t w. (ok tt, s ++ t, w);
  te_vec_append = λ w. (ok tt, w);
  strdup = λ w. (true, w);
  after_block = λ w. [];
  after_arg = λ arg w. [];
  te_string_cut = λ s n. s;
  strcmp_start = λ p s. false;
  te_str_strip_spaces = λ s. s;
  getenv = λ v. none;
  rcf_ta_get_file = λ ta remote local w. (err efail, w);
  fopen_read = λ p w. (err efail, w);
  fopen_write = λ p w. (err efail, w);
  fwrite = λ p t w. (err efail, w);
  rpc_open = λ p w. (none, w);
  rpc_write_and_close = λ fd t w. (0, w);
  rpc_errno = λ w. ok tt;
}

pub te-IsPlentiful : IsPlentiful te
te-IsPlentiful = record { appends = λ s t w. refl; grows = λ w. refl; copies = λ w. refl }

-- Onload is used, and its path is this value too.
abbrev pub cfg : CfgLib World
cfg = record {
  cfg_find_pattern = λ p w. (ok (7 ∷ []), w);
  no_instance = λ w. 0;
  cfg_get_inst_name = λ i n w. (ok (codes "EF_POLL_USEC"), w);
  cfg_get_instance = λ i w. (ok (codes "100000"), w);
  cfg_get_instance_fmt = λ p w. (ok (codes "yes"), w);
  cfg_add_instance_fmt = λ p v w. (ok tt, w);
  te_kvpair_add = λ ps n v w. (ok (ps ++ (n, v) ∷ []), w);
  te_strtoi = λ s w. (err efail, w);
  decimal = λ n. [];
  null_text = codes "(null)";
}

abbrev pub server : ServerLib World
server = record {
  te_expand_kvpairs = λ s params w. (ok s, w);
  before_block = λ w. 0;
  te_string_append_format = λ s format w. (ok tt, s ++ format, w);
  ferror = λ w. (ok tt, w);
  agent_dir = λ ta. codes "/agt";
  set_timeout = λ n w. w;
  rpc_system_ex = λ s w. (0, w);
  ipstr = [];
  double_quotient = λ a b. 0;
  trap = λ w. (err efail, w);
}

abbrev pub decimal : ℕ → Bytes
decimal n = if n == 1200 then codes "1200" else codes "?"

abbrev pub extended : Result (List Bytes) → Result (List Bytes) → Result (List Bytes)
extended (ok ts) (ok more) = ok (ts ++ more)
extended (ok ts) (err e) = err e
extended (err e) r = err e

abbrev pub render : List (Bind World) → World → Result (List Bytes)
render [] w = ok []
render (opt_uint p n ∷ bs) w = extended (ok (p ∷ decimal n ∷ [])) (render bs w)
render (opt_string p (some s) ∷ bs) w = extended (ok (p ∷ s ∷ [])) (render bs w)
render (opt_string p none ∷ bs) w = render bs w
render (opt_custom f ∷ bs) w = extended (f [] w).0 (render bs w)

abbrev pub with_ends : Bytes → Result (List Bytes) → Result (List (Option Bytes))
with_ends path (ok ts) = ok (some path ∷ (map some ts ++ none ∷ []))
with_ends path (err e) = err e

-- An agent with 8 CPUs, on which a process runs when it is started.
abbrev pub lib : LaunchLib World
lib = record {
  tapi_job_opt_build_args = λ path binds w. (with_ends path (render binds w), w);
  te_vec_append_vec = λ w. (ok tt, w);
  out_of_range = λ w. (err efail, w);
  tapi_cfg_get_all_threads = λ ta w. (ok 8, w);
  cfg_get_inst_name = λ h w. (ok (codes "EF_POLL_USEC"), w);
  cfg_del_instance_fmt = λ p w. (ok tt, w);
  rcf_ta_name2type = λ ta w. (ok (codes "linux"), w);
  te_alloc = λ w. (true, w);
  tapi_cfg_ps_add = λ ta name path w. (ok tt, (w.0 ++ exe ta name path ∷ [], w.1));
  tapi_cfg_ps_add_env = λ ta name k v w. (ok tt, (w.0 ++ env ta name k v ∷ [], w.1));
  tapi_cfg_ps_add_arg = λ ta name n a w. (ok tt, (w.0 ++ arg ta name n a ∷ [], w.1));
  tapi_cfg_ps_start = λ ta name w. (ok tt, (w.0, true));
  tapi_cfg_ps_stop = λ ta name w. (ok tt, (w.0, false));
  tapi_cfg_ps_get_status = λ ta name w. (ok w.1, w);
  te_motivated_sleep = λ n w. w;
  rpc_system = λ s w. (0, w);
}

render-lem :
    (binds : List (Bind World)) (ts : List Bytes) (w : World)
    → Renders decimal binds ts
    → render binds w ≡ ok ts
render-lem [] ts w h = rw h refl
render-lem (opt_uint p n ∷ bs) ts w (rest, e, h) = rw e (rw (render-lem bs rest w h) refl)
render-lem (opt_string p (some s) ∷ bs) ts w (rest, e, h) = rw e (rw (render-lem bs rest w h) refl)
render-lem (opt_string p none ∷ bs) ts w h = render-lem bs ts w h
render-lem (opt_custom f ∷ bs) ts w (own, rest, k, e, h) =
    rw e (rw (k [] w) (rw (render-lem bs rest w h) refl))

pub lib-IsOptions : IsOptions lib decimal
lib-IsOptions = record {
  builds = λ path binds ts w h. ap (with_ends path) (render-lem binds ts w h);
  joins = λ w. refl;
}

abbrev pub log : World → List Entry
log w = w.0

pub lib-IsLog : IsLog lib log
lib-IsLog = record {
  adds_exe = λ ta name path w w' e. ap (λ r. log r.1) (sym e);
  adds_env = λ ta name k v w w' e. ap (λ r. log r.1) (sym e);
  adds_arg = λ ta name n a w w' e. ap (λ r. log r.1) (sym e);
  no_exe = λ w u e. cc;
}
