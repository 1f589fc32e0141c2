-- ===== src/BlkProxy/Launch.antt =====
-- What the initialisation of the blk-proxy leaves in the Configurator.
use cns_virtblk_ts.Base.{
  ℕ, ◌+◌, ◌≡◌, refl, ap, ◌∙◌, sym, Option, none, some, List, [], ◌∷◌, ◌++◌, append-nil,
  append_assoc,
}
use cns_virtblk_ts.Base.Text.{Bytes}
use cns_virtblk_ts.Base.Exec.{ok, >>=-run}
use cns_virtblk_ts.Te.{TeLib}
use cns_virtblk_ts.Backend.{CfgLib}
use cns_virtblk_ts.Backend.Inventory.{ServerLib}
use cns_virtblk_ts.BlkProxy.{Handle, Params}
use cns_virtblk_ts.BlkProxy.Process.{
  Opts, LaunchLib, outside, add_env_list, add_arg_list, add_process, set_cpu_mask,
  build_blkproxy_args, build_blkproxy_env, tsapi_blkproxy_init,
}

-- What is put into the Configurator for a process.
pub data Entry : Type 0 where
  exe : Bytes → Bytes → Option Bytes → Entry
  env : Bytes → Bytes → Bytes → Bytes → Entry
  arg : Bytes → Bytes → ℕ → Bytes → Entry

-- `log` lists what has been put in: each operation adds its entry where it succeeds.
pub record IsLog {W : Type 0} (lib : LaunchLib W) (log : W → List Entry) : Type 0 where
  pub adds_exe :
      (ta name : Bytes) (path : Option Bytes) (w w' : W)
      → lib.tapi_cfg_ps_add ta name path w ≡ (ok tt, w')
      → log w' ≡ log w ++ exe ta name path ∷ []
  pub adds_env :
      (ta name key value : Bytes) (w w' : W)
      → lib.tapi_cfg_ps_add_env ta name key value w ≡ (ok tt, w')
      → log w' ≡ log w ++ env ta name key value ∷ []
  pub adds_arg :
      (ta name : Bytes) (n : ℕ) (a : Bytes) (w w' : W)
      → lib.tapi_cfg_ps_add_arg ta name n a w ≡ (ok tt, w')
      → log w' ≡ log w ++ arg ta name n a ∷ []
  pub no_exe : (w : W) (u : Unit) → (lib.out_of_range w).0 ≡ ok u → ⊥

-- The texts of a vector, without the NULLs.
abbrev pub texts : List (Option Bytes) → List Bytes
texts [] = []
texts (none ∷ args) = texts args
texts (some a ∷ args) = a ∷ texts args

-- Each with its position.
abbrev pub numbered : Bytes → Bytes → ℕ → List Bytes → List Entry
numbered ta name n [] = []
numbered ta name n (a ∷ more) = arg ta name n a ∷ numbered ta name (n + 1) more

abbrev pub env_entries : Bytes → Bytes → Params → List Entry
env_entries ta name [] = []
env_entries ta name ((k, v) ∷ envs) = env ta name k v ∷ env_entries ta name envs

-- The program, the environment, and the arguments from 1 on.
abbrev pub entries : Bytes → Bytes → Option Bytes → Params → List (Option Bytes) → List Entry
entries ta name path envs args =
    exe ta name path ∷ (env_entries ta name envs ++ numbered ta name 1 (texts args))

module _ {W : Type 0} (te : TeLib W) (cfg : CfgLib W) (server : ServerLib W) (lib : LaunchLib W)
    (log : W → List Entry) (doc : IsLog lib log) where
  add_env_list-log :
      (ta name : Bytes) (envs : Params) (w : W)
      → (add_env_list te cfg server lib ta name envs w).0 ≡ ok tt
      → log (add_env_list te cfg server lib ta name envs w).1 ≡ log w ++ env_entries ta name envs
  unfolding add_env_list
  add_env_list-log ta name [] w h = sym (append-nil (log w))
  add_env_list-log ta name ((k, v) ∷ envs) w h =
      let (u, w1, e, h1, s) = >>=-run (lib.tapi_cfg_ps_add_env ta name k v) _ w tt h in
      ap (λ r. log r.1) s
      ∙ add_env_list-log ta name envs w1 h1
      ∙ rw (doc.adds_env ta name k v w w1 e)
          (append_assoc (log w) (env ta name k v ∷ []) (env_entries ta name envs))

  add_arg_list-log :
      (ta name : Bytes) (n : ℕ) (args : List (Option Bytes)) (w : W)
      → (add_arg_list te cfg server lib ta name n args w).0 ≡ ok tt
      → log (add_arg_list te cfg server lib ta name n args w).1
        ≡ log w ++ numbered ta name n (texts args)
  unfolding add_arg_list
  add_arg_list-log ta name n [] w h = sym (append-nil (log w))
  add_arg_list-log ta name n (none ∷ args) w h = add_arg_list-log ta name n args w h
  add_arg_list-log ta name n (some a ∷ args) w h =
      let (u, w1, e, h1, s) = >>=-run (lib.tapi_cfg_ps_add_arg ta name n a) _ w tt h in
      ap (λ r. log r.1) s
      ∙ add_arg_list-log ta name (n + 1) args w1 h1
      ∙ rw (doc.adds_arg ta name n a w w1 e)
          (append_assoc (log w) (arg ta name n a ∷ []) (numbered ta name (n + 1) (texts args)))

  add_process-log :
      (ta name : Bytes) (args : List (Option Bytes)) (envs : Params) (w : W)
      → (add_process te cfg server lib ta name args envs w).0 ≡ ok tt
      → (path : Option Bytes) × (rest : List (Option Bytes)) × (args ≡ path ∷ rest)
        × (log (add_process te cfg server lib ta name args envs w).1
            ≡ log w ++ entries ta name path envs rest)
  unfolding add_process
  add_process-log ta name [] envs w h = absurd (doc.no_exe w tt h)
  add_process-log ta name (path ∷ rest) envs w h =
      let (u, w1, e, h1, s) = >>=-run (lib.tapi_cfg_ps_add ta name path) _ w tt h in
      let (u2, w2, e2, h2, s2) = >>=-run (add_env_list te cfg server lib ta name envs) _ w1 tt h1 in
      let l2 = ap (λ r. log r.1) (sym e2) ∙ add_env_list-log ta name envs w1 (ap (λ r. r.0) e2) in
      (
        path,
        rest,
        refl,
        ap (λ r. log r.1) (s ∙ s2)
            ∙ add_arg_list-log ta name 1 rest w2 h2
            ∙ rw l2 (
                rw (doc.adds_exe ta name path w w1 e) (
                  append_assoc (log w ++ exe ta name path ∷ []) (env_entries ta name envs)
                    (numbered ta name 1 (texts rest))
                  ∙ append_assoc (log w) (exe ta name path ∷ [])
                      (env_entries ta name envs ++ numbered ta name 1 (texts rest)))),
      )

  -- When the initialisation of the process succeeds, its arguments and environment could be built, the
  -- vector of the arguments begins with a program, and what is then put into the Configurator is the
  -- program, the environment in its order, and the other arguments that are not NULL, in their order
  -- and numbered from 1.
  pub init-log :
      (handle : Handle) (opts : Opts) (w : W)
      → (tsapi_blkproxy_init te cfg server lib handle (opts, w)).0 ≡ ok tt
      → (path : Option Bytes) × (rest : List (Option Bytes)) × (envs : Params) × (s1 s2 : Opts × W)
        × (w3 : W) × (set_cpu_mask te cfg server lib handle.ta (opts, w) ≡ (ok tt, s1))
        × (build_blkproxy_args te cfg server lib handle s1 ≡ (ok (path ∷ rest), s2))
        × (build_blkproxy_env te cfg server lib [] s2.1 ≡ (ok envs, w3))
        × (log (tsapi_blkproxy_init te cfg server lib handle (opts, w)).1.1
            ≡ log w3 ++ entries handle.ta handle.ps_name path envs rest)
  unfolding tsapi_blkproxy_init
  init-log handle opts w h =
      let set = set_cpu_mask te cfg server lib handle.ta in
      let build = build_blkproxy_args te cfg server lib handle in
      let (u1, s1, e1, h1, t1) = >>=-run set _ (opts, w) tt h in
      let (args, s2, e2, h2, t2) = >>=-run build _ s1 tt h1 in
      let (envs, s3, e3, h3, t3) =
        >>=-run (outside te cfg server lib (build_blkproxy_env te cfg server lib [])) _ s2 tt h2 in
      let (path, rest, e4, l) = add_process-log handle.ta handle.ps_name args envs s3.1 h3 in
      (
        path,
        rest,
        envs,
        s1,
        s2,
        s3.1,
        e1,
        e2 ∙ ap (λ a. (ok a, s2)) e4,
        ap (λ r. (r.0, r.1.1)) e3,
        ap (λ r. log r.1.1) (t1 ∙ t2 ∙ t3) ∙ l,
      )
