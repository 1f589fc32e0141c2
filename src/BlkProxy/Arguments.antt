-- ===== src/BlkProxy/Arguments.antt =====
-- The command line of the blk-proxy.
use cns_virtblk_ts.Base.{
  ℕ, ◌≡◌, refl, ap, ◌∙◌, sym, arith, Bool, true, false, not, none, some, List, [], ◌∷◌, ◌++◌, map,
  append-nil, append_assoc, All, if◌then◌else◌,
}
use cns_virtblk_ts.Base.Text.{Bytes, codes, Lacks, tokens_by, emit}
use cns_virtblk_ts.Base.Exec.{Result, ok, err, >>=-from}
use cns_virtblk_ts.Te.{TeLib, IsPlentiful}
use cns_virtblk_ts.Backend.{CfgLib}
use cns_virtblk_ts.Backend.Inventory.{ServerLib}
use cns_virtblk_ts.Ceph.Cluster.{tsapi_use_onload}
use cns_virtblk_ts.BlkProxy.{Handle, get_agent_config_name}
use cns_virtblk_ts.BlkProxy.Process.{
  Opts, Bind, opt_uint, opt_string, opt_custom, LaunchLib, or_default, outside, is_old_spdk,
  with_config, fill_logflags, path_or_enoent, onload_args, appended, add_logflags,
  create_optional_logflags, blkproxy_binds, tsapi_get_onload_path, tsapi_blkproxy_bin,
  build_blkproxy_args,
}

-- A flag is a text without a comma that is not empty.
abbrev pub IsFlag : Bytes → Type 0
IsFlag [] = ⊥
IsFlag (c ∷ s) = Lacks b',' (c ∷ s)

-- The flags with commas between them.
abbrev pub joined : List Bytes → Bytes
joined [] = []
joined (f ∷ []) = f
joined (f ∷ g ∷ flags) = f ++ b',' ∷ joined (g ∷ flags)

abbrev pub flag_args : List Bytes → List Bytes
flag_args [] = []
flag_args (f ∷ flags) = codes "--logflag" ∷ f ∷ flag_args flags

-- What options put on a command line: a number, a text that is not NULL, or what a function appends.
abbrev pub Renders : {W : Type 0} → (ℕ → Bytes) → List (Bind W) → List Bytes → Type 0
Renders decimal [] ts = ts ≡ []
Renders decimal (opt_uint p n ∷ bs) ts =
    (rest : List Bytes) × (ts ≡ p ∷ decimal n ∷ rest) × Renders decimal bs rest
Renders decimal (opt_string p (some s) ∷ bs) ts =
    (rest : List Bytes) × (ts ≡ p ∷ s ∷ rest) × Renders decimal bs rest
Renders decimal (opt_string p none ∷ bs) ts = Renders decimal bs ts
Renders {W} decimal (opt_custom f ∷ bs) ts =
    (own rest : List Bytes) × ((args : List Bytes) (w : W) → (f args w).0 ≡ ok (args ++ own))
    × (ts ≡ own ++ rest)
    × Renders decimal bs rest

-- Where memory suffices, tapi_job_opt_build_args() gives the program, what the options put on the
-- command line, and NULL.
pub record IsOptions {W : Type 0} (lib : LaunchLib W) (decimal : ℕ → Bytes) : Type 0 where
  pub builds :
      (path : Bytes) (binds : List (Bind W)) (ts : List Bytes) (w : W)
      → Renders decimal binds ts
      → (lib.tapi_job_opt_build_args path binds w).0 ≡ ok (some path ∷ (map some ts ++ none ∷ []))
  pub joins : (w : W) → (lib.te_vec_append_vec w).0 ≡ ok tt

tokens-flag :
    (tok f s : Bytes)
    → Lacks b',' f
    → tokens_by b',' tok (f ++ b',' ∷ s) ≡ emit (tok ++ f) (tokens_by b',' [] s)
unfolding tokens_by
tokens-flag tok [] s h = rw (append-nil tok) refl
tokens-flag tok (c ∷ f) s h =
    rw (← append_assoc tok (c ∷ []) f) (ground (arith, tokens-flag (tok ++ c ∷ []) f s h.1, h.0))

tokens-last : (tok f : Bytes) → Lacks b',' f → tokens_by b',' tok f ≡ emit (tok ++ f) []
unfolding tokens_by
tokens-last tok [] h = rw (append-nil tok) refl
tokens-last tok (c ∷ f) h =
    rw (← append_assoc tok (c ∷ []) f) (ground (arith, tokens-last (tok ++ c ∷ []) f h.1, h.0))

tokens-joined : (flags : List Bytes) → All IsFlag flags → tokens_by b',' [] (joined flags) ≡ flags
tokens-joined [] h = unfold tokens_by in refl
tokens-joined ((c ∷ f) ∷ []) h = tokens-last [] (c ∷ f) h.0
tokens-joined ((c ∷ f) ∷ g ∷ flags) h =
    tokens-flag [] (c ∷ f) (joined (g ∷ flags)) h.0
    ∙ ap (λ t. (c ∷ f) ∷ t) (tokens-joined (g ∷ flags) h.1)
tokens-joined ([] ∷ []) h = absurd h.0
tokens-joined ([] ∷ g ∷ flags) h = absurd h.0

-- The name of the configuration file that the process is given.
abbrev pub config_name : Handle → Opts → Bytes
config_name handle opts =
    or_default opts.config (get_agent_config_name handle (not handle.is_old_spdk))

-- The options up to the flags, behind the program; `old` says whether the version of SPDK is an old one.
abbrev pub plain_args : (ℕ → Bytes) → Bool → Opts → Bytes → List Bytes
plain_args decimal old opts config =
    codes "-s"
    ∷ decimal opts.mem_size
    ∷ codes "-m"
    ∷ opts.cpu_mask
    ∷ codes "-c"
    ∷ config
    ∷ (if old then codes "-W" else codes "-A")
    ∷ opts.pci_whitelist
    ∷ []

module _ {W : Type 0} (te : TeLib W) (cfg : CfgLib W) (server : ServerLib W) (lib : LaunchLib W)
    (p : IsPlentiful te) where
  appended-ok :
      {A : Type 0} (r : Result Unit × W) (next out : W → A)
      → r.0 ≡ ok tt
      → appended te cfg server lib r next out ≡ next r.1
  appended-ok (ok _, w) next out h = refl
  appended-ok (err e, w) next out h = cc

  add_logflags-args :
      (flags args : List Bytes) (w : W)
      → (add_logflags te cfg server lib flags args w).0 ≡ ok (args ++ flag_args flags)
  unfolding add_logflags
  add_logflags-args [] args w = ap ok (sym (append-nil args))
  add_logflags-args (f ∷ flags) args w =
      let w1 = (te.te_vec_append w).1 in
      let e1 = appended-ok {A = Result (List Bytes) × W} (te.te_vec_append w) _ _ (p.grows w) in
      let e2 = appended-ok {A = Result (List Bytes) × W} (te.te_vec_append w1) _ _ (p.grows w1) in
      ap (λ r. r.0) (e1 ∙ e2)
      ∙ add_logflags-args flags (args ++ codes "--logflag" ∷ f ∷ []) (te.te_vec_append w1).1
      ∙ ap ok (append_assoc args (codes "--logflag" ∷ f ∷ []) (flag_args flags))

  create_logflags-args :
      (flags args : List Bytes) (w : W)
      → All IsFlag flags
      → (create_optional_logflags te cfg server lib (some (joined flags)) args w).0
        ≡ ok (args ++ flag_args flags)
  unfolding create_optional_logflags
  create_logflags-args flags args w h = rw (tokens-joined flags h) (add_logflags-args flags args w)

  binds-Renders :
      (decimal : ℕ → Bytes) (opts : Opts) (config : Bytes) (flags : List Bytes)
      → opts.config ≡ some config
      → opts.logflags ≡ some (joined flags)
      → All IsFlag flags
      → Renders decimal
          (blkproxy_binds te cfg server lib opts)
          (plain_args decimal (is_old_spdk te cfg server lib) opts config ++ flag_args flags)
  unfolding blkproxy_binds
  binds-Renders decimal opts config flags c e h = rw c (
      rw e (
        (
          _,
          refl,
          (
            _,
            refl,
            (
              _,
              refl,
              (
                _,
                refl,
                (
                  flag_args flags,
                  [],
                  (λ args w. create_logflags-args flags args w h),
                  sym (append-nil (flag_args flags)),
                  refl,
                ),
              ),
            ),
          ),
        )))

  module _ (decimal : ℕ → Bytes) (doc : IsOptions lib decimal) (handle : Handle) (opts : Opts)
      (onload : Bool) (path : Bytes) (flags : List Bytes)
      (gives_onload : (w : W) → (tsapi_use_onload te cfg w).0 ≡ ok onload)
      (gives_path : onload ≡ true
        → (w : W) → (tsapi_get_onload_path te cfg server lib w).0 ≡ ok (some path))
      (are_flags : All IsFlag flags) (has_flags : opts.logflags ≡ some (joined flags)) where
    onload_args-path :
        (b : Bool) (w : W)
        → (b ≡ true → onload ≡ true)
        → (onload_args te cfg server lib b w).0 ≡ ok (if b then some path ∷ [] else [])
    unfolding onload_args
    onload_args-path true w h =
        let ask = tsapi_get_onload_path te cfg server lib in
        let e =
          >>=-from ask (path_or_enoent te cfg server lib) w (some path) (gives_path (h refl) w) in
        ap (λ r. r.0) e ∙ rw (p.grows (ask w).1) refl
    onload_args-path false w h = refl

    -- Where memory suffices and the options are put on a command line as documented: the arguments are
    -- the path to Onload, when it is used, the program, the size of the memory, the mask of the CPUs, the
    -- configuration, the PCI address under the name of the option that the version of SPDK has, and
    -- each of the flags, which come separated by commas, with its own --logflag.
    pub build_args-texts :
        (w : W)
        → (build_blkproxy_args te cfg server lib handle (opts, w)).0
          ≡ ok (
              (if onload then some path ∷ [] else [])
              ++ some (tsapi_blkproxy_bin te cfg server lib handle.ta)
                ∷ (map some (
                      plain_args decimal
                        (is_old_spdk te cfg server lib)
                        opts
                        (config_name handle opts)
                      ++ flag_args flags)
                    ++ none ∷ []))
    unfolding build_blkproxy_args
    build_args-texts w =
        let use_onload = tsapi_use_onload te cfg in
        let w1 = (use_onload w).1 in
        let prefix = onload_args te cfg server lib onload in
        let w2 = (prefix w1).1 in
        let opts' =
          with_config te cfg server lib (get_agent_config_name handle (not handle.is_old_spdk))
            opts in
        let binds = blkproxy_binds te cfg server lib opts' in
        let build =
          lib.tapi_job_opt_build_args (tsapi_blkproxy_bin te cfg server lib handle.ta) binds in
        let e1 =
          >>=-from (outside te cfg server lib use_onload) _ (opts, w) onload (gives_onload w) in
        let e2 =
          >>=-from (outside te cfg server lib prefix) _ (opts, w1)
            (if onload then some path ∷ [] else []) (onload_args-path onload w1 (λ e. e)) in
        let e3 : fill_logflags te cfg server lib opts.logflags (opts', w2) ≡ (ok tt, (opts', w2)) =
          rw has_flags refl in
        let e4 =
          doc.builds (tsapi_blkproxy_bin te cfg server lib handle.ta) binds
            (plain_args decimal (is_old_spdk te cfg server lib) opts (config_name handle opts)
              ++ flag_args flags)
            w2
            (binds-Renders decimal opts' (config_name handle opts) flags refl has_flags
              are_flags) in
        ap (λ r. r.0) (e1 ∙ e2) ∙ rw e3 (rw e4 (rw (doc.joins (build w2).1) refl))
