-- ===== src/Package/Multi.antt =====
-- block-ts/blk-proxy/readwrite/fio_multi.c: FIO on several devices at once, with the loops that it shares
-- with block-ts/blk-proxy/stress/stress.c.
use cns_virtblk_ts.Base.{ℕ, suc, ◌==◌, ltb, Option, none, some, List, [], ◌∷◌, ◌++◌, if◌then◌else◌}
use cns_virtblk_ts.Base.Text.{Bytes, codes}
use cns_virtblk_ts.Base.Exec.{ok, Exec, pure, ◌>>=◌, ◌>>◌}
use cns_virtblk_ts.Te.{TeLib}
use cns_virtblk_ts.Backend.{CfgLib}
use cns_virtblk_ts.Backend.Inventory.{append_result}
use cns_virtblk_ts.Virtio.{PciLib, tsapi_get_devices}
use cns_virtblk_ts.Fio.{FioContext, FioLib, tsapi_fio_multi_init, tsapi_fio_multi_fini}
use cns_virtblk_ts.Fio.Options.{FioOpts, ParamLib, with_filename, tsapi_fio_opts_read_suf}
use cns_virtblk_ts.Package.{
  Test, aside, reading, store, run_or_end, Fio, TestLib, host_ta, flex_wait, log,
}

-- tsapi_fio_context with the application, which is NULL until it is made.
pub record Context : Type 0 where
  pub process : FioContext
  pub fio : Option Fio

abbrev pub no_application : FioContext → Context
no_application c = record { process = c; fio = none }

abbrev pub contexts : List FioContext → List Context
contexts [] = []
contexts (c ∷ cs) = no_application c ∷ contexts cs

abbrev pub processes : List Context → List FioContext
processes [] = []
processes (c ∷ cs) = c.process ∷ processes cs

-- What a test ends with: a verdict that it is skipped, or success.
pub data Outcome : Type 0 where
  success skipped : Outcome

abbrev pub made : FioOpts → Option ℕ → Option Fio
made opts none = none
made opts (some h) = some (record { handle = h; opts = opts })

module _ (params : ParamLib) {W : Type 0} (te : TeLib W) (cfg : CfgLib W) (pci : PciLib W)
    (fios : FioLib W) (lib : TestLib W) where
  open lib use {
    test_get_rpcs, fio_opts_defaults, tapi_fio_create, tapi_fio_start, tapi_fio_stop,
    tapi_fio_get_report, tapi_fio_destroy, agent_dir,
  }

  -- The options for each device, with a suffix for its number.
  unfoldable pub read_each : (ℕ → Bytes) → ℕ → List Bytes → Exec W (List FioOpts)
  read_each suffix i [] = pure []
  read_each suffix i (block ∷ blocks) = do
    opts ← tsapi_fio_opts_read_suf params fio_opts_defaults (suffix i)
    rest ← read_each suffix (suc i) blocks
    pure (with_filename (some block) opts ∷ rest)

  abbrev pub create_one : FioContext → FioOpts → W → Context × W
  create_one c opts w =
      let (h, w') = tapi_fio_create opts c.forked_factory (agent_dir host_ta ++ codes "/fio") w in
      (record { process = c; fio = made opts h }, w')

  -- An application for each context.
  unfoldable pub create_each : List Context → List FioOpts → W → List Context × W
  create_each [] opts w = ([], w)
  create_each (c ∷ cs) [] w = (c ∷ cs, w)
  create_each (c ∷ cs) (o ∷ opts) w =
      let (c', w1) = create_one c.process o w in
      let (cs', w2) = create_each cs opts w1 in (c' ∷ cs', w2)

  unfoldable pub create_all : List FioOpts → Test (List Context) W Unit
  create_all opts (cs, w) = (ok tt, create_each cs opts w)

  unfoldable pub start_all : List Context → Exec W Unit
  start_all [] = pure tt
  start_all (c ∷ cs) = tapi_fio_start c.fio >> start_all cs

  unfoldable pub wait_all : List Context → Exec W Unit
  wait_all [] = pure tt
  wait_all (c ∷ cs) = do
    flex_wait params te cfg pci fios lib c.fio
    tapi_fio_stop c.fio
    wait_all cs

  unfoldable pub report_all : List Context → Exec W Unit
  report_all [] = pure tt
  report_all (c ∷ cs) = do
    report ← tapi_fio_get_report c.fio
    log params te cfg pci fios lib report
    report_all cs

  unfoldable pub destroy_all : List Context → W → W
  destroy_all [] w = w
  destroy_all (c ∷ cs) w = destroy_all cs (tapi_fio_destroy c.fio w)

  -- The label `cleanup`. That the applications are NULL before they are made is not so in the source,
  -- where they are not set.
  unfoldable pub cleanup_all : List Context → Exec W Unit
  cleanup_all cs w = tsapi_fio_multi_fini te fios (processes cs) (destroy_all cs w)

  -- From the processes up to the applications.
  unfoldable pub prepare_all : (ℕ → Bytes) → List Bytes → ℕ → Test (List Context) W Unit
  prepare_all suffix blocks blocks_count = do
    cs ← aside (tsapi_fio_multi_init te fios blocks_count)
    store (λ _. contexts cs)
    opts ← aside (read_each suffix 0 blocks)
    create_all opts

  abbrev pub second_suffix : ℕ → Bytes
  second_suffix i = if i == 0 then [] else codes "_second"

  -- fio_blocks_to_str()
  unfoldable pub fio_blocks_to_str : List Bytes → Bytes → Exec W Bytes
  fio_blocks_to_str [] str = pure str
  fio_blocks_to_str (block ∷ blocks) str =
      (λ w. append_result (te.te_string_append str (block ++ codes ", ") w))
      >>= fio_blocks_to_str blocks

  unfoldable pub multi_steps : List Bytes → ℕ → Test (List Context) W Unit
  multi_steps blocks blocks_count = do
    str ← aside (fio_blocks_to_str blocks [])
    prepare_all second_suffix blocks blocks_count
    reading start_all
    reading wait_all
    reading report_all

  -- The test for the devices that are found. For less than two the clean-up does nothing.
  unfoldable pub multi_on : List Bytes → ℕ → Exec W Outcome
  multi_on blocks blocks_count =
      if ltb blocks_count 2
      then pure skipped
      else run_or_end [] (multi_steps blocks blocks_count) cleanup_all >> pure success

  -- main() of fio_multi.c.
  unfoldable pub fio_multi : Exec W Outcome
  fio_multi = do
    test_get_rpcs host_ta
    found ← tsapi_get_devices te cfg pci host_ta
    multi_on found.0 found.1
