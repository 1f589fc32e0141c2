-- ===== src/Ceph/Jobs.antt =====
-- block-ts/lib/tsapi-ceph.c: the life of a job of a Ceph program; block-ts/lib/block-ts.c: the query
-- for the FSID.
use cns_virtblk_ts.Base.{
  ℕ, ◌*◌, ◌==◌, Bool, true, false, Option, none, some, List, [], ◌∷◌, if◌then◌else◌,
}
use cns_virtblk_ts.Base.Text.{Bytes, codes}
use cns_virtblk_ts.Base.Exec.{Result, ok, err, efail, Status, Exec, pure, lift, ◌>>=◌, ◌>>◌}
use cns_virtblk_ts.Te.{TeLib}
use cns_virtblk_ts.Ceph.{
  CommonOpts, CephOpts, MmtOpts, ceph_common_build_command, ceph_build_command,
  ceph_mmt_build_command,
}

-- tapi_job_status_t
pub data JobStatusType : Type 0 where
  exited signaled unknown_status : JobStatusType

pub record JobStatus : Type 0 where
  pub type : JobStatusType
  pub value : ℕ

-- tsapi_ceph_common_t, with the first of its two channels; `none` is NULL.
pub record Common : Type 0 where
  pub job : Option ℕ
  pub factory : Option ℕ
  pub stdout : Option ℕ
  pub fsid_filter : Option ℕ

abbrev pub no_common : Common
no_common = record { job = none; factory = none; stdout = none; fsid_filter = none }

-- The jobs of the Test Environment.
pub record JobLib (W : Type 0) : Type 0 where
  pub tapi_job_factory_rpc_create : Exec W ℕ
  pub tapi_job_factory_destroy : Option ℕ → W → W
  -- the job and the channel of its stdout
  pub tapi_job_simple_create : ℕ → List Bytes → Exec W (ℕ × ℕ)
  pub tapi_job_start : Option ℕ → Exec W Unit
  pub tapi_job_wait : Option ℕ → ℕ → Exec W JobStatus
  pub tapi_job_destroy : Option ℕ → ℕ → Exec W Unit
  pub tapi_job_attach_filter : Option ℕ → Bytes → Exec W ℕ
  pub tapi_job_filter_add_regexp : ℕ → Bytes → Exec W Unit
  -- whether the stream has ended, and the data
  pub tapi_job_receive : Option ℕ → ℕ → Exec W (Bool × Bytes)

abbrev value_status : ℕ → Status
value_status value = if value == 0 then ok tt else err efail

unfoldable pub ceph_common_status_handle : JobStatus → Status
ceph_common_status_handle status = elim status.type [
  | exited ↦ value_status status.value
  | signaled ↦ value_status status.value
  | unknown_status ↦ err efail
]

-- CEPH_RC(expr) evaluates its argument to initialise rc, and again for the test.
abbrev pub ceph_rc : {S A : Type 0} → Exec S A → Exec S A
ceph_rc expr s = let (_, s') = expr s in expr s'

module _ {W : Type 0} (te : TeLib W) (lib : JobLib W) where
  open te use {te_vec_append, te_string_append}
  open lib use {
    tapi_job_factory_rpc_create, tapi_job_factory_destroy, tapi_job_simple_create, tapi_job_start,
    tapi_job_wait, tapi_job_destroy, tapi_job_attach_filter, tapi_job_filter_add_regexp,
    tapi_job_receive,
  }

  -- Operations on the handle of a job, which is written also where an operation then fails.
  abbrev pub Job : Type 0 → Type 0
  Job A = Exec (Common × W) A

  abbrev pub on : {A : Type 0} → (Common → Exec W A) → Job A
  on m (c, w) = let (r, w') = m c w in (r, (c, w'))

  abbrev pub store : (Common → Common) → Job Unit
  store f (c, w) = (ok tt, (f c, w))

  abbrev pub with_factory : ℕ → Common → Common
  with_factory f c = record {
    job = c.job;
    factory = some f;
    stdout = c.stdout;
    fsid_filter = c.fsid_filter;
  }

  abbrev with_filter : ℕ → Common → Common
  with_filter f c = record {
    job = c.job;
    factory = c.factory;
    stdout = c.stdout;
    fsid_filter = some f;
  }

  unfoldable pub job_created : Common → Result (ℕ × ℕ) × W → Status × (Common × W)
  job_created c (ok (job, out), w) = (
    ok tt,
    (
      record {
        job = some job;
        factory = c.factory;
        stdout = some out;
        fsid_filter = c.fsid_filter;
      },
      w,
    ),
  )
  job_created c (err e, w) = (err e, (c, tapi_job_factory_destroy c.factory w))

  unfoldable pub create_job : ℕ → List Bytes → Job Unit
  create_job factory argv (c, w) = job_created c (tapi_job_simple_create factory argv w)

  -- CEPH_GENERIC_DESC_INIT: the program name, the options and the end marker go to the vector.
  unfoldable pub ceph_generic_desc_init : Bytes → (List Bytes → Exec W (List Bytes)) → Job Unit
  ceph_generic_desc_init bin func = do
    on (λ _. te_vec_append)
    argv ← on (λ _. func (bin ∷ []))
    on (λ _. te_vec_append)
    factory ← on (λ _. tapi_job_factory_rpc_create)
    store (with_factory factory)
    create_job factory argv

  unfoldable pub tsapi_ceph_osd_init : CommonOpts → Job Unit
  tsapi_ceph_osd_init opts =
      ceph_generic_desc_init (codes "ceph-osd") (ceph_common_build_command te opts)

  unfoldable pub tsapi_ceph_mon_init : CommonOpts → Job Unit
  tsapi_ceph_mon_init opts =
      ceph_generic_desc_init (codes "ceph-mon") (ceph_common_build_command te opts)

  unfoldable pub tsapi_ceph_mmt_init : (ℕ → Bytes) → MmtOpts → Job Unit
  tsapi_ceph_mmt_init decimal opts =
      ceph_generic_desc_init (codes "monmaptool") (ceph_mmt_build_command te decimal opts)

  abbrev fsid_regexp : Bytes
  fsid_regexp = codes "^[a-f0-9]{8}-[a-f0-9]{4}-[a-f0-9]{4}-[a-f0-9]{4}-[a-f0-9]{12}$"

  unfoldable pub tsapi_ceph_attach_fsid_filter : Job Unit
  tsapi_ceph_attach_fsid_filter = do
    filter ← on (λ c. tapi_job_attach_filter c.stdout (codes "FSID filter"))
    store (with_filter filter)
    on (λ _. tapi_job_filter_add_regexp filter fsid_regexp)

  abbrev attach_if : Option Bool → Job Unit
  attach_if (some true) = tsapi_ceph_attach_fsid_filter
  attach_if (some false) = pure tt
  attach_if none = pure tt

  unfoldable pub tsapi_ceph_init : CephOpts → Job Unit
  tsapi_ceph_init opts =
      ceph_generic_desc_init (codes "ceph") (ceph_build_command te opts)
      >> attach_if opts.fsid_subcommand

  -- tsapi_ceph_start(), and the same for the other programs.
  unfoldable pub tsapi_ceph_start : Job Unit
  tsapi_ceph_start = on (λ c. tapi_job_start c.job)

  -- tsapi_ceph_wait(), and the same for the other programs.
  unfoldable pub tsapi_ceph_wait : Job Unit
  tsapi_ceph_wait = do
    status ← ceph_rc (on (λ c. tapi_job_wait c.job (60 * 1000)))
    lift (ceph_common_status_handle status)

  -- tsapi_ceph_cleanup(), and the same for the other programs.
  unfoldable pub tsapi_ceph_cleanup : Job Unit
  tsapi_ceph_cleanup (c, w) =
      let (rc, w') = tapi_job_destroy c.job (30 * 1000) w in
      (rc, (c, tapi_job_factory_destroy c.factory w'))

  abbrev fsid_appended : Status × Bytes × W → Result Bytes × W
  fsid_appended (ok _, fsid, w) = (ok fsid, w)
  fsid_appended (err e, fsid, w) = (err e, w)

  abbrev fsid_of_buffer : Bytes → Bool × Bytes → Exec W Bytes
  fsid_of_buffer fsid (true, data_) w = (err efail, w)
  fsid_of_buffer fsid (false, data_) w = fsid_appended (te_string_append fsid data_ w)

  unfoldable pub tsapi_ceph_get_fsid_result : Bytes → Job Bytes
  tsapi_ceph_get_fsid_result fsid = do
    buf ← on (λ c. tapi_job_receive c.fsid_filter 1000)
    on (λ _. fsid_of_buffer fsid buf)

  abbrev fsid_opts : CephOpts
  fsid_opts = record {
    common_opts = record { config = none; monmap = none; id = none; mkfs = false };
    osd_subcommand = none;
    fsid_subcommand = some true;
    status = false;
  }

  -- The steps up to the first error.
  unfoldable pub get_fsid_steps : Bytes → Job Bytes
  get_fsid_steps fsid = do
    tsapi_ceph_init fsid_opts
    tsapi_ceph_start
    tsapi_ceph_wait
    tsapi_ceph_get_fsid_result fsid

  -- The string keeps its text, or is emptied, where a step fails: `none`.
  abbrev text_of : Result Bytes → Option Bytes
  text_of (ok fsid) = some fsid
  text_of (err e) = none

  -- The status that is returned is that of the cleanup, which follows every outcome of the steps.
  unfoldable pub block_ts_ceph_cluster_get_fsid : Bytes → W → Status × Option Bytes × W
  block_ts_ceph_cluster_get_fsid fsid w =
      let (r, s) = get_fsid_steps fsid (no_common, w) in
      let (rc, (c, w')) = tsapi_ceph_cleanup s in (rc, text_of r, w')
