-- ===== src/Ceph/Fill.antt =====
-- block-ts/lib/tsapi-ceph.c: tsapi_ceph_fill_devices(), which writes to every block device with FIO;
-- block-ts/lib/tsapi-fio.c: tsapi_fio_create().
mod Tests
use cns_virtblk_ts.Base.{ℕ, ◌≡◌, refl, Option, none, some, List, [], ◌∷◌, ◌++◌}
use cns_virtblk_ts.Base.Text.{Bytes, codes}
use cns_virtblk_ts.Base.Exec.{Errno, Result, ok, err, Status, Exec, pure, ◌>>=◌, ◌>>◌}
use cns_virtblk_ts.Te.{TeLib}
use cns_virtblk_ts.Backend.{CfgLib}
use cns_virtblk_ts.Ceph.Jobs.{JobLib}
use cns_virtblk_ts.Fio.{WaitOpts, FioLib, flex_timeout}
use cns_virtblk_ts.Virtio.{PciLib, tsapi_get_devices}

-- The two pointers of the function, which keep their values from one device to the next.
pub record Pointers : Type 0 where
  pub fio : Option ℕ
  pub fio_factory : Option ℕ

-- What the options of FIO vary in: the file and the size.
pub record FillOpts : Type 0 where
  pub filename : Bytes
  pub size : Bytes

-- FIO; `none` is NULL.
pub record FillLib (W : Type 0) : Type 0 where
  -- tapi_fio_create(options, factory, path)
  pub tapi_fio_create : FillOpts → ℕ → Bytes → W → Option ℕ × W
  pub tapi_fio_start : Option ℕ → Exec W Unit
  -- tapi_fio_wait(), with the bits of the timeout
  pub tapi_fio_wait : Option ℕ → ℕ → Exec W Unit
  pub tapi_fio_stop : Option ℕ → Exec W Unit
  pub tapi_fio_destroy : Option ℕ → W → W
  -- the directory of an agent, for tsapi_append_path_to_agt_dir()
  pub agent_dir : Bytes → Bytes

-- One job with blocks of 1 MB; the runtime is left at 0.
abbrev pub wait_opts : WaitOpts
wait_opts = record { numjobs = 1; blocksize = 1048576; runtime_sec = 0 }

module _ {W : Type 0} (te : TeLib W) (cfg : CfgLib W) (pci : PciLib W) (jobs : JobLib W)
    (fios : FioLib W) (lib : FillLib W) where
  open jobs use {tapi_job_factory_rpc_create, tapi_job_factory_destroy}
  open lib use {
    tapi_fio_create, tapi_fio_start, tapi_fio_wait, tapi_fio_stop, tapi_fio_destroy, agent_dir,
  }

  -- Operations on the pointers.
  abbrev pub Fill : Type 0 → Type 0
  Fill A = Exec (Pointers × W) A

  abbrev pub with_pointers : {A : Type 0} → (Pointers → Exec W A) → Fill A
  with_pointers m (p, w) = let (r, w') = m p w in (r, (p, w'))

  -- The status is 0 also for NULL. The agent is not NULL.
  unfoldable pub tsapi_fio_create : FillOpts → ℕ → Bytes → Exec W (Option ℕ)
  tsapi_fio_create options factory ta w =
      let (fio, w') = tapi_fio_create options factory (agent_dir ta ++ codes "/fio") w in
      (ok fio, w')

  abbrev pub set_factory : ℕ → Fill Unit
  set_factory f (p, w) = (ok tt, (record { fio = p.fio; fio_factory = some f }, w))

  abbrev pub set_fio : Option ℕ → Fill Unit
  set_fio a (p, w) = (ok tt, (record { fio = a; fio_factory = p.fio_factory }, w))

  -- Both are destroyed, and the pointers keep their values.
  abbrev pub destroy_both : Pointers → W → W
  destroy_both p w = tapi_job_factory_destroy p.fio_factory (tapi_fio_destroy p.fio w)

  unfoldable pub fill_device : Bytes → Bytes → Bytes → Fill Unit
  fill_device ta size block = do
    factory ← with_pointers (λ _. tapi_job_factory_rpc_create)
    set_factory factory
    fio ←
        with_pointers (λ _. tsapi_fio_create (record { filename = block; size = size }) factory ta)
    set_fio fio
    with_pointers (λ p. tapi_fio_start p.fio)
    with_pointers (λ p. tapi_fio_wait p.fio (flex_timeout te fios wait_opts))
    with_pointers (λ p. tapi_fio_stop p.fio)
    with_pointers (λ p w. (ok tt, destroy_both p w))

  unfoldable pub fill_all : Bytes → Bytes → List Bytes → Fill Unit
  fill_all ta size [] = pure tt
  fill_all ta size (block ∷ blocks) = fill_device ta size block >> fill_all ta size blocks

  abbrev pub destroyed_on_error : Status × (Pointers × W) → Status × W
  destroyed_on_error (ok _, (p, w)) = (ok tt, w)
  destroyed_on_error (err e, (p, w)) = (err e, destroy_both p w)

  unfoldable pub fill_blocks : Bytes → Bytes → Fill Unit
  fill_blocks ta size = do
    found ← with_pointers (λ _. tsapi_get_devices te cfg pci ta)
    fill_all ta size found.0

  unfoldable pub tsapi_ceph_fill_devices : Bytes → Bytes → Exec W Unit
  tsapi_ceph_fill_devices ta size w =
      destroyed_on_error (fill_blocks ta size (record { fio = none; fio_factory = none }, w))

  -- When the first of several devices has been filled, with all its steps, and the factory for the second
  -- cannot be made, then the application and the factory of the first, which have been destroyed, are
  -- destroyed again, and the error is returned.
  pub fill_devices-twice :
      (ta size b1 b2 : Bytes) (blocks : List Bytes) (n f a : ℕ) (e : Errno)
      (w w0 w1 w2 w3 w4 w5 w6 : W)
      → tsapi_get_devices te cfg pci ta w ≡ (ok (b1 ∷ b2 ∷ blocks, n), w0)
      → tapi_job_factory_rpc_create w0 ≡ (ok f, w1)
      → tsapi_fio_create (record { filename = b1; size = size }) f ta w1 ≡ (ok (some a), w2)
      → tapi_fio_start (some a) w2 ≡ (ok tt, w3)
      → tapi_fio_wait (some a) (flex_timeout te fios wait_opts) w3 ≡ (ok tt, w4)
      → tapi_fio_stop (some a) w4 ≡ (ok tt, w5)
      → tapi_job_factory_rpc_create
          (tapi_job_factory_destroy (some f) (tapi_fio_destroy (some a) w5))
        ≡ (err e, w6)
      → tsapi_ceph_fill_devices ta size w
        ≡ (err e, tapi_job_factory_destroy (some f) (tapi_fio_destroy (some a) w6))
  unfolding tsapi_ceph_fill_devices fill_blocks fill_all fill_device
  fill_devices-twice ta size b1 b2 blocks n f a e w w0 w1 w2 w3 w4 w5 w6 h0 h1 h2 h3 h4 h5 h6 =
      rw h0 (rw h1 (rw h2 (rw h3 (rw h4 (rw h5 (rw h6 refl))))))
