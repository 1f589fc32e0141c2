-- ===== src/Package/Drivers.antt =====
-- block-ts/blk-proxy/config/driver_rebind.c: the drivers that the devices have after the test.
use cns_virtblk_ts.Base.{
  ℕ, zero, suc, ◌+◌, ◌≤◌, ◌<◌, ◌==◌, ltb, leb, ◌≡◌, refl, ap, sym, ◌∙◌, arith, Bool, true, false,
  not, ◌&&◌, [], Bool-cases, inl, inr, ==_iff, if◌then◌else◌,
}
use cns_virtblk_ts.Base.Text.{Bytes}
use cns_virtblk_ts.Base.Exec.{Result, ok, pure, ◌>>=◌, >>=-run}
use cns_virtblk_ts.Te.{TeLib}
use cns_virtblk_ts.Backend.{CfgLib}
use cns_virtblk_ts.Virtio.{PciLib, tsapi_virtio_blocks_count}
use cns_virtblk_ts.Package.Config.{
  ConfigLib, fail_unless, is_empty, rebind_once, rebind_times, current_driver, rebind_device,
  rebind_from, driver_rebind,
}

-- The driver of each device of the vendor and the kind on the agent, the empty text for none, and how
-- often a driver has been bound to it: what the Configurator documents of its operations.
pub record IsDrivers {W : Type 0} (lib : ConfigLib W) (ta vendor_id device_id : Bytes)
    (driver_of : ℕ → W → Bytes) (binds : ℕ → W → ℕ) : Type 0 where
  pub got :
      (j : ℕ) (d : Bytes) (w w' : W)
      → lib.get_driver ta vendor_id device_id j w ≡ (ok d, w')
      → (d ≡ driver_of j w)
        × ((k : ℕ) → (driver_of k w' ≡ driver_of k w) × (binds k w' ≡ binds k w))
  pub bound :
      (j : ℕ) (d : Bytes) (w w' : W)
      → lib.bind_driver ta vendor_id device_id j d w ≡ (ok tt, w')
      → (k : ℕ)
      → (driver_of k w' ≡ (if k == j then d else driver_of k w))
        × (binds k w' ≡ (if k == j then binds k w + 1 else binds k w))
  pub unbound :
      (j : ℕ) (w w' : W)
      → lib.unbind_driver ta vendor_id device_id j w ≡ (ok tt, w')
      → (k : ℕ)
      → (driver_of k w' ≡ (if k == j then [] else driver_of k w)) × (binds k w' ≡ binds k w)
  pub slept :
      (n k : ℕ) (w : W)
      → (driver_of k (lib.te_motivated_sleep n w) ≡ driver_of k w)
        × (binds k (lib.te_motivated_sleep n w) ≡ binds k w)

module _ {W : Type 0} (lib : ConfigLib W) (ta vendor_id device_id : Bytes)
    (driver_of : ℕ → W → Bytes) (binds : ℕ → W → ℕ)
    (doc : IsDrivers lib ta vendor_id device_id driver_of binds) where
  -- The drivers are the same, and the devices have been bound as often as `more` says.
  abbrev Rebound : (ℕ → ℕ) → W → W → Type 0
  Rebound more w w' = (k : ℕ) → (driver_of k w' ≡ driver_of k w) × (binds k w' ≡ binds k w + more k)

  Rebound-trans :
      (m1 m2 m : ℕ → ℕ) (w w1 w2 : W)
      → ((k : ℕ) → m k ≡ m1 k + m2 k)
      → Rebound m1 w w1
      → Rebound m2 w1 w2
      → Rebound m w w2
  Rebound-trans m1 m2 m w w1 w2 sum r1 r2 k =
      ((r2 k).0 ∙ (r1 k).0, omega (arith, sum k, (r1 k).1, (r2 k).1))

  back :
      (b : Bool) (x y d : Bytes)
      → x ≡ (if b then [] else y)
      → (b ≡ true → d ≡ y)
      → (if b then d else x) ≡ y
  back true x y d e h = h refl
  back false x y d e h = e

  one_more : (b : Bool) (n m : ℕ) → n ≡ m → (if b then n + 1 else n) ≡ m + (if b then 1 else 0)
  one_more true n m e = omega (arith, e)
  one_more false n m e = omega (arith, e)

  once-Rebound :
      (j : ℕ) (w w' : W)
      → rebind_once lib ta vendor_id device_id j (driver_of j w) w ≡ (ok tt, w')
      → Rebound (λ k. if k == j then 1 else 0) w w'
  once-Rebound j w w' h k =
      let d = driver_of j w in
      let unbind = lib.unbind_driver ta vendor_id device_id j in
      let bind = lib.bind_driver ta vendor_id device_id j d in
      let (u0, w0, e0, h0, s0) = >>=-run unbind _ w tt (ap (λ r. r.0) h) in
      let (u1, w1, e1, h1, s1) = >>=-run bind _ w0 tt h0 in
      let (a1, a2) = doc.unbound j w w0 e0 k in
      let (b1, b2) = doc.bound j d w0 w1 e1 k in
      let (c1, c2) = doc.slept 5 k w1 in
      let same : w' ≡ lib.te_motivated_sleep 5 w1 = ap (λ r. r.1) (sym h ∙ s0 ∙ s1) in
      (
        ap (driver_of k) same
            ∙ c1
            ∙ b1
            ∙ back (k == j) (driver_of k w0) (driver_of k w) d a1
                (λ e. ap (λ x. driver_of x w) (sym ((==_iff k j).0 e))),
        ap (binds k) same ∙ c2 ∙ b2 ∙ one_more (k == j) (binds k w0) (binds k w) a2,
      )

  times-Rebound :
      (left j : ℕ) (d : Bytes) (w w' : W)
      → d ≡ driver_of j w
      → rebind_times lib ta vendor_id device_id left j d w ≡ (ok tt, w')
      → Rebound (λ k. if k == j then left else 0) w w'
  unfolding rebind_times
  times-Rebound zero j d w w' e h k =
      let same : w' ≡ w = ap (λ r. r.1) (sym h) in
      (ap (driver_of k) same, ap (binds k) same ∙ ground arith)
  times-Rebound (suc left) j d w w' e h k =
      let (u1, w1, e1, h1, s1) =
        >>=-run (rebind_once lib ta vendor_id device_id j d) _ w tt (ap (λ r. r.0) h) in
      let first =
        once-Rebound j w w1 (ap (λ x. rebind_once lib ta vendor_id device_id j x w) (sym e) ∙ e1) in
      Rebound-trans (λ k. if k == j then 1 else 0) (λ k. if k == j then left else 0)
        (λ k. if k == j then suc left else 0) w w1 w' (λ k. ground arith) first
        (times-Rebound left j d w1 w' (e ∙ sym (first j).0) (sym s1 ∙ h)) k

  checked :
      (b : Bool) (d d' : Bytes) (w w' : W)
      → (fail_unless b >>= λ _. pure d) w ≡ (ok d', w')
      → (w' ≡ w) × (d' ≡ d) × (b ≡ true)
  checked true d d' w w' h = let e : d' ≡ d = cc in (ap (λ r. r.1) (sym h), e, refl)
  checked false d d' w w' h = cc

  current-Rebound :
      (j : ℕ) (d : Bytes) (w w' : W)
      → current_driver lib ta vendor_id device_id j w ≡ (ok d, w')
      → (d ≡ driver_of j w') × Rebound (λ k. 0) w w' × (not (is_empty d) ≡ true)
  unfolding current_driver
  current-Rebound j d w w' h =
      let (d0, w0, e0, h0, s0) =
        >>=-run (lib.get_driver ta vendor_id device_id j) _ w d (ap (λ r. r.0) h) in
      let (same, eq, full) = checked (not (is_empty d0)) d0 d w0 w' (sym s0 ∙ h) in
      let (g, keep) = doc.got j d0 w w0 e0 in
      (
        eq ∙ g ∙ sym (keep j).0 ∙ ap (driver_of j) (sym same),
        λ k. (ap (driver_of k) same ∙ (keep k).0, ap (binds k) same ∙ omega (arith, (keep k).1)),
        ap (λ x. not (is_empty x)) eq ∙ full,
      )

  abbrev within : ℕ → ℕ → ℕ → ℕ → ℕ
  within j left c k = if leb j k && ltb k (j + left) then c else 0

  device-Rebound :
      (c j : ℕ) (w w' : W)
      → rebind_device lib ta vendor_id device_id c j w ≡ (ok tt, w')
      → Rebound (λ k. if k == j then c else 0) w w' × (not (is_empty (driver_of j w)) ≡ true)
  unfolding rebind_device
  device-Rebound c j w w' h =
      let (d, w1, e1, h1, s1) =
        >>=-run (current_driver lib ta vendor_id device_id j) _ w tt (ap (λ r. r.0) h) in
      let (g, keep, full) = current-Rebound j d w w1 e1 in
      (
        Rebound-trans (λ k. 0) (λ k. if k == j then c else 0) (λ k. if k == j then c else 0) w w1 w'
            (λ k. omega arith) keep (times-Rebound c j d w1 w' g (sym s1 ∙ h)),
        ap (λ x. not (is_empty x)) (sym (keep j).0 ∙ sym g) ∙ full,
      )

  from-Rebound :
      (c left j : ℕ) (w w' : W)
      → rebind_from lib ta vendor_id device_id c left j w ≡ (ok tt, w')
      → Rebound (within j left c) w w'
        × ((k : ℕ) → j ≤ k → k < j + left → not (is_empty (driver_of k w)) ≡ true)
  unfolding rebind_from
  from-Rebound c zero j w w' h =
      let same : w' ≡ w = ap (λ r. r.1) (sym h) in
      (
        λ k. (ap (driver_of k) same, ap (binds k) same ∙ ground arith),
        λ k a b. absurd (omega arith),
      )
  from-Rebound c (suc left) j w w' h =
      let (u1, w1, e1, h1, s1) =
        >>=-run (rebind_device lib ta vendor_id device_id c j) _ w tt (ap (λ r. r.0) h) in
      let (first, full) = device-Rebound c j w w1 e1 in
      let (rest, others) = from-Rebound c left (suc j) w1 w' (sym s1 ∙ h) in
      (
        Rebound-trans (λ k. if k == j then c else 0) (within (suc j) left c) (within j (suc left) c)
            w w1 w' (λ k. ground arith) first rest,
        λ k a b. elim (Bool-cases (k == j)) [
          | inl e ↦ ap (λ x. not (is_empty (driver_of x w))) ((==_iff k j).0 e) ∙ full
          | inr e ↦
              ap (λ x. not (is_empty x)) (sym (first k).0) ∙ others k (ground arith) (omega arith)
        ],
      )

  -- Where asking for the devices leaves the drivers as they are: when driver_rebind succeeds, each of the
  -- devices that it has counted had a driver, every device has the driver that it had before, and one
  -- has been bound rebind_count times to each device that was counted, and to no other.
  pub driver_rebind-keeps :
      (te : TeLib W) (cfg : CfgLib W) (pci : PciLib W) (rebind_count n : ℕ) (w w1 w' : W)
      → tsapi_virtio_blocks_count te cfg pci ta w ≡ (ok n, w1)
      → ((k : ℕ) → (driver_of k w1 ≡ driver_of k w) × (binds k w1 ≡ binds k w))
      → driver_rebind lib ta vendor_id device_id te cfg pci rebind_count w ≡ (ok tt, w')
      → (0 < rebind_count)
        × ((k : ℕ)
            → (driver_of k w' ≡ driver_of k w)
              × (binds k w' ≡ binds k w + (if ltb k n then rebind_count else 0))
              × (k < n → not (is_empty (driver_of k w)) ≡ true))
  unfolding driver_rebind
  driver_rebind-keeps te cfg pci c n w w1 w' counted keep h =
      let ask = tsapi_virtio_blocks_count te cfg pci ta in
      let (u0, w0, e0, h0, s0) = >>=-run (fail_unless (ltb 0 c)) _ w tt (ap (λ r. r.0) h) in
      let (positive, same) = passed (ltb 0 c) w w0 e0 in
      let (m, w2, e1, h1, s1) = >>=-run ask _ w0 tt h0 in
      let pair : ◌≡◌ {A = Result ℕ × W} (ok m, w2) (ok n, w1) = sym e1 ∙ ap ask same ∙ counted in
      let (m-n, w2-w1) = counted_same m n w2 w1 pair in
      let run : rebind_from lib ta vendor_id device_id c n 0 w1 ≡ (ok tt, w') =
        ap (λ x. rebind_from lib ta vendor_id device_id c x 0 w1) (sym m-n)
        ∙ ap (rebind_from lib ta vendor_id device_id c m 0) (sym w2-w1)
        ∙ sym (s0 ∙ s1)
        ∙ h in
      let (all, full) = from-Rebound c n 0 w1 w' run in
      (
        positive_lt c positive,
        λ k. (
          (all k).0 ∙ (keep k).0,
          (all k).1 ∙ in_range k n c (binds k w1) (binds k w) (keep k).1,
          λ b. ap (λ x. not (is_empty x)) (sym (keep k).0) ∙ full k (omega arith) (omega arith),
        ),
      )
    where
      passed : (b : Bool) (v v' : W) → fail_unless b v ≡ (ok tt, v') → (b ≡ true) × (v' ≡ v)
      passed true v v' e = (refl, ap (λ r. r.1) (sym e))
      passed false v v' e = cc

      counted_same :
          (a b : ℕ) (v v' : W) → ◌≡◌ {A = Result ℕ × W} (ok a, v) (ok b, v') → (a ≡ b) × (v ≡ v')
      counted_same a b v v' e = (cc, ap (λ r. r.1) e)

      positive_lt : (c : ℕ) → ltb 0 c ≡ true → 0 < c
      positive_lt c e = ground arith

      in_range : (k n c x y : ℕ) → x ≡ y → x + within 0 n c k ≡ y + (if ltb k n then c else 0)
      in_range k n c x y e = ground arith
