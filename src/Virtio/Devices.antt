-- ===== src/Virtio/Devices.antt =====
-- The list of the block devices.
use cns_virtblk_ts.Base.{
  ℕ, ◌+◌, ◌%◌, ◌<◌, ◌==◌, ◌≡◌, refl, ap, ◌∙◌, sym, arith, List, [], ◌∷◌, ◌++◌, map, append-nil,
  append_assoc, length, length-append, if◌then◌else◌,
}
use cns_virtblk_ts.Base.Text.{Bytes, codes}
use cns_virtblk_ts.Base.Exec.{ok, err, enoent, >>=-from}
use cns_virtblk_ts.Te.{TeLib, IsPlentiful}
use cns_virtblk_ts.Backend.{CfgLib}
use cns_virtblk_ts.Virtio.{
  PciLib, tsapi_get_virtio_blocks, append_names, append_devices, some_block, tsapi_get_devices,
}

abbrev pub path : Bytes → Bytes
path n = codes "/dev/" ++ n

abbrev pub counted : List Bytes → List Bytes × ℕ
counted xs = (xs, length xs)

-- The names of the devices of all PCI devices, each in the directory /dev.
abbrev pub paths : (Bytes → List Bytes) → List Bytes → List Bytes
paths names [] = []
paths names (dev ∷ devs) = map path (names dev) ++ paths names devs

length-map : {A B : Type 0} (f : A → B) (xs : List A) → length (map f xs) ≡ length xs
length-map f [] = refl
length-map f (x ∷ xs) = omega (arith, length-map f xs)

module _ {W : Type 0} (te : TeLib W) (cfg : CfgLib W) (lib : PciLib W) (p : IsPlentiful te)
    (names : Bytes → List Bytes)
    (gives_names : (dev : Bytes) (w : W)
      → (lib.tapi_cfg_pci_get_devices dev w).0 ≡ ok (names dev)) where
  append_names-all :
      (ns blks : List Bytes) (w : W)
      → length blks + length ns < 0x100000000
      → (append_names te cfg lib ns (counted blks) w).0 ≡ ok (counted (blks ++ map path ns))
  unfolding append_names
  append_names-all [] blks w h = ap (λ x. ok (counted x)) (sym (append-nil blks))
  append_names-all (n ∷ ns) blks w h =
      let blks' = blks ++ path n ∷ [] in
      let l : length blks' ≡ length blks + 1 = length-append blks (path n ∷ []) in
      let m : (length blks + 1) % 0x100000000 ≡ length blks' = omega (arith, l) in
      let e =
        >>=-from te.te_vec_append
          (λ _. append_names te cfg lib ns (blks', (length blks + 1) % 0x100000000)) w tt
          (p.grows w) in
      ap (λ r. r.0) e
      ∙ rw m (append_names-all ns blks' (te.te_vec_append w).1 (omega (arith, l)))
      ∙ ap (λ x. ok (counted x)) (append_assoc blks (path n ∷ []) (map path ns))

  append_devices-all :
      (devs blks : List Bytes) (w : W)
      → length blks + length (paths names devs) < 0x100000000
      → (append_devices te cfg lib devs (counted blks) w).0
        ≡ ok (counted (blks ++ paths names devs))
  unfolding append_devices
  append_devices-all [] blks w h = ap (λ x. ok (counted x)) (sym (append-nil blks))
  append_devices-all (dev ∷ devs) blks w h =
      let ask = lib.tapi_cfg_pci_get_devices dev in
      let w1 = (ask w).1 in
      let more = append_names te cfg lib (names dev) (counted blks) in
      let blks' = blks ++ map path (names dev) in
      let l0 = length-append (map path (names dev)) (paths names devs) in
      let l1 = length-map path (names dev) in
      let l2 = length-append blks (map path (names dev)) in
      let b0 : length blks + length (names dev) < 0x100000000 = omega (arith, l0, l1) in
      let e1 = >>=-from ask _ w (names dev) (gives_names dev w) in
      let e2 =
        >>=-from more (append_devices te cfg lib devs) w1 (counted blks')
          (append_names-all (names dev) blks w1 b0) in
      ap (λ r. r.0) (e1 ∙ e2)
      ∙ append_devices-all devs blks' (more w1).1 (omega (arith, l0, l1, l2))
      ∙ ap (λ x. ok (counted x)) (append_assoc blks (map path (names dev)) (paths names devs))

  -- Where memory suffices, the virtio block devices of the host and the names of their block devices are
  -- given, and these are fewer than 2 ^ 32: the result is the paths of all block devices in /dev, in
  -- the order of the PCI devices, with their number, and TE_ENOENT when there is none.
  pub get_devices-all :
      (ta : Bytes) (devs : List Bytes) (w : W)
      → (tsapi_get_virtio_blocks te cfg lib ta w).0 ≡ ok devs
      → length (paths names devs) < 0x100000000
      → (tsapi_get_devices te cfg lib ta w).0 ≡ (
          if length (paths names devs) == 0
          then err enoent
          else ok (paths names devs, length (paths names devs)))
  unfolding tsapi_get_devices
  get_devices-all ta devs w h l =
      let ask = tsapi_get_virtio_blocks te cfg lib ta in
      let all = append_devices te cfg lib devs ([], 0) in
      let b : 0 + length (paths names devs) < 0x100000000 = omega (arith, l) in
      let e1 = >>=-from ask _ w devs h in
      let e2 =
        >>=-from all (some_block te cfg lib) (ask w).1 (counted (paths names devs))
          (append_devices-all devs [] (ask w).1 b) in
      ap (λ r. r.0) (e1 ∙ e2)
