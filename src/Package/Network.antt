-- ===== src/Package/Network.antt =====
-- block-ts/blk-proxy/network_stimuli: prologue.c, fio_bpf_stimuli.c and fio_netem.c.
use cns_virtblk_ts.Base.{
  ℕ, ◌*◌, ◌%◌, ◌==◌, Bool, true, false, ◌&&◌, ◌||◌, Option, none, some, ◌++◌, if◌then◌else◌,
}
use cns_virtblk_ts.Base.Text.{Bytes, codes}
use cns_virtblk_ts.Base.Exec.{ended, Result, ok, err, efail, Status, Exec, pure, raise, ◌>>=◌, ◌>>◌}
use cns_virtblk_ts.Te.{TeLib}
use cns_virtblk_ts.Backend.{CfgLib}
use cns_virtblk_ts.Virtio.{PciLib}
use cns_virtblk_ts.Fio.{FioLib}
use cns_virtblk_ts.Fio.Options.{ParamLib}
use cns_virtblk_ts.Package.{
  Test, aside, reading, run_or_end, TestLib, FioVars, no_fio, host_ta, disk_ta, read_opts,
  prepare_fio, run_fio, report_fio, destroy_fio,
}
use cns_virtblk_ts.Package.ReadWrite.{within}

pub data NetemAction : Type 0 where
  delay loss duplicate limit gap reorder corruption none_action : NetemAction

pub data Stimulus : Type 0 where
  stim_drop stim_duplicate stim_delay unknown_stimulus : Stimulus

-- A double of a parameter, with what the tests do with it.
pub record DoubleLib : Type 1 where
  pub Double : Type 0
  pub is_zero : Double → Bool
  pub is_negative : Double → Bool
  -- (unsigned int)x
  pub to_uint : Double → ℕ

-- The netem discipline of an interface, which is given by an agent and a name.
pub record NetemLib (Double W : Type 0) : Type 0 where
  pub set_kind_netem : Bytes → Bytes → Exec W Unit
  pub qdisc_enable : Bytes → Bytes → Exec W Unit
  pub set_delay : Bytes → Bytes → ℕ → Exec W Unit
  pub set_loss : Bytes → Bytes → Double → Exec W Unit
  pub set_duplicate : Bytes → Bytes → Double → Exec W Unit
  pub set_limit : Bytes → Bytes → ℕ → Exec W Unit
  pub set_gap : Bytes → Bytes → ℕ → Exec W Unit
  pub set_reorder_probability : Bytes → Bytes → Double → Exec W Unit
  pub set_corruption_probability : Bytes → Bytes → Double → Exec W Unit
  pub set_delay_correlation : Bytes → Bytes → Double → Exec W Unit
  pub set_loss_correlation : Bytes → Bytes → Double → Exec W Unit
  pub set_duplicate_correlation : Bytes → Bytes → Double → Exec W Unit
  pub set_reorder_correlation : Bytes → Bytes → Double → Exec W Unit
  pub set_corruption_correlation : Bytes → Bytes → Double → Exec W Unit
  -- what a call through the word behind the table of functions does
  pub behind_table : Exec W Unit

-- BPF programs that drop, duplicate or delay packets; a handle that is `none` is NULL.
pub record BpfLib (W : Type 0) : Type 0 where
  -- tapi_bpf_stim_init(rpcs, interface, stimulus, FALSE, &handle)
  pub tapi_bpf_stim_init : Bytes → Bytes → Stimulus → Exec W ℕ
  pub tapi_bpf_stim_drop : ℕ → ℕ → Exec W Unit
  pub tapi_bpf_stim_dup : ℕ → ℕ → Exec W Unit
  pub tapi_bpf_stim_delay : ℕ → ℕ → Exec W Unit
  pub tapi_bpf_stim_del : Option ℕ → W → W

abbrev pub is_none : NetemAction → Bool
is_none none_action = true
is_none action = false

module _ (d : DoubleLib) {W : Type 0} (netem : NetemLib d.Double W) (ta if_name : Bytes) where
  open d use {Double, is_zero, is_negative, to_uint}
  open netem use {
    set_kind_netem, qdisc_enable, set_delay, set_loss, set_duplicate, set_limit, set_gap,
    set_reorder_probability, set_corruption_probability, set_delay_correlation,
    set_loss_correlation, set_duplicate_correlation, set_reorder_correlation,
    set_corruption_correlation, behind_table,
  }

  -- netem_correlation_func; `none` is NULL. The table has no entry for the last action.
  unfoldable pub netem_correlation_func : NetemAction → Option (Double → Exec W Unit)
  netem_correlation_func delay = some (set_delay_correlation ta if_name)
  netem_correlation_func loss = some (set_loss_correlation ta if_name)
  netem_correlation_func duplicate = some (set_duplicate_correlation ta if_name)
  netem_correlation_func limit = none
  netem_correlation_func gap = none
  netem_correlation_func reorder = some (set_reorder_correlation ta if_name)
  netem_correlation_func corruption = some (set_corruption_correlation ta if_name)
  netem_correlation_func none_action = some (λ c. behind_table)

  abbrev pub correlate : Option (Double → Exec W Unit) → Double → Exec W Unit
  correlate none c = raise efail
  correlate (some f) c = f c

  -- The switch: one parameter for each action.
  unfoldable pub set_param : NetemAction → Double → Exec W Unit
  set_param delay p = set_delay ta if_name (to_uint p * 1000 % 0x100000000)
  set_param loss p = set_loss ta if_name p
  set_param duplicate p = set_duplicate ta if_name p
  set_param limit p = set_limit ta if_name (to_uint p)
  set_param gap p = set_gap ta if_name (to_uint p)
  set_param reorder p = set_reorder_probability ta if_name p
  set_param corruption p = set_corruption_probability ta if_name p
  set_param none_action p = raise efail

  -- The correlation is set first, and only where it is not zero.
  unfoldable pub set_netem_action_param : NetemAction → Double → Double → Exec W Unit
  set_netem_action_param action param correlation = do
    if is_zero correlation then pure tt else correlate (netem_correlation_func action) correlation
    set_param action param

  abbrev pub fail_if : Bool → Exec W Unit
  fail_if true = raise efail
  fail_if false = pure tt

  -- The discipline of the interface, from the checks of the parameters to its start.
  unfoldable pub netem_start :
      NetemAction → Double → Double → NetemAction → Double → Double → Exec W Unit
  netem_start action1 correlation1 param1 action2 correlation2 param2 = do
    fail_if (is_none action1)
    fail_if (is_negative param1 || is_negative param2)
    set_kind_netem ta if_name
    set_netem_action_param action1 param1 correlation1
    if is_none action2 then pure tt else set_netem_action_param action2 param2 correlation2
    qdisc_enable ta if_name

module _ (params : ParamLib) {W : Type 0} (te : TeLib W) (cfg : CfgLib W) (pci : PciLib W)
    (fios : FioLib W) (lib : TestLib W) where
  open lib use {test_get_rpcs}

  -- One run of FIO, from its options on.
  unfoldable pub one_fio : Test FioVars W Unit
  one_fio = do
    opts ← aside (read_opts params te cfg pci fios lib)
    prepare_fio params te cfg pci fios lib opts
    run_fio params te cfg pci fios lib
    report_fio params te cfg pci fios lib

  unfoldable pub both_rpcs : Exec W Unit
  both_rpcs = test_get_rpcs host_ta >> test_get_rpcs disk_ta

  -- main() of fio_netem.c, where `start` is netem_start on the interface of the server.
  unfoldable pub fio_netem : Exec W Unit → Exec W Unit
  fio_netem start =
      run_or_end no_fio (do aside both_rpcs; aside start; one_fio)
        (λ v w. (ok tt, destroy_fio params te cfg pci fios lib v w))

  module _ (bpf : BpfLib W) where
    open bpf use {
      tapi_bpf_stim_init, tapi_bpf_stim_drop, tapi_bpf_stim_dup, tapi_bpf_stim_delay,
      tapi_bpf_stim_del,
    }

    -- The status of tapi_bpf_stim_init() is not looked at: on an error the handle stays NULL.
    abbrev pub handle_of : {V : Type 0} → Result ℕ × W → V → Status × ((V × Option ℕ) × W)
    handle_of (ok h, w) v = (ok tt, ((v, some h), w))
    handle_of (err e, w) v = (ok tt, ((v, none), w))

    unfoldable pub init_stim : Bytes → Stimulus → Test (FioVars × Option ℕ) W Unit
    init_stim if_name stimulus ((v, _), w) =
        handle_of (tapi_bpf_stim_init disk_ta if_name stimulus w) v

    unfoldable pub activate : Stimulus → ℕ → Option ℕ → Exec W Unit
    activate unknown_stimulus n handle = pure tt
    activate stimulus n none = raise ended
    activate stim_drop n (some h) = tapi_bpf_stim_drop h n
    activate stim_duplicate n (some h) = tapi_bpf_stim_dup h n
    activate stim_delay n (some h) = tapi_bpf_stim_delay h n

    abbrev pub activate_stored : Stimulus → ℕ → Test (FioVars × Option ℕ) W Unit
    activate_stored stimulus n = reading (λ v. activate stimulus n v.1)

    -- main() of fio_bpf_stimuli.c. ERROR_VERDICT() only logs.
    unfoldable pub fio_bpf_stimuli : Bytes → Stimulus → ℕ → Exec W Unit
    fio_bpf_stimuli if_name stimulus stimulus_param =
        run_or_end (no_fio, none)
          (do
            aside both_rpcs
            init_stim if_name stimulus
            activate_stored stimulus stimulus_param
            within one_fio)
          (λ v w. (ok tt, tapi_bpf_stim_del v.1 (destroy_fio params te cfg pci fios lib v.0 w)))

-- The limits of the memory that an agent may lock, in the Configurator.
pub record RlimitLib (W : Type 0) : Type 0 where
  -- cfg_get_instance_fmt() and cfg_set_instance_fmt() for a number
  pub get_number : Bytes → Exec W ℕ
  pub set_number : ℕ → Bytes → Exec W Unit

abbrev pub memlock_oid : Bytes → Bytes
memlock_oid name = codes "/agent:Agt_disk/rlimits:/memlock:/" ++ name

-- (unsigned int)RLIM_INFINITY
abbrev pub memlock_inf : ℕ
memlock_inf = 0xffffffff

module _ {W : Type 0} (lib : RlimitLib W) where
  open lib use {get_number, set_number}

  unfoldable pub raise_limits : Exec W Unit
  raise_limits =
      set_number memlock_inf (memlock_oid (codes "max:"))
      >> set_number memlock_inf (memlock_oid (codes "cur:"))

  -- main() of network_stimuli/prologue.c.
  unfoldable pub network_prologue : Exec W Unit
  network_prologue = do
    memlock_cur ← get_number (memlock_oid (codes "cur:"))
    memlock_max ← get_number (memlock_oid (codes "max:"))
    if (memlock_cur == memlock_inf) && (memlock_max == memlock_inf) then pure tt else raise_limits
