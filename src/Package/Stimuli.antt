-- ===== src/Package/Stimuli.antt =====
-- block-ts/blk-proxy/network_stimuli/fio_netem.c: which functions the test calls.
use cns_virtblk_ts.Base.{◌≡◌, refl, Bool-cases, inl, inr, false}
use cns_virtblk_ts.Base.Text.{Bytes}
use cns_virtblk_ts.Base.Exec.{Exec}
use cns_virtblk_ts.Package.Network.{
  NetemAction, delay, loss, duplicate, limit, gap, reorder, corruption, none_action, DoubleLib,
  NetemLib, is_none, netem_correlation_func, set_param, set_netem_action_param, netem_start,
}

module _ (d : DoubleLib) {W : Type 0} (netem : NetemLib d.Double W) (ta if_name : Bytes)
    (m : Exec W Unit) where
  -- The same library, with another word behind the table.
  abbrev other : NetemLib d.Double W
  other = record netem { behind_table = m }

  param-same :
      (action : NetemAction) (param correlation : d.Double)
      → is_none action ≡ false
      → set_netem_action_param d other ta if_name action param correlation
        ≡ set_netem_action_param d netem ta if_name action param correlation
  unfolding set_netem_action_param netem_correlation_func set_param
  param-same delay p c e = refl
  param-same loss p c e = refl
  param-same duplicate p c e = refl
  param-same limit p c e = refl
  param-same gap p c e = refl
  param-same reorder p c e = refl
  param-same corruption p c e = refl
  param-same none_action p c e = cc

  -- The table of functions for the correlation has no entry for the action "none", and it is never read
  -- there: whatever lies behind the table, fio_netem starts the discipline in the same way.
  pub netem_start-in_table :
      (action1 : NetemAction) (correlation1 param1 : d.Double) (action2 : NetemAction)
      (correlation2 param2 : d.Double)
      → netem_start d
          (record netem { behind_table = m })
          ta
          if_name
          action1
          correlation1
          param1
          action2
          correlation2
          param2
        ≡ netem_start d netem ta if_name action1 correlation1 param1 action2 correlation2 param2
  unfolding netem_start
  netem_start-in_table action1 c1 p1 action2 c2 p2 = elim (Bool-cases (is_none action1)) [
    | inl e1 ↦ rw e1 refl
    | inr e1 ↦ elim (Bool-cases (is_none action2)) [
      | inl e2 ↦ rw (param-same action1 p1 c1 e1, e2) refl
      | inr e2 ↦ rw (param-same action1 p1 c1 e1, param-same action2 p2 c2 e2) refl
    ]
  ]
