-- ===== src/Cluster/Keeping/Results.antt =====
-- The end of an operation, in antsd/internal/cluster/manager.go, keeps what is asked.
use zero_config_ha_cluster.Common.{
  ◌≡◌, refl, true, not, List, [], ◌∷◌, String, str_eq, arith, if-elim,
}
use zero_config_ha_cluster.Node.State.{State, rescale_coordinating}
use zero_config_ha_cluster.Node.Role.{stable_state}
use zero_config_ha_cluster.Cluster.Manager.{Manager, Env, transition}
use zero_config_ha_cluster.Cluster.Rejoin.{on_rejoin_ready, fail_rejoin}
use zero_config_ha_cluster.Cluster.Joining.{
  fail_joining, on_joining_install_succeeded, on_joining_cleanup_checked,
}
use zero_config_ha_cluster.Cluster.Bootstrap.{fail_bootstrap, on_bootstrap_install_succeeded}
use zero_config_ha_cluster.Cluster.Forgetting.{finish_forgetting, confirm_forgotten}
use zero_config_ha_cluster.Cluster.Rounds.{
  erase_members, finish_eviction, abandon_coordination, broadcast_order,
  on_rescale_coordination_done, on_rescale_converted, fail_rescale,
}
use zero_config_ha_cluster.Cluster.Loop.{on_k3s_operation_succeeded, on_k3s_operation_failed}
use zero_config_ha_cluster.Cluster.Keeping.{Asked, keeps}
use zero_config_ha_cluster.Cluster.Keeping.Rescaling.{maybe_rescale-keeps}

module _ (k : Asked) where
  erase_members-keeps :
      (env : Env) (names : List String) (m : Manager)
      → keeps k m ≡ true
      → keeps k (erase_members env names m) ≡ true
  unfolding keeps erase_members
  erase_members-keeps env [] m h = h
  erase_members-keeps env (x ∷ xs) m h = erase_members-keeps env xs _ (ground arith)

  served-keeps :
      (m : Manager) → keeps k m ≡ true → keeps k (transition State.stable_server m) ≡ true
  unfolding keeps transition
  served-keeps m h = ground arith

  evicted-keeps :
      (m : Manager)
      → keeps k m ≡ true
      → keeps k (record m { rescale = record (m.rescale) { evicting = [] } }) ≡ true
  unfolding keeps
  evicted-keeps m h = h

  finish_eviction-keeps :
      (env : Env) (m : Manager) → keeps k m ≡ true → keeps k (finish_eviction env m) ≡ true
  unfolding finish_eviction
  finish_eviction-keeps env m h =
      maybe_rescale-keeps k env _ _
        (served-keeps _ (evicted-keeps _ (erase_members-keeps env m.rescale.evicting m h)))

  confirmed-keeps :
      (env : Env) (m : Manager)
      → keeps k m ≡ true
      → keeps k (
          confirm_forgotten env m.rescale.cleaning (
            transition State.stable_server
              (record m { rescale = record (m.rescale) { cleaning = "" } })))
        ≡ true
  unfolding keeps confirm_forgotten transition
  confirmed-keeps env m h = ground arith

  finish_forgetting-keeps :
      (env : Env) (m : Manager) → keeps k m ≡ true → keeps k (finish_forgetting env m) ≡ true
  unfolding finish_forgetting
  finish_forgetting-keeps env m h = maybe_rescale-keeps k env _ _ (confirmed-keeps env m h)

  abandon_coordination-keeps :
      (env : Env) (m : Manager) → keeps k m ≡ true → keeps k (abandon_coordination env m) ≡ true
  unfolding keeps abandon_coordination
  abandon_coordination-keeps env m h = ground arith

  broadcast_order-keeps :
      (env : Env) (m : Manager) → keeps k m ≡ true → keeps k (broadcast_order env m) ≡ true
  unfolding keeps broadcast_order abandon_coordination
  broadcast_order-keeps env m h = ground arith

  on_rescale_coordination_done-keeps :
      (env : Env) (m : Manager)
      → keeps k m ≡ true
      → keeps k (on_rescale_coordination_done env m) ≡ true
  unfolding on_rescale_coordination_done
  on_rescale_coordination_done-keeps env m h =
      let P : Manager → Type 0 = λ x. keeps k x ≡ true in
      if-elim P (not (str_eq m.rescale.cleaning "")) _ _ (λ _. finish_forgetting-keeps env m h)
        λ _.
          if-elim P (str_eq m.rescale.order.target "") _ _ (λ _. finish_eviction-keeps env m h)
            λ _. broadcast_order-keeps env m h

  pub on_k3s_operation_failed-keeps :
      (env : Env) (m : Manager) → keeps k m ≡ true → keeps k (on_k3s_operation_failed env m) ≡ true
  unfolding keeps on_k3s_operation_failed fail_bootstrap fail_joining fail_rejoin fail_rescale
      abandon_coordination
  on_k3s_operation_failed-keeps env m h = ground arith

  succeeded_in-keeps :
      (s : State) (env : Env) (m : Manager)
      → m.state ≡ s
      → keeps k m ≡ true
      → keeps k (on_k3s_operation_succeeded env m) ≡ true
  unfolding keeps on_k3s_operation_succeeded on_bootstrap_install_succeeded
      on_joining_install_succeeded on_joining_cleanup_checked on_rejoin_ready on_rescale_converted
      stable_state
  succeeded_in-keeps rescale_coordinating env m e h =
      rw (e, on_k3s_operation_succeeded) (on_rescale_coordination_done-keeps env m h)
  succeeded_in-keeps _ env m e h = ground arith

  pub on_k3s_operation_succeeded-keeps :
      (env : Env) (m : Manager)
      → keeps k m ≡ true
      → keeps k (on_k3s_operation_succeeded env m) ≡ true
  on_k3s_operation_succeeded-keeps env m h = succeeded_in-keeps m.state env m refl h
