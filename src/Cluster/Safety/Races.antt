-- ===== src/Cluster/Safety/Races.antt =====
-- An interleaving that the handlers of antsd/internal/cluster do not absorb.
use zero_config_ha_cluster.Common.{◌≡◌, ◌≢◌, true, [], ◌∷◌, none, some, arith, eq_refl}
use zero_config_ha_cluster.Node.State.{State, joining_cleanup, stable_agent}
use zero_config_ha_cluster.Node.Role.{stable_state}
use zero_config_ha_cluster.Cluster.View.{find_k3s_join_target}
use zero_config_ha_cluster.Cluster.Manager.{
  Manager, Env, Payload, check_not_installed, install_agent, set_state,
}
use zero_config_ha_cluster.Cluster.Joining.{
  read_forget_order, maybe_join_cluster, on_forgotten, resume_join, on_joining_install_succeeded,
}
use zero_config_ha_cluster.Cluster.Loop.{on_k3s_operation_succeeded}

-- A confirmation of the node's own name that comes while the check of the local installation is
-- still under way makes the node install; the success of the check then makes it a stable agent and
-- persist that, while the installation is still in flight.
pub early_confirmation_skips_installation :
    (env : Env) (p : Payload) (m : Manager)
    → m.state ≡ joining_cleanup
    → m.operations ≡ check_not_installed ∷ []
    → m.joining.settled ≡ true
    → read_forget_order p ≡ some m.config.node_name
    → (find_k3s_join_target (env.snapshot (set_state State.joining_waiting ∷ m.effects))).1 ≡ true
    → let ip =
        (find_k3s_join_target (env.snapshot (set_state State.joining_waiting ∷ m.effects))).0.ip in
      let m1 = on_forgotten env p m in
      let m2 = on_k3s_operation_succeeded env (record m1 { operations = install_agent ip ∷ [] }) in
      (m1.operations ≡ install_agent ip ∷ check_not_installed ∷ [])
      × (m2.state ≡ stable_agent)
      × (m2.persisted_state ≢ none)
      × (m2.operations ≡ install_agent ip ∷ [])
unfolding on_forgotten resume_join maybe_join_cluster on_k3s_operation_succeeded
    on_joining_install_succeeded stable_state
early_confirmation_skips_installation env p m s o t r f = ground (arith, eq_refl m.config.node_name)
