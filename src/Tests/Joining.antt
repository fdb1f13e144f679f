-- ===== src/Tests/Joining.antt =====
-- The forget-me protocol of antsd/internal/cluster/forget.go on concrete machines.
use zero_config_ha_cluster.Common.{◌≡◌, refl, ◌≢◌, true, false, [], ◌∷◌, none, some, In}
use zero_config_ha_cluster.Node.State.{State, State-discrete, to_string, is_first_boot, in_cluster}
use zero_config_ha_cluster.Node.Tag.{of_string, tag_is_first_boot}
use zero_config_ha_cluster.Cluster.View.{
  Member, get_tag, state_tag, is_alive, is_node_changing_etcd_membership, tag_is, is_alive_in,
  lowest_named_alive_member_in, find_k3s_join_target, is_rescale_coordinator, is_virgin_member,
  is_etcd_membership_changing,
}
use zero_config_ha_cluster.Cluster.Manager.{install_agent, check_not_installed, new_manager}
use zero_config_ha_cluster.Cluster.Joining.{forget_payload, read_forget_order, on_forgotten}
use zero_config_ha_cluster.Cluster.Forgetting.{can_forget, on_forget_probed}
use zero_config_ha_cluster.Cluster.Loop.{on_k3s_operation_succeeded}
use zero_config_ha_cluster.Cluster.Safety.Forgetting.{erases_only_virgin}
use zero_config_ha_cluster.Cluster.Safety.Races.{early_confirmation_skips_installation}
use zero_config_ha_cluster.Tests.Data.{one_joins, sees, manager_in}
use zero_config_ha_cluster.Tests.Machines.{checking_machine, still_installing}

erases_only_virgin_example :
    (true ≡ true)
    × (State.stable_server ≡ State.stable_server)
    × (is_rescale_coordinator one_joins "a" ≡ true)
    × (is_etcd_membership_changing one_joins ≡ false)
    × ((x : Member) × (s : State) × In x one_joins
        × (x.name ≡ "b")
        × (is_alive x ≡ true)
        × (of_string (state_tag x) ≡ some s)
        × (is_first_boot s ≡ true)
        × (in_cluster s ≡ false))
unfolding lowest_named_alive_member_in is_alive_in is_alive state_tag get_tag to_string
    State-discrete on_forget_probed can_forget is_virgin_member is_rescale_coordinator
    is_etcd_membership_changing tag_is of_string is_node_changing_etcd_membership tag_is_first_boot
    is_first_boot on_forgotten read_forget_order new_manager
erases_only_virgin_example =
    erases_only_virgin (sees one_joins) "b" true (manager_in "a" State.stable_server) refl

early_confirmation_skips_installation_example :
    ((on_forgotten (sees one_joins) (forget_payload "b") checking_machine).operations
      ≡ install_agent "10.0.0.9" ∷ check_not_installed ∷ [])
    × ((on_k3s_operation_succeeded (sees one_joins) still_installing).state ≡ State.stable_agent)
    × ((on_k3s_operation_succeeded (sees one_joins) still_installing).persisted_state ≢ none)
    × ((on_k3s_operation_succeeded (sees one_joins) still_installing).operations
        ≡ install_agent "10.0.0.9" ∷ [])
unfolding lowest_named_alive_member_in is_alive_in is_alive state_tag get_tag to_string
    State-discrete find_k3s_join_target read_forget_order forget_payload new_manager
early_confirmation_skips_installation_example =
    early_confirmation_skips_installation (sees one_joins) (forget_payload "b") checking_machine
      refl refl refl refl refl
