-- ===== src/Tests/Rescaling.antt =====
-- The rounds and the orders of antsd/internal/cluster/rescale.go on concrete machines.
use zero_config_ha_cluster.Common.{◌+◌, ◌≤◌, ◌≡◌, refl, true, false, [], ◌∷◌, contains, arith}
use zero_config_ha_cluster.Node.State.{State, State-discrete, to_string}
use zero_config_ha_cluster.Node.Tag.{of_string}
use zero_config_ha_cluster.Node.Role.{server, desired_server_count, sort}
use zero_config_ha_cluster.Cluster.View.{
  get_tag, state_tag, is_alive, is_failed, is_member_alive_or_failed, is_node_a_k3s_server,
  is_node_changing_etcd_membership, tag_is, failed_members_names, is_alive_in,
  lowest_named_alive_member_in, highest_named_alive_member_in, find_promotion_target,
  find_demotion_target, is_rescale_coordinator, population, view_desired_server_count,
  holds_server_slot, k3s_server_count, needs_another_k3s_server, has_too_many_k3s_servers,
  is_etcd_membership_changing,
}
use zero_config_ha_cluster.Cluster.Failures.{
  lookup, since_or, deadline_of, round_evictable, round_next, durably_from,
  durably_failed_members_names, track_failures, delete,
}
use zero_config_ha_cluster.Cluster.Manager.{new_manager}
use zero_config_ha_cluster.Cluster.Rescale.{
  choose_conversion_target, start_eviction, start_coordination_round, reset_progress,
  observe_failures, evaluate, maybe_rescale,
}
use zero_config_ha_cluster.Serfnode.{publish}
use zero_config_ha_cluster.Cluster.Safety.Rounds.{
  round_starts_only_when_free, evicts_only_durably_failed,
}
use zero_config_ha_cluster.Cluster.Safety.Conversion.{converting, distance, conversion_approaches}
use zero_config_ha_cluster.Tests.Data.{member, one_failed, too_few, sees, manager_in}
use zero_config_ha_cluster.Tests.Machines.{failing_server}

round_starts_only_when_free_example :
    ((manager_in "a" State.stable_server).config.rescale_enabled ≡ true)
    × ((manager_in "a" State.stable_server).state ≡ State.stable_server)
    × (is_rescale_coordinator one_failed "a" ≡ true)
    × ((manager_in "a" State.stable_server).rescale.retry_not_before ≤ 5)
    × (is_etcd_membership_changing one_failed ≡ false)
unfolding lowest_named_alive_member_in is_alive_in is_alive state_tag get_tag to_string
    State-discrete maybe_rescale observe_failures track_failures failed_members_names lookup
    since_or is_rescale_coordinator is_etcd_membership_changing tag_is of_string
    is_node_changing_etcd_membership evaluate durably_failed_members_names durably_from deadline_of
    round_evictable round_next start_eviction start_coordination_round reset_progress new_manager
    delete is_failed sort
round_starts_only_when_free_example =
    round_starts_only_when_free (sees one_failed) one_failed failing_server
      (λ e. absurd (ground (arith, e))) refl

evicts_only_durably_failed_example :
    (contains (failed_members_names one_failed) "b" ≡ true)
    × (since_or (lookup "b" failing_server.rescale.failed_since) 5 + failing_server.eviction_grace
        ≤ 5)
unfolding lowest_named_alive_member_in is_alive_in is_alive state_tag get_tag to_string
    State-discrete maybe_rescale observe_failures track_failures failed_members_names lookup
    since_or is_rescale_coordinator is_etcd_membership_changing tag_is of_string
    is_node_changing_etcd_membership evaluate durably_failed_members_names durably_from deadline_of
    round_evictable round_next start_eviction start_coordination_round reset_progress new_manager
    delete is_failed sort
evicts_only_durably_failed_example =
    evicts_only_durably_failed (sees one_failed) one_failed failing_server ("b" ∷ []) "b" refl refl

conversion_approaches_example :
    (view_desired_server_count (publish "b" (converting server) too_few)
      ≡ view_desired_server_count too_few)
    × (distance
            (k3s_server_count (publish "b" (converting server) too_few))
            (view_desired_server_count too_few)
          + 1
        ≡ distance (k3s_server_count too_few) (view_desired_server_count too_few))
unfolding lowest_named_alive_member_in is_alive_in is_alive state_tag get_tag to_string
    State-discrete choose_conversion_target needs_another_k3s_server has_too_many_k3s_servers
    k3s_server_count holds_server_slot is_member_alive_or_failed is_failed tag_is of_string
    is_node_a_k3s_server view_desired_server_count population desired_server_count
    find_promotion_target find_demotion_target highest_named_alive_member_in
conversion_approaches_example =
    conversion_approaches too_few "a" (member "b" "alive" "stable_agent") server (ground arith)
      (ground arith) refl
