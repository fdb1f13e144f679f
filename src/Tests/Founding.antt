-- ===== src/Tests/Founding.antt =====
-- The bootstrap of antsd/internal/cluster/bootstrap.go on concrete machines.
use zero_config_ha_cluster.Common.{◌≡◌, refl, [], ◌∷◌, none, some}
use zero_config_ha_cluster.Node.State.{State, State-discrete, to_string, in_cluster}
use zero_config_ha_cluster.Node.Tag.{of_string, tag_in_cluster}
use zero_config_ha_cluster.Node.Role.{sort, index, rank}
use zero_config_ha_cluster.Cluster.View.{
  get_tag, state_tag, is_alive, is_failed, is_member_alive_or_failed, alive_member_names,
  is_alive_in, lowest_named_alive_member_in, find_existing_k3s_cluster_member,
}
use zero_config_ha_cluster.Cluster.Manager.{install_init, new_manager}
use zero_config_ha_cluster.Cluster.Bootstrap.{on_bootstrap_start}
use zero_config_ha_cluster.Cluster.Safety.Founding.{founds_only_as_first}
use zero_config_ha_cluster.Tests.Data.{waiting_two, sees, manager_in}

founds_only_as_first_example :
    (rank (alive_member_names waiting_two) "a" ≡ some 0)
    × (find_existing_k3s_cluster_member waiting_two ≡ none)
    × ((on_bootstrap_start (sees waiting_two) (manager_in "a" State.bootstrap_waiting)).operations
        ≡ install_init ∷ [])
unfolding lowest_named_alive_member_in is_alive_in is_alive state_tag get_tag to_string
    State-discrete on_bootstrap_start rank sort index alive_member_names
    find_existing_k3s_cluster_member is_member_alive_or_failed is_failed tag_in_cluster of_string
    in_cluster new_manager
founds_only_as_first_example =
    founds_only_as_first (sees waiting_two) (manager_in "a" State.bootstrap_waiting) refl refl
