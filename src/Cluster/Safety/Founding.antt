-- ===== src/Cluster/Safety/Founding.antt =====
-- Who may found a cluster, and when the others install (antsd/internal/cluster/bootstrap.go).
use zero_config_ha_cluster.Common.{ℕ, ◌≤◌, ◌<◌, ◌≡◌, true, ◌∷◌, none, some, length, arith}
use zero_config_ha_cluster.Node.State.{
  bootstrap_waiting, bootstrap_install_init, bootstrap_install_server, bootstrap_install_agent,
}
use zero_config_ha_cluster.Node.Role.{server, agent, rank, role_for_rank, desired_server_count}
use zero_config_ha_cluster.Cluster.View.{
  View, alive_member_names, find_k3s_join_target, find_existing_k3s_cluster_member,
  stable_server_count,
}
use zero_config_ha_cluster.Cluster.Manager.{
  Manager, Env, install_init, install_server, install_agent, observe_cluster,
}
use zero_config_ha_cluster.Cluster.Bootstrap.{
  on_bootstrap_start, maybe_install_server, maybe_install_agent,
}

-- A waiting node that founds a cluster on the start signal has rank 0 among the alive members, sees
-- no alive or failed member of a cluster, and starts that one installation.
pub founds_only_as_first :
    (env : Env) (m : Manager)
    → m.state ≡ bootstrap_waiting
    → (on_bootstrap_start env m).state ≡ bootstrap_install_init
    → (rank (alive_member_names (observe_cluster env m)) m.config.node_name ≡ some 0)
      × (find_existing_k3s_cluster_member (observe_cluster env m) ≡ none)
      × ((on_bootstrap_start env m).operations ≡ install_init ∷ m.operations)
unfolding on_bootstrap_start
founds_only_as_first env m h e = ground arith

-- A waiting node whose rank is above 0 and above the number of stable servers, and whose rank makes
-- it a server, keeps waiting on the start signal: it stores its rank, its role and the members, and
-- starts nothing.
pub server_waits_for_turn :
    (env : Env) (m : Manager) (r : ℕ)
    → m.state ≡ bootstrap_waiting
    → rank (alive_member_names (observe_cluster env m)) m.config.node_name ≡ some r
    → stable_server_count (observe_cluster env m) < r
    → r < desired_server_count (length (alive_member_names (observe_cluster env m)))
    → ((on_bootstrap_start env m).state ≡ bootstrap_waiting)
      × ((on_bootstrap_start env m).bootstrap.rank ≡ r)
      × ((on_bootstrap_start env m).bootstrap.role ≡ server)
      × ((on_bootstrap_start env m).bootstrap.members ≡ alive_member_names (observe_cluster env m))
      × ((on_bootstrap_start env m).operations ≡ m.operations)
unfolding on_bootstrap_start role_for_rank
server_waits_for_turn env m r h e f g = ground arith

-- A waiting node that installs as an additional server has the server's role, sees at least as many
-- stable servers as its rank, and joins through the lowest-named of them.
pub server_installs_in_turn :
    (v : View) (m : Manager)
    → m.state ≡ bootstrap_waiting
    → (maybe_install_server v m).state ≡ bootstrap_install_server
    → (m.bootstrap.role ≡ server)
      × (m.bootstrap.rank ≤ stable_server_count v)
      × ((find_k3s_join_target v).1 ≡ true)
      × ((maybe_install_server v m).operations
          ≡ install_server (find_k3s_join_target v).0.ip ∷ m.operations)
unfolding maybe_install_server
server_installs_in_turn v m h e = ground arith

-- A waiting node that installs as an agent has the agent's role and sees all the servers that the
-- members of its bootstrap call for.
pub agent_installs_after_quorum :
    (v : View) (m : Manager)
    → m.state ≡ bootstrap_waiting
    → (maybe_install_agent v m).state ≡ bootstrap_install_agent
    → (m.bootstrap.role ≡ agent)
      × (desired_server_count m.bootstrap.total_alive_members ≤ stable_server_count v)
      × ((find_k3s_join_target v).1 ≡ true)
      × ((maybe_install_agent v m).operations
          ≡ install_agent (find_k3s_join_target v).0.ip ∷ m.operations)
unfolding maybe_install_agent
agent_installs_after_quorum v m h e = ground arith
