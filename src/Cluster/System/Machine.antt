-- ===== src/Cluster/System/Machine.antt =====
-- The three turns that build one machine (antsd/internal/cluster/bootstrap.go).
use zero_config_ha_cluster.Common.{
  ℕ, ◌≤◌, ◌≡◌, refl, sym, ap, ◌∙◌, ◌⊎◌, ◌==◌, inl, inr, true, List, [], ◌∷◌, map, none, some,
  length, ltb, min, if◌then◌else◌, arith, not, if-elim,
}
use zero_config_ha_cluster.Node.State.{
  State, State-discrete, is_state, bootstrap_waiting, bootstrap_install_init,
  bootstrap_install_server, bootstrap_install_agent, stable_server, stable_agent,
}
use zero_config_ha_cluster.Node.Persist.{load}
use zero_config_ha_cluster.Node.Role.{rank, role_for_rank, desired_server_count, stable_state}
use zero_config_ha_cluster.Cluster.View.{
  View, alive_member_names, stable_server_count, find_k3s_join_target,
  find_existing_k3s_cluster_member,
}
use zero_config_ha_cluster.Cluster.Manager.{
  Manager, Env, Config, Operation, install_init, install_server, install_agent, new_manager, empty,
  bootstrap_requested, bootstrap_start, transition, start_k3s_operation, observe_cluster,
}
use zero_config_ha_cluster.Cluster.Rejoin.{choose_initial_state, build_first_boot_state}
use zero_config_ha_cluster.Cluster.Bootstrap.{
  stop_bootstrap_timer, on_bootstrap_start, take_role, maybe_install_server, maybe_install_agent,
  on_bootstrap_install_succeeded, on_bootstrap_requested,
}
use zero_config_ha_cluster.Cluster.Loop.{
  handle_user_event, user_event, handle, on_k3s_operation_succeeded,
}
use zero_config_ha_cluster.Cluster.System.Handlers.{desired_server_count-positive}
use zero_config_ha_cluster.Cluster.System.{servers}
use zero_config_ha_cluster.Cluster.System.Observation.{
  fresh, member_of, env_of, names, names-observed, servers-observed,
}

-- What the three turns make of a fresh machine.
abbrev pub requested : Env → Manager → Manager
requested env m = handle env (user_event bootstrap_requested empty) m

abbrev pub begun : Env → Manager → Manager
begun env m = handle env (user_event bootstrap_start empty) (requested env m)

-- The machine once the result of its operation is taken.
abbrev pub ended : Manager → Manager
ended m = record m { operations = [] }

abbrev pub built : Env → Manager → Manager
built env m = on_k3s_operation_succeeded env (ended (begun env m))

abbrev pub placed : ℕ → ℕ → State
placed n r = if ltb r (desired_server_count n) then stable_server else stable_agent

abbrev installing : ℕ → ℕ → State
installing n r =
    if r == 0
    then bootstrap_install_init
    else if ltb r (desired_server_count n)
    then bootstrap_install_server
    else bootstrap_install_agent

take_role-zero :
    (v : View) (m : Manager)
    → find_existing_k3s_cluster_member v ≡ none
    → (take_role v 0 m).state ≡ bootstrap_install_init
unfolding take_role start_k3s_operation transition
take_role-zero v m e = rw (e, take_role) refl

take_role_at_once :
    (v : View) (m : Manager) (r : ℕ)
    → m.state ≡ bootstrap_waiting
    → stable_server_count v ≡ min r (desired_server_count (length (alive_member_names v)))
    → ((find_existing_k3s_cluster_member v ≡ none) × (r ≡ 0))
      ⊎ (((find_k3s_join_target v).1 ≡ true) × (1 ≤ r))
    → (take_role v r m).state ≡ installing (length (alive_member_names v)) r
unfolding take_role maybe_install_server maybe_install_agent role_for_rank
take_role_at_once v m r w k (inl (e, z)) =
    ap (λ q. (take_role v q m).state) z
    ∙ take_role-zero v m e
    ∙ sym (ap (installing (length (alive_member_names v))) z)
take_role_at_once v m r w k (inr (f, z)) = ground arith

-- The installation that a role starts.
abbrev pub installation : View → ℕ → Operation
installation v r =
    if r == 0
    then install_init
    else if ltb r (desired_server_count (length (alive_member_names v)))
    then install_server (find_k3s_join_target v).0.ip
    else install_agent (find_k3s_join_target v).0.ip

take_role_zero-operations :
    (v : View) (m : Manager)
    → find_existing_k3s_cluster_member v ≡ none
    → (take_role v 0 m).operations ≡ install_init ∷ m.operations
unfolding take_role start_k3s_operation transition
take_role_zero-operations v m e = rw (e, take_role) refl

take_role-operations :
    (v : View) (m : Manager) (r : ℕ)
    → m.state ≡ bootstrap_waiting
    → stable_server_count v ≡ min r (desired_server_count (length (alive_member_names v)))
    → ((find_existing_k3s_cluster_member v ≡ none) × (r ≡ 0))
      ⊎ (((find_k3s_join_target v).1 ≡ true) × (1 ≤ r))
    → (take_role v r m).operations ≡ installation v r ∷ m.operations
unfolding take_role maybe_install_server maybe_install_agent role_for_rank start_k3s_operation
    transition
take_role-operations v m r w k (inl (e, z)) =
    ap (λ q. (take_role v q m).operations) z
    ∙ take_role_zero-operations v m e
    ∙ sym (ap (λ q. installation v q ∷ m.operations) z)
take_role-operations v m r w k (inr (f, z)) = ground arith

init-placed :
    (env : Env) (m : Manager)
    → m.state ≡ bootstrap_install_init
    → (on_k3s_operation_succeeded env m).state ≡ stable_server
unfolding on_k3s_operation_succeeded on_bootstrap_install_succeeded build_first_boot_state
    stable_state
init-placed env m e = ground arith

server-placed :
    (env : Env) (m : Manager)
    → m.state ≡ bootstrap_install_server
    → (on_k3s_operation_succeeded env m).state ≡ stable_server
unfolding on_k3s_operation_succeeded on_bootstrap_install_succeeded build_first_boot_state
    stable_state
server-placed env m e = ground arith

agent-placed :
    (env : Env) (m : Manager)
    → m.state ≡ bootstrap_install_agent
    → (on_k3s_operation_succeeded env m).state ≡ stable_agent
unfolding on_k3s_operation_succeeded on_bootstrap_install_succeeded build_first_boot_state
    stable_state
agent-placed env m e = ground arith

installing-placed :
    (env : Env) (m : Manager) (n r : ℕ)
    → 1 ≤ desired_server_count n
    → m.state ≡ installing n r
    → (on_k3s_operation_succeeded env m).state ≡ placed n r
installing-placed env m n r p e =
    ground (arith, init-placed env m, server-placed env m, agent-placed env m)

on_k3s_operation_succeeded-config :
    (env : Env) (m : Manager) (n r : ℕ)
    → m.state ≡ installing n r
    → (on_k3s_operation_succeeded env m).config ≡ m.config
unfolding on_k3s_operation_succeeded on_bootstrap_install_succeeded
on_k3s_operation_succeeded-config env m n r e = ground arith

take_role-config : (v : View) (m : Manager) (r : ℕ) → (take_role v r m).config ≡ m.config
unfolding take_role maybe_install_server maybe_install_agent
take_role-config v m r = ground arith

on_bootstrap_start-take_role :
    (env : Env) (m : Manager) (r : ℕ)
    → m.state ≡ bootstrap_waiting
    → rank (alive_member_names (observe_cluster env m)) m.config.node_name ≡ some r
    → on_bootstrap_start env m ≡ take_role (observe_cluster env m) r (stop_bootstrap_timer m)
unfolding on_bootstrap_start
on_bootstrap_start-take_role env m r w e =
    if-elim (λ x. x ≡ take_role (observe_cluster env m) r (stop_bootstrap_timer m))
      (not (is_state m.state bootstrap_waiting)) m _ (λ h. absurd (ground arith)) (λ _. rw e refl)

pub requested-state :
    (env : Env) (grace settle : ℕ) (c : Config)
    → (requested env (fresh grace settle c)).state ≡ bootstrap_waiting
unfolding handle handle_user_event on_bootstrap_requested choose_initial_state load State-discrete
requested-state env grace settle c = refl

requested-config :
    (env : Env) (grace settle : ℕ) (c : Config) → (requested env (fresh grace settle c)).config ≡ c
unfolding handle handle_user_event on_bootstrap_requested choose_initial_state load new_manager
    State-discrete
requested-config env grace settle c = refl

-- What a fresh machine is told by the members: its rank, and whether there is a cluster to join.
pub record IsTold (ms : List Manager) (c : Config) (r : ℕ) : Type 0 where
  pub ranked : rank (names ms) c.node_name ≡ some r
  pub many : 1 ≤ length (names ms)
  pub counted : servers ms ≡ min r (desired_server_count (length (names ms)))
  pub joins :
      ((find_existing_k3s_cluster_member (map member_of ms) ≡ none) × (r ≡ 0))
      ⊎ (((find_k3s_join_target (map member_of ms)).1 ≡ true) × (1 ≤ r))

module _ (grace settle : ℕ) (c : Config) (ms : List Manager) (r : ℕ) (t : IsTold ms c r) where
  pub told-rank :
      rank
        (alive_member_names (map member_of ms))
        (requested (env_of ms) (fresh grace settle c)).config.node_name
      ≡ some r
  told-rank =
      ap (λ l. rank l (requested (env_of ms) (fresh grace settle c)).config.node_name)
        (names-observed ms)
      ∙ ap (λ k. rank (names ms) k.node_name) (requested-config (env_of ms) grace settle c)
      ∙ t.ranked

  begun-eq :
      begun (env_of ms) (fresh grace settle c)
      ≡ take_role
          (map member_of ms)
          r
          (stop_bootstrap_timer (requested (env_of ms) (fresh grace settle c)))
  unfolding handle handle_user_event
  begun-eq =
      on_bootstrap_start-take_role (env_of ms) (requested (env_of ms) (fresh grace settle c)) r
        (requested-state (env_of ms) grace settle c) told-rank

  begun-state : (begun (env_of ms) (fresh grace settle c)).state ≡ installing (length (names ms)) r
  unfolding stop_bootstrap_timer
  begun-state =
      ap (λ m. m.state) begun-eq
      ∙ take_role_at_once (map member_of ms) _ r (requested-state (env_of ms) grace settle c)
          (servers-observed ms
            ∙ t.counted
            ∙ ap (λ l. min r (desired_server_count (length l))) (sym (names-observed ms)))
          t.joins
      ∙ ap (λ l. installing (length l) r) (names-observed ms)

  pub begun-operations :
      (begun (env_of ms) (fresh grace settle c)).operations ≡ installation (map member_of ms) r ∷ []
  unfolding stop_bootstrap_timer handle handle_user_event on_bootstrap_requested
      choose_initial_state load new_manager State-discrete
  begun-operations =
      ap (λ m. m.operations) begun-eq
      ∙ take_role-operations (map member_of ms) _ r (requested-state (env_of ms) grace settle c)
          (servers-observed ms
            ∙ t.counted
            ∙ ap (λ l. min r (desired_server_count (length l))) (sym (names-observed ms)))
          t.joins

  pub built-state : (built (env_of ms) (fresh grace settle c)).state ≡ placed (length (names ms)) r
  built-state =
      installing-placed (env_of ms) (ended (begun (env_of ms) (fresh grace settle c)))
        (length (names ms)) r (desired_server_count-positive (length (names ms)) t.many) begun-state

  pub built-config : (built (env_of ms) (fresh grace settle c)).config ≡ c
  unfolding stop_bootstrap_timer
  built-config =
      on_k3s_operation_succeeded-config (env_of ms)
        (ended (begun (env_of ms) (fresh grace settle c))) (length (names ms)) r begun-state
      ∙ ap (λ m. m.config) begun-eq
      ∙ take_role-config (map member_of ms) _ r
      ∙ requested-config (env_of ms) grace settle c
