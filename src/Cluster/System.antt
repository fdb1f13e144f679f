-- ===== src/Cluster/System.antt =====
-- The machines of one bootstrap, each of which runs the orchestrator of antsd/internal/cluster, as
-- one system: a step is one turn of the run loop of one machine. Serf is the observation that a
-- machine acts on, which may lag behind: it shows no stable server that is not there. On the start
-- signal, the machines agree on who is alive. The rescaling workflow is turned off.
pub mod Signals
pub mod Asking
pub mod Causes
pub mod Fits
pub mod Handlers
pub mod Local
pub mod Order
pub mod Observation
pub mod Machine
pub mod Placement
pub mod Completion
use zero_config_ha_cluster.Common.{
  ℕ, suc, ◌≤◌, ◌≡◌, Bool, true, false, List, [], ◌∷◌, ◌++◌, some, length, count_if,
}
use zero_config_ha_cluster.Node.State.{
  State, is_state, stable_server, bootstrap_install_init, bootstrap_install_server,
}
use zero_config_ha_cluster.Node.Role.{rank}
use zero_config_ha_cluster.Cluster.View.{alive_member_names, stable_server_count}
use zero_config_ha_cluster.Cluster.Manager.{
  Manager, Env, Payload, Operation, bootstrap_start, rescale_convert, observe_cluster,
}
use zero_config_ha_cluster.Cluster.Loop.{
  Input, user_event, forget_probed, handle, on_k3s_operation_succeeded, on_k3s_operation_failed,
}

abbrev pub is_stable_server : Manager → Bool
is_stable_server m = is_state m.state stable_server

-- How many machines are servers for good.
abbrev pub servers : List Manager → ℕ
servers ms = count_if is_stable_server ms

-- The inputs that do not ask for a round of the rescaling workflow, and are not the start signal.
unfoldable pub is_ordinary : Input → Bool
is_ordinary (user_event bootstrap_start _) = false
is_ordinary (user_event rescale_convert _) = false
is_ordinary (forget_probed _ true) = false
is_ordinary _ = true

-- One turn of the machine of rank `r`, where `n` machines build the cluster and `s` of them are
-- stable servers: an input, or the result of one of its operations in flight.
pub data Turn (n s r : ℕ) (m : Manager) : Manager → Type 0 where
  starts :
      (env : Env) (p : Payload)
      → rank (alive_member_names (observe_cluster env m)) m.config.node_name ≡ some r
      → length (alive_member_names (observe_cluster env m)) ≡ n
      → stable_server_count (observe_cluster env m) ≤ s
      → Turn n s r m (handle env (user_event bootstrap_start p) m)
  reacts :
      (env : Env) (i : Input)
      → is_ordinary i ≡ true
      → ((m' : Manager) → stable_server_count (observe_cluster env m') ≤ s)
      → Turn n s r m (handle env i m)
  succeeds :
      (env : Env) (op : Operation) (before after : List Operation)
      → m.operations ≡ before ++ op ∷ after
      → Turn n s r m (on_k3s_operation_succeeded env (record m { operations = before ++ after }))
  fails :
      (env : Env) (op : Operation) (before after : List Operation)
      → m.operations ≡ before ++ op ∷ after
      → Turn n s r m (on_k3s_operation_failed env (record m { operations = before ++ after }))

-- One machine of the list takes a turn; the first of the list has the rank `r`.
pub data TurnIn (n s : ℕ) : ℕ → List Manager → List Manager → Type 0 where
  first :
      {r : ℕ} {m m' : Manager} {ms : List Manager}
      → Turn n s r m m'
      → TurnIn n s r (m ∷ ms) (m' ∷ ms)
  later :
      {r : ℕ} {m : Manager} {ms ms' : List Manager}
      → TurnIn n s (suc r) ms ms'
      → TurnIn n s r (m ∷ ms) (m ∷ ms')

-- What a system can come to, by steps of its machines in any order.
pub data Run (n : ℕ) : List Manager → List Manager → Type 0 where
  done : {ms : List Manager} → Run n ms ms
  step :
      {ms ms' ms'' : List Manager} → TurnIn n (servers ms) 0 ms ms' → Run n ms' ms'' → Run n ms ms''
