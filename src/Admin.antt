-- ===== src/Admin.antt =====
-- antsd/internal/admin/server.go: what the dashboard shows of a member, and what the buttons do,
-- through `submitUserAction` and `handleCommand` of antsd/internal/cluster/manager.go. The HTTP server
-- and the templates are outside.
pub mod Actions
pub mod Routes
pub mod Answers
use zero_config_ha_cluster.Common.{
  ℕ, ◌-◌, ◌/◌, if◌then◌else◌, Bool, not, List, [], ◌∷◌, Option, none, some, String, str_eq, keep,
  sort_by,
}
use zero_config_ha_cluster.Node.State.{to_string}
use zero_config_ha_cluster.Cluster.View.{Member}
use zero_config_ha_cluster.Cluster.Manager.{Manager, Env, CommandType}
use zero_config_ha_cluster.Cluster.Running.{Command, command_of}
use zero_config_ha_cluster.Cluster.Bootstrap.{
  ActionResult, accepted, conflict, failed, on_request_bootstrap, on_confirm_bootstrap,
  on_cancel_bootstrap,
}
use zero_config_ha_cluster.Serfnode.Library.{Snapshot}

-- `Tag`.
pub record Tag : Type 0 where
  pub key : String
  pub value : String

-- The loop of `OtherTags`.
unfoldable pub tags_without_state : List (String × String) → List Tag
tags_without_state [] = []
tags_without_state ((k, v) ∷ tags) =
    let rest = tags_without_state tags in
    if str_eq k "state" then rest else record { key = k; value = v } ∷ rest

-- `Member.OtherTags`.
unfoldable pub other_tags : Member → List Tag
unfolding tags_without_state
other_tags m = sort_by (λ t. t.key) (tags_without_state m.tags)

-- `Manager.State`.
unfoldable pub controller_state : Manager → String
controller_state m = to_string m.state_view

-- `Status`. Times are numbers of nanoseconds.
pub record Status : Type 0 where
  pub snapshot : Snapshot
  pub state : String
  pub started_at : ℕ
  pub uptime_seconds : ℕ

-- `status`, where the clock does not run backwards.
unfoldable pub status : Snapshot → Manager → ℕ → Status
unfolding controller_state
status snapshot m started_at = record {
  snapshot = snapshot;
  state = controller_state m;
  started_at = started_at;
  uptime_seconds = (snapshot.collected_at - started_at) / 1_000_000_000;
}

-- The answers of `handleAction`: `http.StatusSeeOther`, `http.StatusConflict` and
-- `http.StatusInternalServerError`.
unfoldable pub answer : ActionResult → ℕ
answer accepted = 303
answer conflict = 409
answer failed = 500

-- The actions of `Controller`.
pub data Action : Type 0 where
  request_bootstrap confirm_bootstrap cancel_bootstrap : Action

-- `RequestBootstrap`, `ConfirmBootstrap` and `CancelBootstrap`: the command that each submits.
unfoldable pub command_of_action : Action → Command
command_of_action request_bootstrap = command_of CommandType.request_bootstrap
command_of_action confirm_bootstrap = command_of CommandType.confirm_bootstrap
command_of_action cancel_bootstrap = command_of CommandType.cancel_bootstrap

-- The three user actions of `handleCommand`.
unfoldable pub run_action : Env → Action → Manager → Manager × ActionResult
run_action env request_bootstrap m = on_request_bootstrap env m
run_action env confirm_bootstrap m = on_confirm_bootstrap env m
run_action env cancel_bootstrap m = on_cancel_bootstrap m

-- `submitUserAction`: the result, or an error when antsd shuts down, before the command is queued or
-- while it waits.
pub data Shutdown : Type 0 where
  running before_queued while_waiting : Shutdown

unfoldable pub submit_user_action : Env → Shutdown → Action → Manager → Manager × ActionResult
unfolding run_action
submit_user_action env running a m = run_action env a m
submit_user_action env before_queued a m = (m, failed)
submit_user_action env while_waiting a m = ((run_action env a m).0, failed)

-- `handleAction`, for a POST on the path of an action.
unfoldable pub handle_action : Env → Shutdown → Action → Manager → Manager × ℕ
unfolding submit_user_action answer
handle_action env s a m = let (m', r) = submit_user_action env s a m in (m', answer r)
