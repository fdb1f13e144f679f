-- ===== src/Cluster/System/Signals.antt =====
-- The user events of antsd/internal/cluster between the machines of a site: a machine receives what
-- some machine has sent, itself included, at any time, in any order and any number of times. Machines
-- may boot and go at any moment, and users press the buttons of any of them.
use zero_config_ha_cluster.Common.{ℕ, suc, ◌≡◌, Bool, true, false, List, [], ◌∷◌, ◌++◌, In}
use zero_config_ha_cluster.Node.Persist.{StateFile}
use zero_config_ha_cluster.Cluster.Manager.{
  Manager, Env, Config, Payload, EventName, Effect, send_user_event, Operation, new_manager,
}
use zero_config_ha_cluster.Cluster.Rejoin.{choose_initial_state}
use zero_config_ha_cluster.Cluster.Loop.{
  Input, user_event, confirm_bootstrap, handle, on_k3s_operation_succeeded, on_k3s_operation_failed,
}

-- The machines, everything that any of them ever did to the outside, and how often a user has
-- confirmed the creation of a cluster.
pub record Site : Type 0 where
  pub machines : List Manager
  pub sent : List Effect
  pub confirmed : ℕ

-- The inputs that are neither a user event nor the confirmation.
unfoldable pub is_local : Input → Bool
is_local (user_event _ _) = false
is_local confirm_bootstrap = false
is_local _ = true

-- A turn of a machine, but for the confirmation.
pub data Turns (sent : List Effect) (m : Manager) : Manager → Type 0 where
  hears :
      (env : Env) (name : EventName) (p : Payload)
      → In (send_user_event name p) sent
      → Turns sent m (handle env (user_event name p) m)
  reacts : (env : Env) (i : Input) → is_local i ≡ true → Turns sent m (handle env i m)
  succeeds :
      (env : Env) (ops : List Operation)
      → Turns sent m (on_k3s_operation_succeeded env (record m { operations = ops }))
  fails :
      (env : Env) (ops : List Operation)
      → Turns sent m (on_k3s_operation_failed env (record m { operations = ops }))

-- What a site can come to.
pub data Forms : Site → Type 0 where
  nobody : Forms (record { machines = []; sent = []; confirmed = 0 })
  boots :
      (s : Site) (config : Config) (grace settle : ℕ) (file : StateFile)
      → Forms s
      → Forms (record s {
        machines = choose_initial_state file (new_manager config grace settle) ∷ s.machines;
      })
  goes :
      (s : Site) (before after : List Manager) (m : Manager)
      → s.machines ≡ before ++ m ∷ after
      → Forms s
      → Forms (record s { machines = before ++ after })
  turns :
      (s : Site) (before after : List Manager) (m m' : Manager)
      → s.machines ≡ before ++ m ∷ after
      → Turns s.sent m m'
      → Forms s
      → Forms (record s { machines = before ++ m' ∷ after; sent = m'.effects ++ s.sent })
  confirms :
      (s : Site) (before after : List Manager) (m : Manager) (env : Env)
      → s.machines ≡ before ++ m ∷ after
      → Forms s
      → Forms (record {
        machines = before ++ handle env confirm_bootstrap m ∷ after;
        sent = (handle env confirm_bootstrap m).effects ++ s.sent;
        confirmed = suc s.confirmed;
      })
