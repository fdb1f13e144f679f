-- ===== src/Cluster/Keeping.antt =====
-- What no handler of antsd/internal/cluster undoes: it drops no operation in flight; but for the
-- confirmation and the two signals of the bootstrap, the machine founds no cluster; but for a
-- confirmation of its name, it does not join one; and but for an order, it keeps its role.
pub mod Handlers
pub mod Rescaling
pub mod Dispatch
pub mod Results
use zero_config_ha_cluster.Common.{
  ℕ, ◌≡◌, Option, none, some, String, str_eq, Bool, true, false, not, ◌&&◌, ◌||◌, length, leb, any,
}
use zero_config_ha_cluster.Node.State.{
  State, bootstrap_waiting, bootstrap_install_init, bootstrap_install_server,
  bootstrap_install_agent, bootstrap_failed, is_state, joining_agent, rescale_promoting,
  rescale_demoting,
}
use zero_config_ha_cluster.Cluster.Manager.{
  Effect, send_user_event, bootstrap_requested, bootstrap_start, forgotten, rescale_convert,
  Manager,
}
use zero_config_ha_cluster.Cluster.Joining.{read_forget_order}
use zero_config_ha_cluster.Cluster.Rounds.{read_rescale_order}
use zero_config_ha_cluster.Cluster.Loop.{Input, user_event, confirm_bootstrap}

-- The states of a machine that founds a cluster together with others.
unfoldable pub is_founding : State → Bool
is_founding bootstrap_waiting = true
is_founding bootstrap_install_init = true
is_founding bootstrap_install_server = true
is_founding bootstrap_install_agent = true
is_founding bootstrap_failed = true
is_founding _ = false

-- One of the two signals of the bootstrap.
unfoldable pub is_signal : Effect → Bool
is_signal (send_user_event bootstrap_requested _) = true
is_signal (send_user_event bootstrap_start _) = true
is_signal _ = false

-- The machine takes no part in founding a cluster, and has sent no signal.
unfoldable pub is_calm : Manager → Bool
unfolding is_founding is_signal
is_calm m = not (is_founding m.state) && not (any is_signal m.effects)

-- The event tells a name to be free: `forgotten`, with that name.
unfoldable pub frees : String → Effect → Bool
unfolding read_forget_order
frees name (send_user_event forgotten p) = elim (read_forget_order p) [
  | none ↦ false
  | some n ↦ str_eq n name
]
frees name _ = false

-- The event orders the machine of that name to convert.
unfoldable pub orders : String → Effect → Bool
unfolding read_rescale_order
orders name (send_user_event rescale_convert p) = elim (read_rescale_order p) [
  | none ↦ false
  | some o ↦ str_eq o.target name
]
orders name _ = false

-- The machine installs on the joining path, or may do so at once.
unfoldable pub is_cleared : Manager → Bool
is_cleared m = m.joining.cleaned || is_state m.state joining_agent

-- The machine changes its role.
unfoldable pub is_converting : Manager → Bool
is_converting m = is_state m.state rescale_promoting || is_state m.state rescale_demoting

-- What is asked to stay as it is: at least so many operations in flight, and the name; and of the
-- flags that are set, a calm machine, one that is not cleared, and one that does not convert.
pub record Asked : Type 0 where
  pub operations : ℕ
  pub name : String
  pub calm : Bool
  pub uncleared : Bool
  pub unordered : Bool

unfoldable pub keeps : Asked → Manager → Bool
unfolding is_calm is_cleared is_converting
keeps k m =
    leb k.operations (length m.operations)
    && (str_eq m.config.node_name k.name
        && ((not k.calm || is_calm m)
            && ((not k.uncleared || not (is_cleared m))
                && (not k.unordered || not (is_converting m)))))

-- The event does not undo what is asked.
unfoldable pub spares : Asked → Effect → Bool
unfolding is_signal frees orders
spares k e =
    (not k.calm || not (is_signal e))
    && ((not k.uncleared || not (frees k.name e)) && (not k.unordered || not (orders k.name e)))

-- Neither does the input.
unfoldable pub allows : Asked → Input → Bool
unfolding spares
allows k (user_event name p) = spares k (send_user_event name p)
allows k confirm_bootstrap = not k.calm
allows k _ = true
