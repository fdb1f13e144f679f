-- ===== src/Node/State.antt =====
-- antsd/internal/node/state.go: the lifecycle states, and the strings that stand for them in the
-- Serf tag. A string that is none of the constants is `none` under `of_string`; the predicates
-- answer `false` on it, as the `default` branches do.
use zero_config_ha_cluster.Common.{Bool, true, false, String}

pub data State : Type 0 where
  starting : State
  discovering bootstrap_confirm bootstrap_waiting : State
  bootstrap_install_init bootstrap_install_server bootstrap_install_agent bootstrap_failed : State
  joining_waiting joining_cleanup joining_agent joining_failed : State
  rejoin_cluster rejoin_failed : State
  rescale_coordinating rescale_promoting rescale_demoting rescale_failed : State
  stable_server stable_agent : State

unfoldable pub State-discrete : Discrete State
State-discrete = hlevel

-- `a == b` on states.
abbrev pub is_state : State → State → Bool
is_state a b = elim (State-discrete a b) [ yes _ ↦ true | no _ ↦ false ]

-- `string(state)`: the value of each constant.
unfoldable pub to_string : State → String
to_string starting = "starting"
to_string discovering = "fb_discovering"
to_string bootstrap_confirm = "fb_bootstrap_confirm"
to_string bootstrap_waiting = "fb_bootstrap_waiting"
to_string bootstrap_install_init = "fb_bootstrap_install_init"
to_string bootstrap_install_server = "fb_bootstrap_install_servers"
to_string bootstrap_install_agent = "fb_bootstrap_install_agent"
to_string bootstrap_failed = "fb_bootstrap_failed"
to_string joining_waiting = "fb_joining_waiting"
to_string joining_cleanup = "fb_joining_cleanup"
to_string joining_agent = "fb_joining_agent"
to_string joining_failed = "fb_joining_failed"
to_string rejoin_cluster = "rejoin_cluster"
to_string rejoin_failed = "rejoin_failed"
to_string rescale_coordinating = "rescale_coordinating"
to_string rescale_promoting = "rescale_promoting"
to_string rescale_demoting = "rescale_demoting"
to_string rescale_failed = "rescale_failed"
to_string stable_server = "stable_server"
to_string stable_agent = "stable_agent"

-- `State.IsFirstBoot`.
unfoldable pub is_first_boot : State → Bool
is_first_boot discovering = true
is_first_boot bootstrap_confirm = true
is_first_boot bootstrap_waiting = true
is_first_boot bootstrap_install_init = true
is_first_boot bootstrap_install_server = true
is_first_boot bootstrap_install_agent = true
is_first_boot bootstrap_failed = true
is_first_boot joining_waiting = true
is_first_boot joining_cleanup = true
is_first_boot joining_agent = true
is_first_boot joining_failed = true
is_first_boot _ = false

-- `State.InCluster`.
unfoldable pub in_cluster : State → Bool
in_cluster stable_server = true
in_cluster stable_agent = true
in_cluster rejoin_cluster = true
in_cluster rejoin_failed = true
in_cluster rescale_coordinating = true
in_cluster rescale_promoting = true
in_cluster rescale_demoting = true
in_cluster rescale_failed = true
in_cluster _ = false
