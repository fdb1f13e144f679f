-- ===== src/Cluster/Invariant/Steps.antt =====
-- The handlers keep the invariant.
use zero_config_ha_cluster.Common.{arith}
use zero_config_ha_cluster.Node.State.{in_cluster}
use zero_config_ha_cluster.Cluster.View.{View}
use zero_config_ha_cluster.Cluster.Manager.{Manager, Env}
use zero_config_ha_cluster.Cluster.Joining.{maybe_start_joining_path, maybe_join_cluster}
use zero_config_ha_cluster.Cluster.Bootstrap.{
  on_request_bootstrap, on_confirm_bootstrap, on_cancel_bootstrap, on_bootstrap_requested,
  on_bootstrap_wait_expired, on_bootstrap_start, maybe_install_server, maybe_install_agent,
}
use zero_config_ha_cluster.Cluster.Invariant.{Inv, edge, fits_idle}

pub maybe_start_joining_path-Inv :
    (v : View) (m : Manager) → Inv m → Inv (maybe_start_joining_path v m)
unfolding maybe_start_joining_path in_cluster edge
maybe_start_joining_path-Inv v m i =
    ground (arith, fits_idle m.state m.operations i.matched.fitting)

pub maybe_join_cluster-Inv : (v : View) (m : Manager) → Inv m → Inv (maybe_join_cluster v m)
unfolding maybe_join_cluster in_cluster edge
maybe_join_cluster-Inv v m i = ground (arith, fits_idle m.state m.operations i.matched.fitting)

pub maybe_install_server-Inv : (v : View) (m : Manager) → Inv m → Inv (maybe_install_server v m)
unfolding maybe_install_server in_cluster edge
maybe_install_server-Inv v m i = ground (arith, fits_idle m.state m.operations i.matched.fitting)

pub maybe_install_agent-Inv : (v : View) (m : Manager) → Inv m → Inv (maybe_install_agent v m)
unfolding maybe_install_agent in_cluster edge
maybe_install_agent-Inv v m i = ground (arith, fits_idle m.state m.operations i.matched.fitting)

pub on_request_bootstrap-Inv :
    (env : Env) (m : Manager) → Inv m → Inv (on_request_bootstrap env m).0
unfolding on_request_bootstrap in_cluster edge
on_request_bootstrap-Inv env m i = ground (arith, fits_idle m.state m.operations i.matched.fitting)

pub on_cancel_bootstrap-Inv : (m : Manager) → Inv m → Inv (on_cancel_bootstrap m).0
unfolding on_cancel_bootstrap in_cluster edge
on_cancel_bootstrap-Inv m i = ground (arith, fits_idle m.state m.operations i.matched.fitting)

pub on_confirm_bootstrap-Inv :
    (env : Env) (m : Manager) → Inv m → Inv (on_confirm_bootstrap env m).0
unfolding on_confirm_bootstrap in_cluster edge
on_confirm_bootstrap-Inv env m i = ground (arith, fits_idle m.state m.operations i.matched.fitting)

pub on_bootstrap_requested-Inv : (m : Manager) → Inv m → Inv (on_bootstrap_requested m)
unfolding on_bootstrap_requested in_cluster edge
on_bootstrap_requested-Inv m i = ground (arith, fits_idle m.state m.operations i.matched.fitting)

pub on_bootstrap_wait_expired-Inv :
    (env : Env) (m : Manager) → Inv m → Inv (on_bootstrap_wait_expired env m)
unfolding on_bootstrap_wait_expired in_cluster edge
on_bootstrap_wait_expired-Inv env m i =
    ground (arith, fits_idle m.state m.operations i.matched.fitting)

pub on_bootstrap_start-Inv : (env : Env) (m : Manager) → Inv m → Inv (on_bootstrap_start env m)
unfolding on_bootstrap_start in_cluster edge
on_bootstrap_start-Inv env m i = ground (arith, fits_idle m.state m.operations i.matched.fitting)
