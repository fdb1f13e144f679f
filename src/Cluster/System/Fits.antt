-- ===== src/Cluster/System/Fits.antt =====
-- Where a machine stands in the order of the servers, and that the reactions to a membership change
-- in antsd/internal/cluster leave it there.
use zero_config_ha_cluster.Common.{
  ℕ, ◌≤◌, ◌≡◌, Bool, true, false, not, ◌&&◌, ◌||◌, ltb, ◌==◌, if◌then◌else◌, arith,
}
use zero_config_ha_cluster.Node.State.{
  State, starting, rejoin_cluster, rescale_coordinating, rescale_promoting, rescale_demoting,
  bootstrap_install_init, bootstrap_install_server,
}
use zero_config_ha_cluster.Node.Role.{is_server, desired_server_count}
use zero_config_ha_cluster.Cluster.View.{View, stable_server_count}
use zero_config_ha_cluster.Cluster.Manager.{Manager, Env, observe_cluster}
use zero_config_ha_cluster.Cluster.Joining.{maybe_start_joining_path, maybe_join_cluster}
use zero_config_ha_cluster.Cluster.Bootstrap.{maybe_install_server, maybe_install_agent}
use zero_config_ha_cluster.Cluster.Rescale.{maybe_rescale}
use zero_config_ha_cluster.Cluster.Loop.{on_membership_change}
use zero_config_ha_cluster.Cluster.System.{is_stable_server}

-- The machine installs a server, as the first one or behind it.
unfoldable pub is_installing : State → Bool
is_installing bootstrap_install_init = true
is_installing bootstrap_install_server = true
is_installing _ = false

-- The states of the workflows that the system leaves out.
unfoldable pub is_outside : State → Bool
is_outside starting = true
is_outside rejoin_cluster = true
is_outside rescale_coordinating = true
is_outside rescale_promoting = true
is_outside rescale_demoting = true
is_outside _ = false

-- Where the machine of rank `r` may be while `s` of `n` machines are stable servers: those of the
-- lower ranks are the stable servers, and the one that installs is the next of them.
unfoldable pub fits : ℕ → ℕ → ℕ → Manager → Bool
unfolding is_installing is_outside
fits n s r m =
    not m.config.rescale_enabled
    && (not (is_outside m.state)
        && ((if is_stable_server m then ltb r s else not (ltb r s))
            && ((not (is_installing m.state) || (r == s && ltb r (desired_server_count n)))
                && (not (is_server m.bootstrap.role)
                    || (m.bootstrap.rank == r && ltb r (desired_server_count n))))))

maybe_start_joining_path-fits :
    (n s r : ℕ) (v : View) (m : Manager)
    → fits n s r m ≡ true
    → fits n s r (maybe_start_joining_path v m) ≡ true
unfolding fits maybe_start_joining_path
maybe_start_joining_path-fits n s r v m h = ground arith

pub maybe_join_cluster-fits :
    (n s r : ℕ) (v : View) (m : Manager)
    → fits n s r m ≡ true
    → fits n s r (maybe_join_cluster v m) ≡ true
unfolding fits maybe_join_cluster
maybe_join_cluster-fits n s r v m h = ground arith

pub maybe_install_server-fits :
    (n s r : ℕ) (v : View) (m : Manager)
    → stable_server_count v ≤ s
    → fits n s r m ≡ true
    → fits n s r (maybe_install_server v m) ≡ true
unfolding fits maybe_install_server
maybe_install_server-fits n s r v m l h = ground arith

pub maybe_install_agent-fits :
    (n s r : ℕ) (v : View) (m : Manager)
    → fits n s r m ≡ true
    → fits n s r (maybe_install_agent v m) ≡ true
unfolding fits maybe_install_agent
maybe_install_agent-fits n s r v m h = ground arith

pub maybe_rescale-fits :
    (n s r : ℕ) (env : Env) (v : View) (m : Manager)
    → fits n s r m ≡ true
    → fits n s r (maybe_rescale env v m) ≡ true
unfolding fits maybe_rescale
maybe_rescale-fits n s r env v m h = ground arith

pub on_membership_change-fits :
    (n s r : ℕ) (env : Env) (m : Manager)
    → stable_server_count (observe_cluster env m) ≤ s
    → fits n s r m ≡ true
    → fits n s r (on_membership_change env m) ≡ true
unfolding on_membership_change
on_membership_change-fits n s r env m l h =
    let v = observe_cluster env m in
    let m1 = maybe_start_joining_path v m in
    let m2 = maybe_join_cluster v m1 in
    let m3 = maybe_install_server v m2 in
    maybe_rescale-fits n s r env v (maybe_install_agent v m3) (
      maybe_install_agent-fits n s r v m3 (
        maybe_install_server-fits n s r v m2 l
          (maybe_join_cluster-fits n s r v m1 (maybe_start_joining_path-fits n s r v m h))))
