-- ===== src/Cluster/System/Local.antt =====
-- What one turn of a machine may do to the order in which the servers are built.
use zero_config_ha_cluster.Common.{
  ℕ, suc, ◌≤◌, ◌<◌, ◌≡◌, refl, sym, subst, ◌⊎◌, inl, inr, true, false, ltb, ◌==◌, ◌++◌, arith,
}
use zero_config_ha_cluster.Node.State.{State, bootstrap_install_init, bootstrap_install_server}
use zero_config_ha_cluster.Node.Role.{server, desired_server_count, stable_state}
use zero_config_ha_cluster.Node.Persist.{missing, load, PersistedState}
use zero_config_ha_cluster.Cluster.View.{is_node_changing_etcd_membership}
use zero_config_ha_cluster.Cluster.Manager.{Manager, Env, Config, new_manager, become_stable}
use zero_config_ha_cluster.Cluster.Joining.{
  fail_joining, on_joining_cleanup_checked, on_joining_install_succeeded,
}
use zero_config_ha_cluster.Cluster.Bootstrap.{on_bootstrap_install_succeeded, fail_bootstrap}
use zero_config_ha_cluster.Cluster.Rejoin.{build_first_boot_state, choose_initial_state}
use zero_config_ha_cluster.Cluster.Loop.{
  handle, handle_user_event, on_k3s_operation_succeeded, on_k3s_operation_failed,
}
use zero_config_ha_cluster.Cluster.System.{is_stable_server, Turn, starts, reacts, succeeds, fails}
use zero_config_ha_cluster.Cluster.System.Fits.{is_installing, fits}
use zero_config_ha_cluster.Cluster.System.Handlers.{on_bootstrap_start-fits, handle-fits}

-- The end of an operation: the machine stays where it may be, or it is the next stable server.
abbrev pub MayEnd : ℕ → ℕ → ℕ → Manager → Manager → Type 0
MayEnd n s r m m' =
    (fits n s r m' ≡ true)
    ⊎ ((r ≡ s)
        × (s < desired_server_count n)
        × (is_stable_server m ≡ false)
        × (fits n (suc s) r m' ≡ true)
        × (is_stable_server m' ≡ true))

becomes_server :
    (n s r : ℕ) (p : PersistedState) (m : Manager)
    → p.role ≡ server
    → fits n s r m ≡ true
    → is_installing m.state ≡ true
    → MayEnd n s r m (become_stable p m)
unfolding fits become_stable stable_state
becomes_server n s r p m q h e =
    inr (ground arith, ground arith, ground arith, ground arith, ground arith)

install_init_succeeds :
    (env : Env) (m : Manager)
    → m.state ≡ bootstrap_install_init
    → on_k3s_operation_succeeded env m ≡ become_stable (build_first_boot_state env server m) m
unfolding on_k3s_operation_succeeded on_bootstrap_install_succeeded
install_init_succeeds env m e = ground arith

install_server_succeeds :
    (env : Env) (m : Manager)
    → m.state ≡ bootstrap_install_server
    → on_k3s_operation_succeeded env m ≡ become_stable (build_first_boot_state env server m) m
unfolding on_k3s_operation_succeeded on_bootstrap_install_succeeded
install_server_succeeds env m e = ground arith

others_succeed :
    (st : State) (n s r : ℕ) (env : Env) (m : Manager)
    → m.state ≡ st
    → is_installing m.state ≡ false
    → fits n s r m ≡ true
    → fits n s r (on_k3s_operation_succeeded env m) ≡ true
unfolding on_k3s_operation_succeeded on_bootstrap_install_succeeded on_joining_cleanup_checked
    on_joining_install_succeeded build_first_boot_state become_stable stable_state fits
others_succeed _ n s r env m e i h = ground arith

on_k3s_operation_succeeded-fits :
    (st : State) (n s r : ℕ) (env : Env) (m : Manager)
    → m.state ≡ st
    → fits n s r m ≡ true
    → MayEnd n s r m (on_k3s_operation_succeeded env m)
unfolding build_first_boot_state is_installing
on_k3s_operation_succeeded-fits bootstrap_install_init n s r env m e h =
    subst (MayEnd n s r m) (sym (install_init_succeeds env m e))
      (becomes_server n s r (build_first_boot_state env server m) m refl h (ground arith))
on_k3s_operation_succeeded-fits bootstrap_install_server n s r env m e h =
    subst (MayEnd n s r m) (sym (install_server_succeeds env m e))
      (becomes_server n s r (build_first_boot_state env server m) m refl h (ground arith))
on_k3s_operation_succeeded-fits st n s r env m e h =
    inl (others_succeed st n s r env m e (ground arith) h)

on_k3s_operation_failed-fits :
    (st : State) (n s r : ℕ) (env : Env) (m : Manager)
    → m.state ≡ st
    → fits n s r m ≡ true
    → fits n s r (on_k3s_operation_failed env m) ≡ true
unfolding fits on_k3s_operation_failed fail_bootstrap fail_joining
on_k3s_operation_failed-fits _ n s r env m e h = ground arith

pub Turn-MayEnd :
    (n s r : ℕ) (m m' : Manager) → 1 ≤ n → fits n s r m ≡ true → Turn n s r m m' → MayEnd n s r m m'
unfolding handle handle_user_event fits
Turn-MayEnd n s r m m' p h (starts env _ e f l) =
    inl (on_bootstrap_start-fits n s r env m e f l p h)
Turn-MayEnd n s r m m' p h (reacts env i o l) = inl (handle-fits n s r env i m o l h)
Turn-MayEnd n s r m m' p h (succeeds env op before after _) =
    on_k3s_operation_succeeded-fits m.state n s r env (record m { operations = before ++ after })
      refl h
Turn-MayEnd n s r m m' p h (fails env op before after _) = inl (
    on_k3s_operation_failed-fits m.state n s r env (record m { operations = before ++ after }) refl
      h)

-- A machine of another rank fits the system with one more stable server too.
pub fits-suc :
    (n s r : ℕ) (m : Manager) → (r == s) ≡ false → fits n s r m ≡ true → fits n (suc s) r m ≡ true
unfolding fits
fits-suc n s r m d h = ground arith

pub fits-is_stable_server :
    (n s r : ℕ) (m : Manager) → fits n s r m ≡ true → is_stable_server m ≡ ltb r s
unfolding fits
fits-is_stable_server n s r m h = ground arith

-- Of the machines, only the one of the rank `s` changes the membership of etcd.
pub fits-is_node_changing_etcd_membership :
    (n s r : ℕ) (m : Manager)
    → fits n s r m ≡ true
    → (r == s) ≡ false
    → is_node_changing_etcd_membership m.state ≡ false
unfolding fits is_node_changing_etcd_membership
fits-is_node_changing_etcd_membership n s r m h d = ground arith

-- A machine that boots for the first time, with the rescaling workflow off.
pub choose_initial_state-fits :
    (n r : ℕ) (c : Config) (grace settle : ℕ)
    → c.rescale_enabled ≡ false
    → fits n 0 r (choose_initial_state missing (new_manager c grace settle)) ≡ true
unfolding fits choose_initial_state new_manager load
choose_initial_state-fits n r c grace settle h = ground arith
