-- ===== src/Cluster/Invariant/Results.antt =====
-- The end of an operation keeps the invariant, whether it succeeded or failed.
use zero_config_ha_cluster.Common.{◌≡◌, not, List, [], ◌∷◌, String, str_eq, arith, if-elim}
use zero_config_ha_cluster.Node.State.{State, rescale_coordinating, in_cluster}
use zero_config_ha_cluster.Node.Role.{stable_state}
use zero_config_ha_cluster.Cluster.Manager.{Manager, Env}
use zero_config_ha_cluster.Cluster.Rejoin.{on_rejoin_ready, fail_rejoin}
use zero_config_ha_cluster.Cluster.Joining.{
  fail_joining, on_joining_install_succeeded, on_joining_cleanup_checked,
}
use zero_config_ha_cluster.Cluster.Bootstrap.{fail_bootstrap, on_bootstrap_install_succeeded}
use zero_config_ha_cluster.Cluster.Forgetting.{finish_forgetting}
use zero_config_ha_cluster.Cluster.Rounds.{
  erase_members, finish_eviction, abandon_coordination, broadcast_order,
  on_rescale_coordination_done, on_rescale_converted, fail_rescale,
}
use zero_config_ha_cluster.Cluster.Loop.{on_k3s_operation_succeeded, on_k3s_operation_failed}
use zero_config_ha_cluster.Cluster.Invariant.{Inv, edge, IsCoherent}
use zero_config_ha_cluster.Cluster.Invariant.Rescaling.{maybe_rescale-Inv}

-- The node has taken the result of its only operation.
pub record HasEnded (m : Manager) : Type 0 where
  pub coherent : IsCoherent m
  pub none_left : m.operations ≡ []

-- So it has, in a coordination round.
pub record HasEndedRound (m : Manager) : Type 0 where
  pub ended : HasEnded m
  pub coordinating : m.state ≡ rescale_coordinating

erase_members-HasEndedRound :
    (env : Env) (names : List String) (m : Manager)
    → HasEndedRound m
    → HasEndedRound (erase_members env names m)
unfolding erase_members
erase_members-HasEndedRound env [] m h = h
erase_members-HasEndedRound env (n ∷ ns) m h = erase_members-HasEndedRound env ns _ (ground arith)

finish_eviction-Inv : (env : Env) (m : Manager) → HasEndedRound m → Inv (finish_eviction env m)
unfolding finish_eviction in_cluster edge
finish_eviction-Inv env m h =
    maybe_rescale-Inv env _ _
      (ground (arith, erase_members-HasEndedRound env m.rescale.evicting m h))

finish_forgetting-Inv : (env : Env) (m : Manager) → HasEndedRound m → Inv (finish_forgetting env m)
unfolding finish_forgetting in_cluster edge
finish_forgetting-Inv env m h = maybe_rescale-Inv env _ _ (ground arith)

abandon_coordination-Inv :
    (env : Env) (m : Manager) → HasEndedRound m → Inv (abandon_coordination env m)
unfolding abandon_coordination in_cluster edge
abandon_coordination-Inv env m h = ground arith

broadcast_order-Inv : (env : Env) (m : Manager) → HasEndedRound m → Inv (broadcast_order env m)
unfolding broadcast_order in_cluster edge
broadcast_order-Inv env m h =
    if-elim Inv (not (env.sends m.effects)) _ _
      (λ lost. abandon_coordination-Inv env _ (ground arith)) (λ sent. ground arith)

on_rescale_coordination_done-Inv :
    (env : Env) (m : Manager) → HasEndedRound m → Inv (on_rescale_coordination_done env m)
unfolding on_rescale_coordination_done
on_rescale_coordination_done-Inv env m h =
    if-elim Inv (not (str_eq m.rescale.cleaning "")) _ _ (λ _. finish_forgetting-Inv env m h)
      λ _.
        if-elim Inv (str_eq m.rescale.order.target "") _ _ (λ _. finish_eviction-Inv env m h)
          λ _. broadcast_order-Inv env m h

pub on_k3s_operation_failed-Inv :
    (env : Env) (m : Manager) → HasEnded m → Inv (on_k3s_operation_failed env m)
unfolding on_k3s_operation_failed fail_bootstrap fail_joining fail_rejoin fail_rescale
    abandon_coordination in_cluster edge
on_k3s_operation_failed-Inv env m h = ground arith

pub on_k3s_operation_succeeded_by :
    (s : State) (env : Env) (m : Manager)
    → m.state ≡ s
    → HasEnded m
    → Inv (on_k3s_operation_succeeded env m)
unfolding on_k3s_operation_succeeded on_bootstrap_install_succeeded on_joining_install_succeeded
    on_joining_cleanup_checked on_rejoin_ready on_rescale_converted in_cluster edge stable_state
on_k3s_operation_succeeded_by rescale_coordinating env m e h =
    rw (e, on_k3s_operation_succeeded)
      (on_rescale_coordination_done-Inv env m (record { ended = h; coordinating = e }))
on_k3s_operation_succeeded_by _ env m e h = ground arith
