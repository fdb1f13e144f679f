-- ===== src/Cluster/Safety/Lifecycle.antt =====
-- The lifecycle of a node (antsd/internal/node/state.go, antsd/internal/cluster/manager.go) over
-- every run from boot on.
use zero_config_ha_cluster.Common.{
  ◌≡◌, refl, Bool, true, false, ◌⊎◌, List, [], ◌∷◌, ◌++◌, Option, none, some, In, here, there,
  arith, subst,
}
use zero_config_ha_cluster.Node.State.{
  State, is_state, rescale_coordinating, rescale_promoting, rescale_demoting, stable_server,
  stable_agent, in_cluster, is_first_boot,
}
use zero_config_ha_cluster.Node.Role.{is_server, stable_state}
use zero_config_ha_cluster.Node.Persist.{PersistedState}
use zero_config_ha_cluster.Cluster.Manager.{
  Operation, convert, Effect, set_state, send_user_event, save_state, remove_failed_node,
  probe_node, Manager,
}
use zero_config_ha_cluster.Cluster.Invariant.{
  persists, op_fits, fits, is_busy, last_tag, edge, follows, round_of,
}
use zero_config_ha_cluster.Cluster.Invariant.Reach.{Reach, Reach-Inv}

fits_only :
    (s : State) (ops : List Operation) (op : Operation)
    → fits s ops ≡ true
    → In op ops
    → (ops ≡ op ∷ []) × (op_fits s op ≡ true)
fits_only s [] op h i = elim i [ ]
fits_only s (x ∷ []) op h (here e) = ground arith
fits_only s (x ∷ []) op h (there i) = elim i [ ]
fits_only s (x ∷ y ∷ ops) op h i = absurd (ground arith)

fits_busy :
    (s : State) (ops : List Operation)
    → fits s ops ≡ true
    → is_busy s ≡ true
    → (op : Operation) × (ops ≡ op ∷ [])
fits_busy s [] h b = absurd (ground arith)
fits_busy s (x ∷ []) h b = (x, refl)
fits_busy s (x ∷ y ∷ ops) h b = absurd (ground arith)

-- In every state that inputs which respect what is assumed of them (`Respects`: no confirmation that
-- names this very node while its check of the local installation is under way, and no lookup about an
-- empty name) can lead to, an operation in flight is the only one, and it is one that the workflow of
-- the present state starts.
pub operations_match :
    {m : Manager} (op : Operation)
    → Reach m
    → In op m.operations
    → (m.operations ≡ op ∷ []) × (op_fits m.state op ≡ true)
operations_match {m} op r j = fits_only m.state m.operations op (Reach-Inv r).matched.fitting j

-- In every reachable state that waits for a result, exactly one operation is in flight.
pub busy_has_operation :
    {m : Manager}
    → Reach m
    → is_busy m.state ≡ true
    → (op : Operation) × (m.operations ≡ op ∷ []) × (op_fits m.state op ≡ true)
busy_has_operation {m} r b =
    let (op, e) = fits_busy m.state m.operations (Reach-Inv r).matched.fitting b in
    (op, e, ground (arith, (Reach-Inv r).matched.fitting))

-- In every state that inputs which respect what is assumed of them (`Respects`: no confirmation that
-- names this very node while its check of the local installation is under way, and no lookup about an
-- empty name) can lead to, while the node coordinates, the one operation in flight is the eviction, the
-- conversion or the cleanup that the end of the round will take it for.
pub rounds_match :
    {m : Manager}
    → Reach m
    → m.state ≡ rescale_coordinating
    → m.operations ≡ round_of m.rescale ∷ []
rounds_match r e = (Reach-Inv r).matched.round e

-- In every reachable state, while the node converts, the operation in flight carries the order that
-- the end of the conversion will read, and the order's role is the server's exactly when the node is
-- being promoted.
pub conversions_match :
    {m : Manager}
    → Reach m
    → (m.state ≡ rescale_promoting) ⊎ (m.state ≡ rescale_demoting)
    → (m.operations ≡ convert m.rescale.order ∷ [])
      × (is_server m.rescale.order.role ≡ is_state m.state rescale_promoting)
conversions_match r e = let i = Reach-Inv r in ground arith

persists-none :
    (s : State) (p : Option PersistedState)
    → persists s p ≡ true
    → is_first_boot s ≡ true
    → p ≡ none
unfolding is_first_boot
persists-none s none h b = refl
persists-none s (some p) h b = absurd (ground arith)

-- The two stable states.
abbrev pub is_stable : State → Bool
is_stable stable_server = true
is_stable stable_agent = true
is_stable _ = false

persists-stable :
    (s : State) (p : Option PersistedState)
    → persists s p ≡ true
    → is_stable s ≡ true
    → (q : PersistedState) × (p ≡ some q) × (stable_state q.role ≡ s)
unfolding in_cluster stable_state
persists-stable s none h b = absurd (ground arith)
persists-stable s (some p) h b = (p, refl, ground arith)

-- In every reachable stable state the node holds a persisted state, whose role is the state's.
pub stable_is_persisted :
    {m : Manager}
    → Reach m
    → is_stable m.state ≡ true
    → (p : PersistedState) × (m.persisted_state ≡ some p) × (stable_state p.role ≡ m.state)
stable_is_persisted {m} r b =
    persists-stable m.state m.persisted_state (Reach-Inv r).coherent.suited b

-- In every reachable state of the first-boot protocol the node holds no persisted state.
pub first_boot_is_not_persisted :
    {m : Manager} → Reach m → is_first_boot m.state ≡ true → m.persisted_state ≡ none
first_boot_is_not_persisted {m} r b =
    persists-none m.state m.persisted_state (Reach-Inv r).coherent.suited b

-- No run reads a nil pointer: where a result makes the node read its persisted state, it has one.
pub never_panics : {m : Manager} → Reach m → m.panicked ≡ false
never_panics r = (Reach-Inv r).coherent.running

edge-in_cluster : (a b : State) → edge a b ≡ true → in_cluster a ≡ true → in_cluster b ≡ true
unfolding edge in_cluster
edge-in_cluster a b h k = ground arith

follows-in_cluster :
    (newer older : List Effect)
    → follows (newer ++ older) ≡ true
    → in_cluster (last_tag older) ≡ true
    → in_cluster (last_tag (newer ++ older)) ≡ true
follows-in_cluster [] older h k = k
follows-in_cluster (set_state s ∷ es) older h k =
    edge-in_cluster (last_tag (es ++ older)) s (ground arith)
      (follows-in_cluster es older (ground arith) k)
follows-in_cluster (send_user_event n p ∷ es) older h k = follows-in_cluster es older h k
follows-in_cluster (save_state p ∷ es) older h k = follows-in_cluster es older h k
follows-in_cluster (remove_failed_node n ∷ es) older h k = follows-in_cluster es older h k
follows-in_cluster (probe_node n ∷ es) older h k = follows-in_cluster es older h k

-- Once a node has handed the state of a cluster member to `SetState`, every later state of the run is one too:
-- it never falls back to the first-boot protocol.
pub never_back_to_first_boot :
    {m : Manager} (newer older : List Effect)
    → Reach m
    → m.effects ≡ newer ++ older
    → in_cluster (last_tag older) ≡ true
    → in_cluster m.state ≡ true
never_back_to_first_boot {m} newer older r e h =
    let i = Reach-Inv r in
    let p =
      follows-in_cluster newer older (subst (λ es. follows es ≡ true) e i.coherent.charted) h in
    ground (arith, p)
