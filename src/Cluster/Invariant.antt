-- ===== src/Cluster/Invariant.antt =====
-- What holds of a node between two inputs of its run loop.
pub mod Steps
pub mod Rescaling
pub mod Results
pub mod Reach
pub mod Published
use zero_config_ha_cluster.Common.{
  ◌≡◌, refl, Bool, true, false, not, ◌||◌, ◌&&◌, List, [], ◌∷◌, Option, none, some, String, str_eq,
  if◌then◌else◌, arith,
}
use zero_config_ha_cluster.Node.State.{
  State, starting, discovering, bootstrap_confirm, bootstrap_waiting, bootstrap_failed,
  joining_waiting, joining_failed, bootstrap_install_init, bootstrap_install_server,
  bootstrap_install_agent, joining_cleanup, joining_agent, rejoin_cluster, rejoin_failed,
  rescale_coordinating, rescale_promoting, rescale_demoting, rescale_failed, stable_server,
  stable_agent, in_cluster,
}
use zero_config_ha_cluster.Node.Role.{is_server}
use zero_config_ha_cluster.Node.Persist.{PersistedState}
use zero_config_ha_cluster.Cluster.Manager.{
  Operation, install_init, install_server, install_agent, check_not_installed, wait_rejoin,
  evict_nodes, prepare_conversion, erase_node, convert, Effect, set_state, send_user_event,
  save_state, remove_failed_node, probe_node, RescaleProgress, Manager,
}

-- The states that wait for the result of an operation.
abbrev pub is_busy : State → Bool
is_busy bootstrap_install_init = true
is_busy bootstrap_install_server = true
is_busy bootstrap_install_agent = true
is_busy joining_agent = true
is_busy rejoin_cluster = true
is_busy rescale_coordinating = true
is_busy rescale_promoting = true
is_busy rescale_demoting = true
is_busy _ = false

-- The operations that a workflow starts in each of its states.
abbrev pub op_fits : State → Operation → Bool
op_fits bootstrap_install_init install_init = true
op_fits bootstrap_install_server (install_server _) = true
op_fits bootstrap_install_agent (install_agent _) = true
op_fits joining_cleanup check_not_installed = true
op_fits joining_agent (install_agent _) = true
op_fits rejoin_cluster (wait_rejoin _) = true
op_fits rescale_coordinating (evict_nodes _) = true
op_fits rescale_coordinating (prepare_conversion _) = true
op_fits rescale_coordinating (erase_node _) = true
op_fits rescale_promoting (convert _) = true
op_fits rescale_demoting (convert _) = true
op_fits _ _ = false

-- At most one operation runs; it is one of the state's, and a busy state has one.
abbrev pub fits : State → List Operation → Bool
fits s [] = not (is_busy s)
fits s (op ∷ []) = op_fits s op
fits s (op ∷ op' ∷ ops) = false

-- Whether the node's persisted state suits its lifecycle state: none on a first boot, the role of
-- the installation in and between the stable states.
abbrev pub persists : State → Option PersistedState → Bool
persists rejoin_failed _ = true
persists s none = not (in_cluster s)
persists stable_server (some p) = is_server p.role
persists stable_agent (some p) = not (is_server p.role)
persists rejoin_cluster (some p) = true
persists rescale_coordinating (some p) = is_server p.role
persists rescale_promoting (some p) = not (is_server p.role)
persists rescale_demoting (some p) = is_server p.role
persists rescale_failed (some p) = true
persists _ (some p) = false

-- The last state that was handed to `SetState`, `starting` before any.
abbrev pub last_tag : List Effect → State
last_tag [] = starting
last_tag (set_state s ∷ es) = s
last_tag (send_user_event _ _ ∷ es) = last_tag es
last_tag (save_state _ ∷ es) = last_tag es
last_tag (remove_failed_node _ ∷ es) = last_tag es
last_tag (probe_node _ ∷ es) = last_tag es

-- The lifecycle diagram: which state may follow which.
unfoldable pub edge : State → State → Bool
edge starting discovering = true
edge starting rejoin_cluster = true
edge starting rejoin_failed = true
edge discovering bootstrap_confirm = true
edge discovering bootstrap_waiting = true
edge discovering joining_waiting = true
edge bootstrap_confirm discovering = true
edge bootstrap_confirm bootstrap_waiting = true
edge bootstrap_confirm joining_waiting = true
edge bootstrap_waiting joining_waiting = true
edge bootstrap_waiting bootstrap_install_init = true
edge bootstrap_waiting bootstrap_install_server = true
edge bootstrap_waiting bootstrap_install_agent = true
edge bootstrap_waiting bootstrap_failed = true
edge bootstrap_install_init stable_server = true
edge bootstrap_install_init bootstrap_failed = true
edge bootstrap_install_server stable_server = true
edge bootstrap_install_server bootstrap_failed = true
edge bootstrap_install_agent stable_agent = true
edge bootstrap_install_agent bootstrap_failed = true
edge joining_waiting joining_cleanup = true
edge joining_waiting joining_agent = true
edge joining_cleanup joining_waiting = true
edge joining_cleanup joining_failed = true
edge joining_agent stable_agent = true
edge joining_agent joining_failed = true
edge rejoin_cluster stable_server = true
edge rejoin_cluster stable_agent = true
edge rejoin_cluster rejoin_failed = true
edge stable_server rescale_coordinating = true
edge stable_server rescale_demoting = true
edge stable_agent rescale_promoting = true
edge rescale_coordinating stable_server = true
edge rescale_promoting stable_server = true
edge rescale_promoting rescale_failed = true
edge rescale_demoting stable_agent = true
edge rescale_demoting rescale_failed = true
edge _ _ = false

-- Every state that was handed to `SetState` follows the one before it in the diagram.
abbrev pub follows : List Effect → Bool
follows [] = true
follows (set_state s ∷ es) = edge (last_tag es) s && follows es
follows (send_user_event _ _ ∷ es) = follows es
follows (save_state _ ∷ es) = follows es
follows (remove_failed_node _ ∷ es) = follows es
follows (probe_node _ ∷ es) = follows es

-- The round that `onRescaleCoordinationDone` reads in the progress, as the operation it ends.
abbrev pub round_of : RescaleProgress → Operation
round_of r =
    if not (str_eq r.cleaning "")
    then erase_node r.cleaning
    else if str_eq r.order.target ""
    then evict_nodes r.evicting
    else prepare_conversion r.order.target

-- The part of the invariant that the operations do not enter.
pub record IsCoherent (m : Manager) : Type 0 where
  pub mirrored : m.state_view ≡ m.state
  pub published : last_tag m.effects ≡ m.state
  pub suited : persists m.state m.persisted_state ≡ true
  pub charted : follows m.effects ≡ true
  pub running : m.panicked ≡ false
  pub promotes : m.state ≡ rescale_promoting → is_server m.rescale.order.role ≡ true
  pub demotes : m.state ≡ rescale_demoting → is_server m.rescale.order.role ≡ false

-- The part about the operations in flight.
pub record IsMatched (m : Manager) : Type 0 where
  pub fitting : fits m.state m.operations ≡ true
  pub round : m.state ≡ rescale_coordinating → m.operations ≡ round_of m.rescale ∷ []
  pub promotion : m.state ≡ rescale_promoting → m.operations ≡ convert m.rescale.order ∷ []
  pub demotion : m.state ≡ rescale_demoting → m.operations ≡ convert m.rescale.order ∷ []

pub record Inv (m : Manager) : Type 0 where
  pub coherent : IsCoherent m
  pub matched : IsMatched m

-- In a state that no operation belongs to, none is in flight.
abbrev pub has_operations : State → Bool
has_operations joining_cleanup = true
has_operations s = is_busy s

pub fits_idle :
    (s : State) (ops : List Operation) → fits s ops ≡ true → has_operations s ≡ false → ops ≡ []
fits_idle s [] h k = refl
fits_idle s (op ∷ []) h k = absurd (impossible s op h k)
  where
    impossible : (s : State) (op : Operation) → op_fits s op ≡ true → has_operations s ≡ false → ⊥
    impossible starting op h k = ground arith
    impossible _ op h k = ground arith
fits_idle s (op ∷ op' ∷ ops) h k = ground arith
