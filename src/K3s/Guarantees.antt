-- ===== src/K3s/Guarantees.antt =====
-- What the operations of antsd/internal/cluster and the installers of antsd/internal/k3s promise.
use zero_config_ha_cluster.Common.{
  ◌≡◌, refl, ap, ◌≢◌, Bool, true, false, not, ◌&&◌, List, [], ◌∷◌, none, some, String, str_eq,
  contains, arith, eq_iff,
}
use zero_config_ha_cluster.Node.Role.{Role, server, agent, role_eq}
use zero_config_ha_cluster.Cluster.Manager.{
  RescaleOrder, Operation, install_init, install_server, install_agent, check_not_installed,
  evict_nodes, prepare_conversion, erase_node,
}
use zero_config_ha_cluster.K3s.{
  not_installed, failure, RoleResult, installed, error, Installer, ControlPlane,
}
use zero_config_ha_cluster.K3s.Operations.{
  refusal, ensure_k3s_is_not_installed, install_then_wait_ready, role_mismatch,
  check_installed_role, wait_ready_as, wait_rejoined, convert_then_wait_ready, check_quorum,
  coordinated, delete_nodes, run_operation,
}
use zero_config_ha_cluster.K3s.Exec.{
  Scripts, exec_installed_role, run_uninstall_script, install_converted, exec_convert,
}
use zero_config_ha_cluster.K3s.Fake.{
  FakeWorld, simulate, fake_installer, remove, fake_delete_node, fake_control_plane,
}

-- The operations of a first boot.
abbrev pub is_first_installation : Operation → Bool
is_first_installation install_init = true
is_first_installation (install_server _) = true
is_first_installation (install_agent _) = true
is_first_installation check_not_installed = true
is_first_installation _ = false

-- The operations of a coordination round.
abbrev pub is_round : Operation → Bool
is_round (evict_nodes _) = true
is_round (prepare_conversion _) = true
is_round (erase_node _) = true
is_round _ = false

-- An operation of a first boot on a machine whose K3s is installed, or whose installation cannot be
-- told, fails, and does nothing but look.
pub first_installation_refuses :
    {W : Type 0} (i : Installer W) (cp : ControlPlane W) (self : String) (op : Operation) (w : W)
    → is_first_installation op ≡ true
    → (i.installed_role w).1 ≢ error not_installed
    → run_operation i cp self op w ≡ ((i.installed_role w).0, some failure)
unfolding run_operation install_then_wait_ready ensure_k3s_is_not_installed refusal
first_installation_refuses i cp self op w h n = ground arith

-- An operation of a coordination round on a node whose cluster does not answer fails, and does
-- nothing but ask.
pub round_needs_quorum :
    {W : Type 0} (i : Installer W) (cp : ControlPlane W) (self : String) (op : Operation) (w : W)
    → is_round op ≡ true
    → (cp.node_exists self w).1 ≡ none
    → run_operation i cp self op w ≡ ((cp.node_exists self w).0, some failure)
unfolding run_operation coordinated check_quorum
round_needs_quorum i cp self op w h n = ground arith

role_eq_sound : (a b : Role) → role_eq a b ≡ true → a ≡ b
unfolding role_eq
role_eq_sound server server h = refl
role_eq_sound agent agent h = refl
role_eq_sound (Role.unknown s) (Role.unknown t) h = ap Role.unknown ((eq_iff s t).0 h)
role_eq_sound server agent h = absurd (ground arith)
role_eq_sound server (Role.unknown t) h = absurd (ground arith)
role_eq_sound agent server h = absurd (ground arith)
role_eq_sound agent (Role.unknown t) h = absurd (ground arith)
role_eq_sound (Role.unknown s) server h = absurd (ground arith)
role_eq_sound (Role.unknown s) agent h = absurd (ground arith)

role_mismatch-none :
    (want : Role) (r : RoleResult) → role_mismatch want r ≡ none → r ≡ installed want
unfolding role_mismatch
role_mismatch-none want (installed r) h = ground (arith, role_eq_sound r want)
role_mismatch-none want (error e) h = absurd (ground arith)

-- A conversion that succeeds had an installer that reported no error and then the role of the order
-- as the one that is installed, and a service of that role that became ready after it.
pub conversion_confirmed :
    {W : Type 0} (i : Installer W) (order : RescaleOrder) (w : W)
    → (convert_then_wait_ready i order w).1 ≡ none
    → let w1 = (i.convert order.role order.join_ip w).0 in
      ((i.convert order.role order.join_ip w).1 ≡ none)
      × ((i.installed_role w1).1 ≡ installed order.role)
      × ((wait_ready_as i order.role (i.installed_role w1).0).1 ≡ none)
unfolding convert_then_wait_ready wait_rejoined check_installed_role
conversion_confirmed i order w h =
    let w1 = (i.convert order.role order.join_ip w).0 in
    ground (arith, role_mismatch-none order.role (i.installed_role w1).1)

-- The scripted installer reports that it converted a machine from one role to another only when,
-- after the uninstall script, no unit of K3s was left.
pub exec_convert_starts_clean :
    {W : Type 0} (s : Scripts W) (from to : Role) (ip : String) (w : W)
    → (exec_installed_role s w).1 ≡ installed from
    → role_eq from to ≡ false
    → (exec_convert s to ip w).1 ≡ none
    → let w2 = (run_uninstall_script s from (exec_installed_role s w).0).0 in
      (exec_installed_role s w2).1 ≡ error not_installed
unfolding exec_convert install_converted
exec_convert_starts_clean s from to ip w h n e = ground arith

contains-remove :
    (name : String) (l : List String) (a : String)
    → contains (remove name l) a ≡ (contains l a && not (str_eq name a))
unfolding remove
contains-remove name [] a = refl
contains-remove name (x ∷ xs) a =
    ground (arith, eq_iff x name, eq_iff x a, eq_iff name a, contains-remove name xs a)

delete_nodes-known :
    (names : List String) (w : FakeWorld) (a : String)
    → w.done ≡ false
    → ((delete_nodes fake_control_plane names w).1 ≡ none)
      × (contains (delete_nodes fake_control_plane names w).0.known a
          ≡ (contains w.known a && not (contains names a)))
unfolding delete_nodes fake_delete_node simulate
delete_nodes-known [] w a h = ground arith
delete_nodes-known (n ∷ ns) w a h = ground (
  arith,
  contains-remove n w.known a,
  delete_nodes-known ns (record w { known = remove n w.known }) a h,
)

-- Over the simulated cluster, as long as its calls are not cancelled, the eviction succeeds, and
-- afterwards the cluster knows the machines that it knew before and that were not evicted.
pub eviction_removes :
    (names : List String) (self a : String) (w : FakeWorld)
    → w.done ≡ false
    → ((run_operation fake_installer fake_control_plane self (evict_nodes names) w).1 ≡ none)
      × (contains
            (run_operation fake_installer fake_control_plane self (evict_nodes names) w).0.known
            a
          ≡ (contains w.known a && not (contains names a)))
unfolding run_operation coordinated check_quorum
eviction_removes names self a w h = delete_nodes-known names w a h
