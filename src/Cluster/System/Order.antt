-- ===== src/Cluster/System/Order.antt =====
-- The servers of a new cluster are built one at a time, in the order of the ranks: what the comments
-- of antsd/internal/cluster/bootstrap.go promise of all machines together.
use zero_config_ha_cluster.Common.{ℕ, suc, ◌≤◌, ◌<◌, ◌≡◌, ◌⊎◌, Bool, true, List, [], ◌∷◌, map, ltb}
use zero_config_ha_cluster.Node.Persist.{missing}
use zero_config_ha_cluster.Node.Role.{desired_server_count}
use zero_config_ha_cluster.Cluster.View.{is_node_changing_etcd_membership}
use zero_config_ha_cluster.Cluster.Manager.{Manager, Config, new_manager}
use zero_config_ha_cluster.Cluster.Rejoin.{choose_initial_state}
use zero_config_ha_cluster.Cluster.System.{servers}
use zero_config_ha_cluster.Cluster.System.Fits.{fits}

-- The machines after their first boot.
abbrev pub boot_all : ℕ → ℕ → List Config → List Manager
boot_all grace settle cs = map (λ c. choose_initial_state missing (new_manager c grace settle)) cs

abbrev is_changing : Manager → Bool
is_changing m = is_node_changing_etcd_membership m.state

-- `true` for the first `s` places of a list, whose first place is `r`.
abbrev pub flags : ℕ → ℕ → List Manager → List Bool
flags s r [] = []
flags s r (m ∷ ms) = ltb r s ∷ flags s (suc r) ms

abbrev FitAll : ℕ → ℕ → ℕ → List Manager → Type 0
FitAll n s r [] = Unit {0}
FitAll n s r (m ∷ ms) = (fits n s r m ≡ true) × FitAll n s (suc r) ms

-- A turn changes nothing in the order, or makes the machine of the rank `s` a stable server.
abbrev Outcome : ℕ → ℕ → ℕ → List Manager → List Manager → Type 0
Outcome n s r ms ms' =
    (FitAll n s r ms' × (servers ms' ≡ servers ms))
    ⊎ (FitAll n (suc s) r ms'
        × (servers ms' ≡ suc (servers ms))
        × (s < desired_server_count n)
        × (r ≤ s))

abbrev InOrder : ℕ → List Manager → Type 0
InOrder n ms = FitAll n (servers ms) 0 ms × (servers ms ≤ desired_server_count n)
