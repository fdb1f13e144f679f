-- ===== src/Tests/Election.antt =====
-- Elections at concrete member lists.
use zero_config_ha_cluster.Common.{
  ℕ, ◌≡◌, not, ◌&&◌, List, [], ◌∷◌, String, any, count_if, length, arith,
}
use zero_config_ha_cluster.Node.Role.{desired_server_count}
use zero_config_ha_cluster.Node.Election.{elected_role, elects_server, elected_server_count}
use zero_config_ha_cluster.Cluster.View.{View, is_rescale_coordinator}
use zero_config_ha_cluster.Cluster.View.Coordinator.{
  is_server_named, is_server_below, is_rescale_coordinator_lem,
}
use zero_config_ha_cluster.Cluster.Failures.{lookup}
use zero_config_ha_cluster.Cluster.Failures.Laws.{clock_after, failing_since, clock_after_lem}
use zero_config_ha_cluster.Tests.Data.{one_failed, too_few}

abbrev five : List String
five = "delta" ∷ "alpha" ∷ "echo" ∷ "bravo" ∷ "charlie" ∷ []

abbrev three : List String
three = "b" ∷ "c" ∷ "a" ∷ []

abbrev three_again : List String
three_again = "c" ∷ "a" ∷ "b" ∷ []

elected_server_count_example :
    count_if (λ a. elects_server (elected_role five a)) five ≡ desired_server_count (length five)
elected_server_count_example = elected_server_count five (ground arith)

is_rescale_coordinator_lem_example :
    is_rescale_coordinator one_failed "a"
    ≡ (any (is_server_named "a") one_failed && not (any (is_server_below "a") one_failed))
is_rescale_coordinator_lem_example = is_rescale_coordinator_lem one_failed "a" (ground arith)

abbrev history : List (ℕ × View)
history = (9, one_failed) ∷ (7, one_failed) ∷ (4, too_few) ∷ []

clock_after_lem_example : lookup "b" (clock_after history) ≡ failing_since "b" history
clock_after_lem_example = clock_after_lem history "b"
