-- ===== src/Cluster/View.antt =====
-- antsd/internal/cluster/view.go: what the workflows read in one observation of the Serf
-- membership. A view is the list of members of a snapshot (antsd/internal/admin/server.go).
pub mod Selection
pub mod Counts
pub mod Coordinator
use zero_config_ha_cluster.Common.{
  ℕ, zero, suc, ◌≡◌, Bool, true, false, not, ◌&&◌, ◌||◌, List, [], ◌∷◌, map, Option, none, some,
  String, str_eq, str_lt, ltb, ◌==◌, if◌then◌else◌, keep, count_if, any, length,
}
use zero_config_ha_cluster.Node.State.{
  State, bootstrap_install_init, bootstrap_install_server, rejoin_cluster, rescale_coordinating,
  rescale_promoting, rescale_demoting, stable_server, stable_agent, to_string,
}
use zero_config_ha_cluster.Node.Tag.{of_string, tag_in_cluster, tag_is_first_boot}
use zero_config_ha_cluster.Node.Role.{desired_server_count}

-- `admin.Member`.
pub record Member : Type 0 where
  pub name : String
  pub ip : String
  pub status : String
  pub tags : List (String × String)

-- `admin.Member{}`.
abbrev pub no_member : Member
no_member = record { name = ""; ip = ""; status = ""; tags = [] }

-- `tags[key]`: a missing key reads as the empty text.
unfoldable pub get_tag : String → List (String × String) → String
get_tag k [] = ""
get_tag k ((j, v) ∷ m) = if str_eq j k then v else get_tag k m

-- `member.Tags["state"]`.
unfoldable pub state_tag : Member → String
state_tag m = get_tag "state" m.tags

-- `member.Status == memberStatusAlive` and `== memberStatusFailed`.
unfoldable pub is_alive : Member → Bool
is_alive m = str_eq m.status "alive"

unfoldable pub is_failed : Member → Bool
is_failed m = str_eq m.status "failed"

-- `isMemberAliveOrFailed`.
unfoldable pub is_member_alive_or_failed : Member → Bool
is_member_alive_or_failed m = is_alive m || is_failed m

-- `isNodeAK3sServer`.
unfoldable pub is_node_a_k3s_server : State → Bool
is_node_a_k3s_server stable_server = true
is_node_a_k3s_server bootstrap_install_init = true
is_node_a_k3s_server bootstrap_install_server = true
is_node_a_k3s_server rescale_coordinating = true
is_node_a_k3s_server rescale_promoting = true
is_node_a_k3s_server _ = false

-- `isNodeChangingEtcdMembership`.
unfoldable pub is_node_changing_etcd_membership : State → Bool
is_node_changing_etcd_membership bootstrap_install_init = true
is_node_changing_etcd_membership bootstrap_install_server = true
is_node_changing_etcd_membership rejoin_cluster = true
is_node_changing_etcd_membership rescale_coordinating = true
is_node_changing_etcd_membership rescale_promoting = true
is_node_changing_etcd_membership rescale_demoting = true
is_node_changing_etcd_membership _ = false

-- `p(node.State(tag))` for a switch whose default is `false`.
unfoldable pub tag_is : (State → Bool) → String → Bool
tag_is p t = elim (of_string t) [ none ↦ false | some s ↦ p s ]

abbrev pub View : Type 0
View = List Member

-- `aliveMemberNames`.
unfoldable pub alive_member_names : View → List String
alive_member_names v = map (λ m. m.name) (keep is_alive v)

-- `failedMembersNames`.
unfoldable pub failed_members_names : View → List String
failed_members_names v = map (λ m. m.name) (keep is_failed v)

-- The condition of the loops of `lowestNamedAliveMemberIn` and `highestNamedAliveMemberIn`.
unfoldable pub is_alive_in : State → Member → Bool
is_alive_in s m = is_alive m && str_eq (state_tag m) (to_string s)

-- One round of the loops of `lowestNamedAliveMemberIn` and `highestNamedAliveMemberIn`, with their
-- variable `target`; `better` is the comparison of the names.
next_target : (String → String → Bool) → State → Member → Member → Member
next_target better s target m =
    if is_alive_in s m && (str_eq target.name "" || better m.name target.name) then m else target

-- The loop.
pick_from : (String → String → Bool) → State → Member → View → Member
unfolding next_target
pick_from better s target [] = target
pick_from better s target (m ∷ ms) = pick_from better s (next_target better s target m) ms

-- `lowestNamedAliveMemberIn`.
unfoldable pub lowest_named_alive_member_in : View → State → Member × Bool
unfolding pick_from
lowest_named_alive_member_in v s =
    let target = pick_from (λ a b. str_lt a b) s no_member v in
    (target, not (str_eq target.name ""))

-- `highestNamedAliveMemberIn`.
unfoldable pub highest_named_alive_member_in : View → State → Member × Bool
unfolding pick_from
highest_named_alive_member_in v s =
    let target = pick_from (λ a b. str_lt b a) s no_member v in
    (target, not (str_eq target.name ""))

-- `findK3sJoinTarget`, `findPromotionTarget` and `findDemotionTarget`.
unfoldable pub find_k3s_join_target : View → Member × Bool
find_k3s_join_target v = lowest_named_alive_member_in v stable_server

unfoldable pub find_promotion_target : View → Member × Bool
find_promotion_target v = lowest_named_alive_member_in v stable_agent

unfoldable pub find_demotion_target : View → Member × Bool
find_demotion_target v = highest_named_alive_member_in v stable_server

-- `isRescaleCoordinator`.
unfoldable pub is_rescale_coordinator : View → String → Bool
is_rescale_coordinator v self =
    let (elected, found) = lowest_named_alive_member_in v stable_server in
    found && str_eq elected.name self

-- `findExistingK3sClusterMember`.
unfoldable pub find_existing_k3s_cluster_member : View → Option Member
find_existing_k3s_cluster_member [] = none
find_existing_k3s_cluster_member (m ∷ ms) =
    if is_member_alive_or_failed m && tag_in_cluster (state_tag m)
    then some m
    else find_existing_k3s_cluster_member ms

-- `isVirginMember`: the first member of that name decides.
unfoldable pub is_virgin_member : View → String → Bool
is_virgin_member [] name = false
is_virgin_member (m ∷ ms) name =
    if str_eq m.name name
    then is_alive m && tag_is_first_boot (state_tag m)
    else is_virgin_member ms name

-- `stableServerCount`.
unfoldable pub stable_server_count : View → ℕ
stable_server_count v = count_if (is_alive_in stable_server) v

-- `population`.
unfoldable pub population : View → ℕ
population v = count_if is_member_alive_or_failed v

-- `desiredServerCount`.
unfoldable pub view_desired_server_count : View → ℕ
view_desired_server_count v = desired_server_count (population v)

-- The condition of the loop of `k3sServerCount`.
unfoldable pub holds_server_slot : Member → Bool
holds_server_slot m = is_member_alive_or_failed m && tag_is is_node_a_k3s_server (state_tag m)

-- `k3sServerCount`.
unfoldable pub k3s_server_count : View → ℕ
k3s_server_count v = count_if holds_server_slot v

-- `needsAnotherK3sServer` and `hasTooManyK3sServers`.
unfoldable pub needs_another_k3s_server : View → Bool
needs_another_k3s_server v = ltb (k3s_server_count v) (view_desired_server_count v)

unfoldable pub has_too_many_k3s_servers : View → Bool
has_too_many_k3s_servers v = ltb (view_desired_server_count v) (k3s_server_count v)

-- `isEtcdMembershipChanging`.
unfoldable pub is_etcd_membership_changing : View → Bool
is_etcd_membership_changing v =
    any (λ m. is_alive m && tag_is is_node_changing_etcd_membership (state_tag m)) v
