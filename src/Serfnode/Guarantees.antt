-- ===== src/Serfnode/Guarantees.antt =====
-- What the operations of antsd/internal/serfnode/serfnode.go guarantee to the orchestrator.
use zero_config_ha_cluster.Common.{
  ℕ, ◌≡◌, ap, ◌∙◌, true, List, none, String, str_eq, if◌then◌else◌, count_if-sort_by,
  sort_by-IsOrdered, IsOrdered, arith, Bool-cases, inl, inr,
}
use zero_config_ha_cluster.Node.State.{State, to_string, stable_server}
use zero_config_ha_cluster.Cluster.View.{
  get_tag, stable_server_count, k3s_server_count, population, is_alive_in, holds_server_slot,
  is_member_alive_or_failed,
}
use zero_config_ha_cluster.Serfnode.{state_tags, snapshot_members, get_tag-state_tags}
use zero_config_ha_cluster.Serfnode.Library.{Serf, Node, set_state, snapshot}

-- What Serf documents of the tags: those that are set are read back.
abbrev pub KeepsTags : {W : Type 0} → Serf W → Type 0
KeepsTags {W} s =
    (tags : List (String × String)) (w : W)
    → (s.set_tags tags w).1 ≡ true
    → s.local_tags (s.set_tags tags w).0 ≡ tags

-- Where Serf keeps the tags that it is given, a node that has published a state without an error
-- has that state's tag, and every other tag as it was.
pub set_state-get_tag :
    {W : Type 0} (s : Serf W) (state : State) (k : String) (node : Node) (w : W)
    → KeepsTags s
    → (set_state s state node w).1 ≡ none
    → get_tag k (s.local_tags (set_state s state node w).0)
      ≡ (if str_eq "state" k then to_string state else get_tag k (s.local_tags w))
unfolding set_state
set_state-get_tag s state k node w law h = elim (Bool-cases node.started) [
  | inl e ↦
      let ok : (s.set_tags (state_tags state (s.local_tags w)) w).1 ≡ true = ground arith in
      rw e (
        ap (get_tag k) (law (state_tags state (s.local_tags w)) w ok)
        ∙ get_tag-state_tags state k (s.local_tags w))
  | inr e ↦ absurd (ground arith)
]

-- A snapshot lists the members in the order of their names, and the counts that the workflows take of
-- it are those of the members that Serf lists. Before the start there is no member in it.
pub snapshot-members :
    {W : Type 0} (s : Serf W) (now : ℕ) (node : Node) (w : W)
    → (snapshot s now node w).available ≡ true
    → IsOrdered (λ m. m.name) (snapshot s now node w).members
      × (stable_server_count (snapshot s now node w).members ≡ stable_server_count (s.members w))
      × (k3s_server_count (snapshot s now node w).members ≡ k3s_server_count (s.members w))
      × (population (snapshot s now node w).members ≡ population (s.members w))
unfolding snapshot snapshot_members stable_server_count k3s_server_count population
snapshot-members s now node w h = elim (Bool-cases node.started) [
  | inl e ↦ rw e (
    sort_by-IsOrdered (λ m. m.name) (s.members w),
    count_if-sort_by (λ m. m.name) (is_alive_in stable_server) (s.members w),
    count_if-sort_by (λ m. m.name) holds_server_slot (s.members w),
    count_if-sort_by (λ m. m.name) is_member_alive_or_failed (s.members w),
  )
  | inr e ↦ absurd (ground arith)
]
