-- ===== src/Cluster/Safety/Forgetting.antt =====
-- Whom the forget-me protocol may erase (antsd/internal/cluster/forget.go).
use zero_config_ha_cluster.Common.{
  ◌≡◌, refl, ◌⊎◌, inl, inr, Bool, true, false, [], ◌∷◌, some, String, str_eq, In, here, there,
  arith, eq_iff, ne-cons, Option-cases, Bool-cases,
}
use zero_config_ha_cluster.Node.State.{
  State, rescale_coordinating, stable_server, in_cluster, is_first_boot,
}
use zero_config_ha_cluster.Node.Tag.{of_string, tag_is_first_boot}
use zero_config_ha_cluster.Cluster.View.{
  View, Member, state_tag, is_alive, is_virgin_member, is_rescale_coordinator,
  is_etcd_membership_changing,
}
use zero_config_ha_cluster.Cluster.Manager.{
  Manager, Env, erase_node, observe_cluster, forgotten, send_user_event,
}
use zero_config_ha_cluster.Cluster.Joining.{forget_payload}
use zero_config_ha_cluster.Cluster.Forgetting.{can_forget, on_forget_probed}

is_virgin_member-In :
    (v : View) (name : String)
    → is_virgin_member v name ≡ true
    → (m : Member) × In m v
      × (m.name ≡ name)
      × (is_alive m ≡ true)
      × (tag_is_first_boot (state_tag m) ≡ true)
unfolding is_virgin_member
is_virgin_member-In [] name h = absurd (ground arith)
is_virgin_member-In (m ∷ ms) name h = elim (Bool-cases (str_eq m.name name)) [
  | inl e ↦ (m, here refl, (eq_iff m.name name).0 e, ground arith, ground arith)
  | inr e ↦
      let (x, i, n, a, t) = is_virgin_member-In ms name (ground arith) in (x, there i, n, a, t)
]

tag_first_boot :
    (t : String)
    → tag_is_first_boot t ≡ true
    → (s : State) × (of_string t ≡ some s) × (is_first_boot s ≡ true) × (in_cluster s ≡ false)
unfolding tag_is_first_boot is_first_boot in_cluster
tag_first_boot t h = elim (Option-cases (of_string t)) [
  | inl e ↦ absurd (ground arith)
  | inr (s, e) ↦ (s, e, ground arith, ground arith)
]

probed_erases :
    (env : Env) (name : String) (found : Bool) (m : Manager)
    → (on_forget_probed env name found m).operations ≡ erase_node name ∷ m.operations
    → (found ≡ true)
      × (m.state ≡ stable_server)
      × (is_rescale_coordinator (observe_cluster env m) m.config.node_name ≡ true)
      × (is_virgin_member (observe_cluster env m) name ≡ true)
      × (is_etcd_membership_changing (observe_cluster env m) ≡ false)
unfolding on_forget_probed can_forget
probed_erases env name found m h = ground (arith, ne-cons (erase_node name) m.operations)

-- The answer to a lookup starts the erasure of a machine only on a stable server that holds the
-- coordinator's turn and sees no change of the etcd membership, when K3s knows the name, and when an
-- alive member of that name publishes a state of the first-boot protocol, which is none of a member
-- of the cluster.
pub erases_only_virgin :
    (env : Env) (name : String) (found : Bool) (m : Manager)
    → (on_forget_probed env name found m).operations ≡ erase_node name ∷ m.operations
    → (found ≡ true)
      × (m.state ≡ stable_server)
      × (is_rescale_coordinator (observe_cluster env m) m.config.node_name ≡ true)
      × (is_etcd_membership_changing (observe_cluster env m) ≡ false)
      × ((x : Member) × (s : State) × In x (observe_cluster env m)
          × (x.name ≡ name)
          × (is_alive x ≡ true)
          × (of_string (state_tag x) ≡ some s)
          × (is_first_boot s ≡ true)
          × (in_cluster s ≡ false))
erases_only_virgin env name found m h =
    let (f, st, co, vi, ch) = probed_erases env name found m h in
    let (x, i, n, a, t) = is_virgin_member-In (observe_cluster env m) name vi in
    let (s, e, b, c) = tag_first_boot (state_tag x) t in (f, st, co, ch, (x, s, i, n, a, e, b, c))

-- The answer to a lookup makes the node confirm a name, or erase it, or changes nothing: it confirms
-- exactly when it may forget the machine and K3s does not know the name.
pub probed_cases :
    (env : Env) (name : String) (found : Bool) (m : Manager)
    → let m' = on_forget_probed env name found m in
      ((m' ≡ m) × ((can_forget (observe_cluster env m) name m ≡ false) ⊎ (found ≡ true)))
      ⊎ ((m'.effects ≡ send_user_event forgotten (forget_payload name) ∷ m.effects)
          × (m'.state ≡ m.state)
          × (can_forget (observe_cluster env m) name m ≡ true)
          × (found ≡ false))
      ⊎ ((m'.state ≡ rescale_coordinating)
          × (m'.operations ≡ erase_node name ∷ m.operations)
          × (m'.rescale.cleaning ≡ name)
          × (can_forget (observe_cluster env m) name m ≡ true)
          × (found ≡ true))
unfolding on_forget_probed
probed_cases env name found m = ground arith
