-- ===== src/Cluster/Safety/Orders.antt =====
-- The conversion order on its way and on the machine that it designates
-- (antsd/internal/cluster/rescale.go).
use zero_config_ha_cluster.Common.{
  ◌≡◌, refl, ap, ◌⊎◌, inl, inr, ◌≢◌, true, false, ◌||◌, ◌∷◌, none, some, str_eq, arith,
  Option-cases, eq_iff,
}
use zero_config_ha_cluster.Node.State.{rescale_promoting, rescale_demoting}
use zero_config_ha_cluster.Node.Role.{
  Role, server, agent, unknown, is_server, is_agent, other, stable_state, role_of_string,
  role_to_string,
}
use zero_config_ha_cluster.Cluster.Manager.{Manager, Payload, RescaleOrder, convert}
use zero_config_ha_cluster.Cluster.Rounds.{
  order_payload, read_rescale_order, on_rescale_convert, obey, start_convert,
}

role_of_string-role_to_string :
    (r : Role) → is_server r || is_agent r ≡ true → role_of_string (role_to_string r) ≡ r
unfolding role_of_string role_to_string
role_of_string-role_to_string server h = refl
role_of_string-role_to_string agent h = refl
role_of_string-role_to_string (unknown t) h = absurd (ground arith)

-- An order for one of the two roles, sent and read back, is the same order.
pub read_rescale_order-order_payload :
    (o : RescaleOrder)
    → is_server o.role || is_agent o.role ≡ true
    → read_rescale_order (order_payload o) ≡ some o
unfolding read_rescale_order order_payload
read_rescale_order-order_payload o h = ground (arith, role_of_string-role_to_string o.role h)

obey_cases :
    (o : RescaleOrder) (m : Manager)
    → (obey o m ≡ m)
      ⊎ ((o.target ≡ m.config.node_name)
          × (str_eq o.join_ip "" ≡ false)
          × (m.state ≡ stable_state (other o.role))
          × (m.persisted_state ≢ none)
          × ((obey o m).operations ≡ convert o ∷ m.operations))
unfolding obey start_convert
obey_cases o m = ground (arith, eq_iff o.target m.config.node_name)

-- A node acts on a conversion order only if the order names it and gives a server to join, the node
-- runs the role opposite to the order's, and it holds a persisted state; in every other case it stays
-- as it was.
pub on_rescale_convert_cases :
    (p : Payload) (m : Manager)
    → (on_rescale_convert p m ≡ m)
      ⊎ ((o : RescaleOrder) × (read_rescale_order p ≡ some o)
          × (o.target ≡ m.config.node_name)
          × (str_eq o.join_ip "" ≡ false)
          × (m.state ≡ stable_state (other o.role))
          × (m.persisted_state ≢ none)
          × ((on_rescale_convert p m).operations ≡ convert o ∷ m.operations))
unfolding on_rescale_convert obey start_convert
on_rescale_convert_cases p m = elim (Option-cases (read_rescale_order p)) [
  | inl e ↦ inl (rw (e, on_rescale_convert))
  | inr (o, e) ↦
      rw (e, on_rescale_convert)
        (elim (obey_cases o m) [
          | inl q ↦ inl q
          | inr (t, j, s, n, c) ↦ inr (o, refl, t, j, s, n, c)
        ])
]

obey_converting :
    (q : RescaleOrder) (m : Manager)
    → (m.state ≡ rescale_promoting) ⊎ (m.state ≡ rescale_demoting)
    → obey q m ≡ m
unfolding obey stable_state other
obey_converting q m h = ground arith

obey_starts :
    (o : RescaleOrder) (m : Manager)
    → (obey o m ≡ m)
      ⊎ (((obey o m).state ≡ rescale_promoting) ⊎ ((obey o m).state ≡ rescale_demoting))
unfolding obey start_convert
obey_starts o m = ground arith

obey_idempotent : (o : RescaleOrder) (m : Manager) → obey o (obey o m) ≡ obey o m
obey_idempotent o m = elim (obey_starts o m) [
  | inl e ↦ ap (obey o) e
  | inr h ↦ obey_converting o (obey o m) h
]

-- The same conversion order received twice in a row has the effect of one.
pub on_rescale_convert_idempotent :
    (p : Payload) (m : Manager)
    → on_rescale_convert p (on_rescale_convert p m) ≡ on_rescale_convert p m
unfolding on_rescale_convert
on_rescale_convert_idempotent p m = elim (Option-cases (read_rescale_order p)) [
  | inl e ↦ ground arith
  | inr (o, e) ↦ ground (arith, obey_idempotent o m)
]
