-- ===== src/Discovery/Lookups.antt =====
-- antsd/internal/discovery/mdns.go: the lookups of `pollLoop` until the context is canceled, and the
-- start of the discovery; with what antsd/internal/serfnode/serfnode.go does with a peer.
use zero_config_ha_cluster.Common.{
  ℕ, zero, suc, ◌≡◌, refl, sym, ap, subst, ◌∙◌, Bool, true, false, not, ◌⊎◌, inl, inr, List, [],
  ◌∷◌, ◌++◌, Option, none, some, String, contains, any, if◌then◌else◌, arith,
}
use zero_config_ha_cluster.Discovery.{
  ServiceEntry, Discoverer, new_discoverer, service_name, handle_addr, handle_entry, handle_entries,
}
use zero_config_ha_cluster.Discovery.Peers.{advertises, AreDistinct, handle_entries-new}
use zero_config_ha_cluster.Serfnode.Delivery.{take}
use zero_config_ha_cluster.Serfnode.Library.{Serf, Node, NodeError, failed, start, join}

-- `entriesBufferSize`.
abbrev pub entries_buffer_size : ℕ
entries_buffer_size = 64

-- The mDNS library: whether the service of the own node can be made and its server starts; and what
-- the lookup of a number offers for a service name, with whether it had no error.
pub record Mdns : Type 0 where
  pub service_made : Bool
  pub server_starts : Bool
  pub query : ℕ → String → List ServiceEntry × Bool

-- The entries of `entriesCh` behind a lookup: the library drops what the channel cannot hold. An error
-- is only logged.
unfoldable pub entries_of : Mdns → String → ℕ → List ServiceEntry
unfolding service_name
entries_of s cluster_name k = take entries_buffer_size (s.query k (service_name cluster_name)).0

-- `lookupOnce`, for the lookup of the number `k`.
unfoldable pub lookup_once : Mdns → ℕ → Discoverer → Discoverer
unfolding entries_of handle_entries
lookup_once s k d = handle_entries (entries_of s d.cluster_name k) d

-- The discovery with its mDNS server.
pub record Discovering : Type 0 where
  pub discoverer : Discoverer
  pub advertises_node : Bool

-- `pollLoop`, where the context is canceled behind `n` more ticks, the next lookup being number `k`;
-- the server is shut down at the end.
unfoldable pub poll_loop : Mdns → ℕ → ℕ → Discovering → Discovering
unfolding lookup_once
poll_loop s zero k d = record d { advertises_node = false }
poll_loop s (suc n) k d =
    poll_loop s n (suc k) (record d { discoverer = lookup_once s k d.discoverer })

-- `Start`: the discovery, or none where it returns an error.
unfoldable pub start_discovery : Mdns → Discoverer → Option Discovering
start_discovery s d =
    if not s.service_made
    then none
    else if not s.server_starts
    then none
    else some (record { discoverer = d; advertises_node = true })

-- `Start` of the Serf node: Serf, and behind it the discovery. Where the discovery fails, the error is
-- returned while Serf stays up.
unfoldable pub start_node :
    {W : Type 0} → Serf W → Mdns → String → String → Node → W → W × Node × (NodeError ⊎ Discovering)
unfolding start start_discovery
start_node s mdns cluster_name name node w =
    let (w1, node1, e) = start s name node w in
    elim e [
      | some err ↦ (w1, node1, inl err)
      | none ↦ elim (start_discovery mdns (new_discoverer cluster_name)) [
        | none ↦ (w1, node1, inl failed)
        | some d ↦ (w1, node1, inr d)
      ]
    ]

-- The calls of `Join` for the addresses that were found, the oldest one last; an error is only logged.
unfoldable pub join_found : {W : Type 0} → Serf W → Node → List String → W → W
unfolding join
join_found s node [] w = w
join_found s node (addr ∷ found) w = (join s (addr ∷ []) node (join_found s node found w)).0

-- The entries of the lookups with the numbers from `k`.
abbrev pub all_entries : Mdns → String → ℕ → ℕ → List ServiceEntry
all_entries s cluster_name zero k = []
all_entries s cluster_name (suc n) k =
    entries_of s cluster_name k ++ all_entries s cluster_name n (suc k)

handle_entries-append :
    (xs ys : List ServiceEntry) (d : Discoverer)
    → handle_entries (xs ++ ys) d ≡ handle_entries ys (handle_entries xs d)
unfolding handle_entries
handle_entries-append [] ys d = refl
handle_entries-append (x ∷ xs) ys d = handle_entries-append xs ys (handle_entry x d)

handle_entry-cluster :
    (e : ServiceEntry) (d : Discoverer) → (handle_entry e d).cluster_name ≡ d.cluster_name
unfolding handle_entry handle_addr
handle_entry-cluster e d = ground arith

handle_entries-cluster :
    (es : List ServiceEntry) (d : Discoverer) → (handle_entries es d).cluster_name ≡ d.cluster_name
unfolding handle_entries
handle_entries-cluster [] d = refl
handle_entries-cluster (e ∷ es) d =
    handle_entries-cluster es (handle_entry e d) ∙ handle_entry-cluster e d

poll_loop-entries :
    (s : Mdns) (n k : ℕ) (d : Discovering)
    → ((poll_loop s n k d).advertises_node ≡ false)
      × ((poll_loop s n k d).discoverer
          ≡ handle_entries (all_entries s d.discoverer.cluster_name n k) d.discoverer)
unfolding poll_loop lookup_once handle_entries
poll_loop-entries s zero k d = (refl, refl)
poll_loop-entries s (suc n) k d =
    let c = d.discoverer.cluster_name in
    let es = entries_of s c k in
    let d' = record d { discoverer = handle_entries es d.discoverer } in
    let (a, e) = poll_loop-entries s n (suc k) d' in
    (
      a,
      e
          ∙ ap (λ x. handle_entries (all_entries s x n (suc k)) (handle_entries es d.discoverer))
              (handle_entries-cluster es d.discoverer)
          ∙ sym (handle_entries-append es (all_entries s c n (suc k)) d.discoverer),
    )

-- Once the context is canceled behind any number of lookups, the own node is no longer advertised; and
-- `onFind` was called for an address exactly if one of the first 64 entries of some lookup advertises
-- it for the cluster, and once, whether or not the join succeeded.
pub poll_loop-found :
    (s : Mdns) (n : ℕ) (cluster_name a : String) (d : Discovering)
    → start_discovery s (new_discoverer cluster_name) ≡ some d
    → ((poll_loop s n 0 d).advertises_node ≡ false)
      × AreDistinct (poll_loop s n 0 d).discoverer.found
      × (contains (poll_loop s n 0 d).discoverer.found a
          ≡ any (advertises cluster_name a) (all_entries s cluster_name n 0))
unfolding start_discovery
poll_loop-found s n cluster_name a d h =
    let i : Discovering = record {
      discoverer = new_discoverer cluster_name;
      advertises_node = true;
    } in
    let q : i ≡ d = ground arith in
    let (stopped, e) = poll_loop-entries s n 0 i in
    let (distinct, found) = handle_entries-new (all_entries s cluster_name n 0) cluster_name a in
    subst
      (λ x.
        ((poll_loop s n 0 x).advertises_node ≡ false)
        × AreDistinct (poll_loop s n 0 x).discoverer.found
        × (contains (poll_loop s n 0 x).discoverer.found a
            ≡ any (advertises cluster_name a) (all_entries s cluster_name n 0)))
      q
      (
        stopped,
        subst (λ y. AreDistinct y.found) (sym e) distinct,
        ap (λ y. contains y.found a) e ∙ found,
      )
