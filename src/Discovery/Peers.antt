-- ===== src/Discovery/Peers.antt =====
-- Which peers antsd/internal/discovery/mdns.go reports, over all its lookups.
use zero_config_ha_cluster.Common.{
  ◌≡◌, refl, sym, ap, ◌∙◌, Bool, true, false, not, ◌&&◌, ◌||◌, List, [], ◌∷◌, none, some, String,
  str_eq, contains, any, arith, eq_iff, Bool-cases, Option-cases, inl, inr, subst, if-elim,
}
use zero_config_ha_cluster.Discovery.{
  ServiceEntry, Discoverer, new_discoverer, is_instance, handle_addr, handle_entry, handle_entries,
}

-- The entry is one of the cluster, at an address.
abbrev pub advertises : String → String → ServiceEntry → Bool
advertises cluster_name a e =
    is_instance cluster_name e && elim e.addr [ none ↦ false | some addr ↦ str_eq addr a ]

-- No name stands in the list twice.
abbrev pub AreDistinct : List String → Type 0
AreDistinct [] = Unit {0}
AreDistinct (a ∷ rest) = (contains rest a ≡ false) × AreDistinct rest

record Fits (d : Discoverer) : Type 0 where
  same : d.found ≡ d.seen
  distinct : AreDistinct d.found

-- What one entry does to the addresses, for the address that a caller asks about.
record Takes (e : ServiceEntry) (d d' : Discoverer) (a : String) : Type 0 where
  fits : Fits d'
  cluster : d'.cluster_name ≡ d.cluster_name
  now : contains d'.found a ≡ (contains d.found a || advertises d.cluster_name a e)

handle_addr-Fits : (addr : String) (d : Discoverer) → Fits d → Fits (handle_addr addr d)
unfolding handle_addr
handle_addr-Fits addr d f = elim (Bool-cases (contains d.seen addr)) [
  | inl s ↦ rw s f
  | inr s ↦ rw s (record {
    same = ap (λ l. addr ∷ l) f.same;
    distinct = (ap (λ l. contains l addr) f.same ∙ s, f.distinct);
  })
]

contains-same : (l : List String) (a b : String) → str_eq a b ≡ true → contains l b ≡ contains l a
contains-same l a b h = ap (contains l) (sym ((eq_iff a b).0 h))

handle_addr-found :
    (addr : String) (d : Discoverer) (a : String)
    → Fits d
    → contains (handle_addr addr d).found a ≡ (contains d.found a || str_eq addr a)
unfolding handle_addr
handle_addr-found addr d a f = elim (Bool-cases (contains d.seen addr)) [
  | inl s ↦ rw s (ground (arith, contains-same d.found addr a, ap (λ l. contains l addr) f.same))
  | inr s ↦ rw s (ground arith)
]

handle_addr-cluster :
    (addr : String) (d : Discoverer) → (handle_addr addr d).cluster_name ≡ d.cluster_name
unfolding handle_addr
handle_addr-cluster addr d = ground arith

handle_entry-foreign :
    (e : ServiceEntry) (d : Discoverer)
    → is_instance d.cluster_name e ≡ false
    → handle_entry e d ≡ d
unfolding handle_entry
handle_entry-foreign e d s = rw s refl

handle_entry-none : (e : ServiceEntry) (d : Discoverer) → e.addr ≡ none → handle_entry e d ≡ d
unfolding handle_entry is_instance
handle_entry-none e d n =
    rw (n, handle_entry)
      (if-elim (λ x. x ≡ d) (not (is_instance d.cluster_name e)) d d (λ _. refl) (λ _. refl))

handle_entry-some :
    (e : ServiceEntry) (d : Discoverer) (addr : String)
    → is_instance d.cluster_name e ≡ true
    → e.addr ≡ some addr
    → handle_entry e d ≡ handle_addr addr d
unfolding handle_entry is_instance
handle_entry-some e d addr s n = rw (n, handle_entry) (rw s refl)

advertises-none : (e : ServiceEntry) (c a : String) → e.addr ≡ none → advertises c a e ≡ false
advertises-none e c a n = rw n (ground arith)

advertises-some :
    (e : ServiceEntry) (c a addr : String)
    → is_instance c e ≡ true
    → e.addr ≡ some addr
    → advertises c a e ≡ str_eq addr a
unfolding is_instance
advertises-some e c a addr s n = rw n (rw s refl)

handle_entry-Takes :
    (e : ServiceEntry) (d : Discoverer) (a : String) → Fits d → Takes e d (handle_entry e d) a
handle_entry-Takes e d a f = elim (Bool-cases (is_instance d.cluster_name e)) [
  | inr s ↦
      subst (λ x. Takes e d x a) (sym (handle_entry-foreign e d s))
        (record { fits = f; cluster = refl; now = ground arith })
  | inl s ↦ elim (Option-cases e.addr) [
    | inl n ↦
        subst (λ x. Takes e d x a) (sym (handle_entry-none e d n))
          (record {
            fits = f;
            cluster = refl;
            now = ground (arith, advertises-none e d.cluster_name a n);
          })
    | inr (addr, n) ↦
        subst (λ x. Takes e d x a) (sym (handle_entry-some e d addr s n))
          (record {
            fits = handle_addr-Fits addr d f;
            cluster = handle_addr-cluster addr d;
            now =
                handle_addr-found addr d a f
                ∙ ap (λ b. contains d.found a || b)
                    (sym (advertises-some e d.cluster_name a addr s n));
          })
  ]
]

or_assoc : (a b c : Bool) → ((a || b) || c) ≡ (a || (b || c))
or_assoc a b c = ground arith

handle_entries-found :
    (es : List ServiceEntry) (d : Discoverer) (a : String)
    → Fits d
    → AreDistinct (handle_entries es d).found
      × (contains (handle_entries es d).found a
          ≡ (contains d.found a || any (advertises d.cluster_name a) es))
unfolding handle_entries
handle_entries-found [] d a f = (f.distinct, ground arith)
handle_entries-found (e ∷ es) d a f =
    let t = handle_entry-Takes e d a f in
    let (i, k) = handle_entries-found es (handle_entry e d) a t.fits in
    (
      i,
      k
          ∙ ap (λ c. contains (handle_entry e d).found a || any (advertises c a) es) t.cluster
          ∙ ap (λ b. b || any (advertises d.cluster_name a) es) t.now
          ∙ or_assoc (contains d.found a) (advertises d.cluster_name a e)
              (any (advertises d.cluster_name a) es),
    )

-- Over all lookups, `onFind` is called for an address exactly if some entry of the cluster advertises
-- it, and never twice for the same one.
pub handle_entries-new :
    (es : List ServiceEntry) (cluster_name a : String)
    → AreDistinct (handle_entries es (new_discoverer cluster_name)).found
      × (contains (handle_entries es (new_discoverer cluster_name)).found a
          ≡ any (advertises cluster_name a) es)
handle_entries-new es cluster_name a =
    handle_entries-found es (new_discoverer cluster_name) a (record { same = refl; distinct = tt })
