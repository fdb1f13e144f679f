-- ===== src/Cluster/View/Counts.antt =====
-- The counts of antsd/internal/cluster/view.go, and how a published state changes them.
use zero_config_ha_cluster.Common.{
  ◌+◌, ◌≡◌, sym, subst, Bool, true, false, [], ◌∷◌, String, str_eq, count_if, any, In, here, there,
  eq_iff, eq_refl, arith, if◌then◌else◌,
}
use zero_config_ha_cluster.Node.State.{State}
use zero_config_ha_cluster.Cluster.View.{Member, View}
use zero_config_ha_cluster.Serfnode.{retag, publish}

-- No name stands twice among the members.
abbrev pub IsUnique : View → Type 0
IsUnique [] = Unit {0}
IsUnique (m ∷ ms) = (any (λ x. str_eq x.name m.name) ms ≡ false) × IsUnique ms

any-In :
    (v : View) (m : Member) (name : String)
    → In m v
    → m.name ≡ name
    → any (λ x. str_eq x.name name) v ≡ true
any-In [] m name i e = elim i [ ]
any-In (x ∷ xs) m name (here p) e = ground (arith, eq_iff x.name name)
any-In (x ∷ xs) m name (there i) e = ground (arith, any-In xs m name i e)

-- A count after one member has published a state, where that member counts before and after as said.
pub count_if-publish :
    (p : Member → Bool) (v : View) (m : Member) (s : State)
    → IsUnique v
    → In m v
    → count_if p (publish m.name s v) + (if p m then 1 else 0)
      ≡ count_if p v + (if p (retag s m) then 1 else 0)
unfolding publish
count_if-publish p [] m s u i = elim i [ ]
count_if-publish p (x ∷ xs) m s u (here e) =
    subst
      (λ y.
        count_if p (publish y.name s (x ∷ xs)) + (if p y then 1 else 0)
        ≡ count_if p (x ∷ xs) + (if p (retag s y) then 1 else 0))
      (sym e) (ground (arith, eq_refl x.name))
count_if-publish p (x ∷ xs) m s u (there i) =
    ground (arith, any-In xs m x.name i, eq_iff x.name m.name, count_if-publish p xs m s u.1 i)
