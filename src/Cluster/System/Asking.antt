-- ===== src/Cluster/System/Asking.antt =====
-- What a machine of a site keeps, after what was sent and confirmed (antsd/internal/cluster).
use zero_config_ha_cluster.Common.{
  ℕ, suc, ◌≤◌, ◌≡◌, refl, sym, subst, Bool, true, ◌||◌, List, [], ◌∷◌, ◌++◌, any, String, ◌==◌,
  eq_refl, eq_iff, In, here, there, arith, not, str_eq,
}
use zero_config_ha_cluster.Node.Persist.{StateFile, load}
use zero_config_ha_cluster.Cluster.Manager.{
  Manager, Config, Payload, EventName, Effect, send_user_event, Operation, new_manager,
}
use zero_config_ha_cluster.Cluster.Rejoin.{choose_initial_state}
use zero_config_ha_cluster.Cluster.Loop.{Input, user_event, confirm_bootstrap}
use zero_config_ha_cluster.Cluster.Keeping.{
  Asked, is_signal, is_calm, is_cleared, is_converting, frees, orders, keeps, spares, allows,
}
use zero_config_ha_cluster.Cluster.System.Signals.{is_local}

-- What a machine of that name keeps, after what was sent and confirmed.
abbrev pub asked_of : List Effect → ℕ → String → Asked
asked_of sent confirmed name = record {
  operations = 0;
  name = name;
  calm = confirmed == 0;
  uncleared = not (any (frees name) sent);
  unordered = not (any (orders name) sent);
}

abbrev pub IsKept : List Effect → ℕ → Manager → Type 0
IsKept sent confirmed m = keeps (asked_of sent confirmed m.config.node_name) m ≡ true

abbrev pub AreKept : List Effect → ℕ → List Manager → Type 0
AreKept sent confirmed [] = Unit {0}
AreKept sent confirmed (m ∷ ms) = IsKept sent confirmed m × AreKept sent confirmed ms

-- Every event in the list passes a test, if no event does.
any-In :
    (p : Effect → Bool) (xs : List Effect) (x : Effect) → In x xs → (any p xs || not (p x)) ≡ true
any-In p [] x i = elim i [ ]
any-In p (y ∷ xs) x (here e) =
    subst (λ z. (any p (y ∷ xs) || not (p z)) ≡ true) (sym e) (ground arith)
any-In p (y ∷ xs) x (there i) = ground (arith, any-In p xs x i)

pub any-append :
    (p : Effect → Bool) (xs ys : List Effect) → any p (xs ++ ys) ≡ (any p xs || any p ys)
any-append p [] ys = refl
any-append p (x ∷ xs) ys = ground (arith, any-append p xs ys)

-- What is still asked after more was sent.
keeps-weaken :
    (k k' : Asked) (m : Manager)
    → k'.operations ≡ 0
    → k'.name ≡ k.name
    → (not k'.calm || k.calm) ≡ true
    → (not k'.uncleared || k.uncleared) ≡ true
    → (not k'.unordered || k.unordered) ≡ true
    → keeps k m ≡ true
    → keeps k' m ≡ true
unfolding keeps
keeps-weaken k k' m o n c u r h = ground arith

pub IsKept-later :
    (more sent : List Effect) (confirmed later : ℕ) (m : Manager)
    → confirmed ≤ later
    → IsKept sent confirmed m
    → IsKept (more ++ sent) later m
IsKept-later more sent confirmed later m l h =
    keeps-weaken (asked_of sent confirmed m.config.node_name)
      (asked_of (more ++ sent) later m.config.node_name) m refl refl (ground arith)
      (ground (arith, any-append (frees m.config.node_name) more sent))
      (ground (arith, any-append (orders m.config.node_name) more sent)) h

pub AreKept-later :
    (more sent : List Effect) (confirmed later : ℕ) (ms : List Manager)
    → confirmed ≤ later
    → AreKept sent confirmed ms
    → AreKept (more ++ sent) later ms
AreKept-later more sent c l [] h k = tt
AreKept-later more sent c l (m ∷ ms) h (k, ks) =
    (IsKept-later more sent c l m h k, AreKept-later more sent c l ms h ks)

module _ (sent : List Effect) (confirmed : ℕ) where
  pub AreKept-split :
      (before after : List Manager) (m : Manager)
      → AreKept sent confirmed (before ++ m ∷ after)
      → IsKept sent confirmed m × AreKept sent confirmed (before ++ after)
  AreKept-split [] after m (h, k) = (h, k)
  AreKept-split (x ∷ xs) after m (h, k) = let (c, f) = AreKept-split xs after m k in (c, (h, f))

  pub AreKept-insert :
      (before after : List Manager) (m : Manager)
      → IsKept sent confirmed m
      → AreKept sent confirmed (before ++ after)
      → AreKept sent confirmed (before ++ m ∷ after)
  AreKept-insert [] after m h k = (h, k)
  AreKept-insert (x ∷ xs) after m h (y, k) = (y, AreKept-insert xs after m h k)

  pub AreKept-member :
      (ms : List Manager) (m : Manager)
      → AreKept sent confirmed ms
      → In m ms
      → IsKept sent confirmed m
  AreKept-member [] m h i = elim i [ ]
  AreKept-member (x ∷ ms) m (h, k) (here e) = subst (IsKept sent confirmed) (sym e) h
  AreKept-member (x ∷ ms) m (h, k) (there i) = AreKept-member ms m k i

pub boot-kept :
    (k : Asked) (config : Config) (grace settle : ℕ) (file : StateFile)
    → k.operations ≡ 0
    → k.name ≡ config.node_name
    → keeps k (choose_initial_state file (new_manager config grace settle)) ≡ true
unfolding keeps choose_initial_state new_manager load is_calm is_cleared is_converting
boot-kept k config grace settle file o n =
    ground (arith, subst (λ x. str_eq config.node_name x ≡ true) (sym n) (eq_refl config.node_name))

pub boot-named :
    (config : Config) (grace settle : ℕ) (file : StateFile)
    → (choose_initial_state file (new_manager config grace settle)).config ≡ config
unfolding choose_initial_state new_manager load
boot-named config grace settle file = ground arith

pub keeps-named : (k : Asked) (m : Manager) → keeps k m ≡ true → m.config.node_name ≡ k.name
unfolding keeps
keeps-named k m h = (eq_iff m.config.node_name k.name).0 (ground arith)

pub keeps-calm : (k : Asked) (m : Manager) → keeps k m ≡ true → k.calm ≡ true → is_calm m ≡ true
unfolding keeps
keeps-calm k m h c = ground arith

pub keeps-any :
    (k : Asked) (m : Manager) (ops : List Operation)
    → k.operations ≡ 0
    → keeps k m ≡ true
    → keeps k (record m { operations = ops }) ≡ true
unfolding keeps is_calm is_cleared is_converting
keeps-any k m ops o h = ground arith

-- Nothing that was sent undoes what is asked behind it.
pub sent-spares :
    (sent : List Effect) (confirmed : ℕ) (name : String) (e : Effect)
    → (not (confirmed == 0) || not (any is_signal sent)) ≡ true
    → In e sent
    → spares (asked_of sent confirmed name) e ≡ true
unfolding spares
sent-spares sent confirmed name e q i =
    ground (
      arith,
      any-In is_signal sent e i,
      any-In (frees name) sent e i,
      any-In (orders name) sent e i,
    )

pub local-allows : (k : Asked) (i : Input) → is_local i ≡ true → allows k i ≡ true
unfolding is_local allows
local-allows k i h = ground arith

pub told-allows :
    (k : Asked) (name : EventName) (p : Payload)
    → spares k (send_user_event name p) ≡ true
    → allows k (user_event name p) ≡ true
unfolding allows
told-allows k name p h = h

pub confirm-allows :
    (sent : List Effect) (confirmed : ℕ) (name : String)
    → allows (asked_of sent (suc confirmed) name) confirm_bootstrap ≡ true
unfolding allows
confirm-allows sent confirmed name = ground arith
