-- ===== src/Cluster/System/Causes.antt =====
-- Why a machine of a site acts (antsd/internal/cluster): what a user or another machine must have done
-- before it founds a cluster, joins one or changes its role.
use zero_config_ha_cluster.Common.{
  ap, ℕ, suc, ◌≡◌, refl, sym, subst, true, false, ◌||◌, ◌⊎◌, inl, inr, List, [], ◌∷◌, ◌++◌, any,
  ◌==◌, In, arith, not, Bool-cases,
}
use zero_config_ha_cluster.Cluster.Manager.{Manager, Effect, new_manager}
use zero_config_ha_cluster.Cluster.Rejoin.{choose_initial_state}
use zero_config_ha_cluster.Cluster.Loop.{user_event, confirm_bootstrap, handle}
use zero_config_ha_cluster.Cluster.Keeping.{
  is_founding, is_signal, is_calm, is_cleared, is_converting, frees, orders, keeps,
}
use zero_config_ha_cluster.Cluster.Keeping.Dispatch.{handle-keeps}
use zero_config_ha_cluster.Cluster.Keeping.Results.{
  on_k3s_operation_succeeded-keeps, on_k3s_operation_failed-keeps,
}
use zero_config_ha_cluster.Cluster.System.Signals.{
  Site, Turns, hears, reacts, succeeds, fails, Forms, nobody, boots, goes, turns, confirms,
}
use zero_config_ha_cluster.Cluster.System.Asking.{
  asked_of, IsKept, AreKept, any-append, IsKept-later, AreKept-later, AreKept-split, AreKept-insert,
  AreKept-member, boot-kept, boot-named, keeps-named, keeps-calm, keeps-any, sent-spares,
  local-allows, told-allows, confirm-allows,
}

-- A turn keeps what was asked before it.
Turns-keeps :
    (sent : List Effect) (confirmed : ℕ) {m m' : Manager}
    → (not (confirmed == 0) || not (any is_signal sent)) ≡ true
    → Turns sent m m'
    → IsKept sent confirmed m
    → keeps (asked_of sent confirmed m.config.node_name) m' ≡ true
Turns-keeps sent c {m} q (hears env name p i) h =
    let k = asked_of sent c m.config.node_name in
    handle-keeps k env (user_event name p) m
      (told-allows k name p (sent-spares sent c m.config.node_name _ q i)) h
Turns-keeps sent c {m} q (reacts env i l) h =
    let k = asked_of sent c m.config.node_name in handle-keeps k env i m (local-allows k i l) h
Turns-keeps sent c {m} q (succeeds env ops) h =
    let k = asked_of sent c m.config.node_name in
    on_k3s_operation_succeeded-keeps k env _ (keeps-any k m ops refl h)
Turns-keeps sent c {m} q (fails env ops) h =
    let k = asked_of sent c m.config.node_name in
    on_k3s_operation_failed-keeps k env _ (keeps-any k m ops refl h)

-- What holds of a site.
record IsTold (s : Site) : Type 0 where
  kept : AreKept s.sent s.confirmed s.machines
  quiet : (not (s.confirmed == 0) || not (any is_signal s.sent)) ≡ true

calm_sends : (m : Manager) → is_calm m ≡ true → any is_signal m.effects ≡ false
unfolding is_calm
calm_sends m h = ground arith

turned :
    (s : Site) (before after : List Manager) (m m' : Manager)
    → s.machines ≡ before ++ m ∷ after
    → keeps (asked_of s.sent s.confirmed m.config.node_name) m' ≡ true
    → IsTold s
    → IsTold (record s { machines = before ++ m' ∷ after; sent = m'.effects ++ s.sent })
turned s before after m m' e h t =
    let k = asked_of s.sent s.confirmed m.config.node_name in
    let (_, rest) =
      AreKept-split s.sent s.confirmed before after m
        (subst (AreKept s.sent s.confirmed) e t.kept) in
    let same : keeps (asked_of s.sent s.confirmed m'.config.node_name) m' ≡ true =
      subst (λ x. keeps (asked_of s.sent s.confirmed x) m' ≡ true) (sym (keeps-named k m' h)) h in
    record {
      kept =
          AreKept-insert (m'.effects ++ s.sent) s.confirmed before after m'
            (IsKept-later m'.effects s.sent s.confirmed s.confirmed m' (omega arith) same)
            (AreKept-later m'.effects s.sent s.confirmed s.confirmed (before ++ after) (omega arith)
              rest);
      quiet = elim (Bool-cases (s.confirmed == 0)) [
        | inl z ↦ ground (
          arith,
          any-append is_signal m'.effects s.sent,
          t.quiet,
          calm_sends m' (keeps-calm k m' h z),
        )
        | inr n ↦ ground arith
      ];
    }

confirmed_once : (s : Site) → IsTold s → IsTold (record s { confirmed = suc s.confirmed })
confirmed_once s t = record {
  kept = AreKept-later [] s.sent s.confirmed (suc s.confirmed) s.machines (omega arith) t.kept;
  quiet = ground arith;
}

Forms-IsTold : (s : Site) → Forms s → IsTold s
Forms-IsTold _ nobody = record { kept = tt; quiet = refl }
Forms-IsTold _ (boots s config grace settle file f) =
    let t = Forms-IsTold s f in
    record {
      kept = (
        boot-kept
            (asked_of s.sent s.confirmed
              (choose_initial_state file (new_manager config grace settle)).config.node_name)
            config grace settle file refl
            (ap (λ c. c.node_name) (boot-named config grace settle file)),
        t.kept,
      );
      quiet = t.quiet;
    }
Forms-IsTold _ (goes s before after m e f) =
    let t = Forms-IsTold s f in
    record {
      kept =
          (AreKept-split s.sent s.confirmed before after m
            (subst (AreKept s.sent s.confirmed) e t.kept)).1;
      quiet = t.quiet;
    }
Forms-IsTold _ (turns s before after m m' e u f) =
    let t = Forms-IsTold s f in
    let (h, _) =
      AreKept-split s.sent s.confirmed before after m
        (subst (AreKept s.sent s.confirmed) e t.kept) in
    turned s before after m m' e (Turns-keeps s.sent s.confirmed t.quiet u h) t
Forms-IsTold _ (confirms s before after m env e f) =
    let s' = record s { confirmed = suc s.confirmed } in
    let t = confirmed_once s (Forms-IsTold s f) in
    let (h, _) =
      AreKept-split s'.sent s'.confirmed before after m
        (subst (AreKept s'.sent s'.confirmed) e t.kept) in
    turned s' before after m (handle env confirm_bootstrap m) e
      (handle-keeps (asked_of s'.sent s'.confirmed m.config.node_name) env confirm_bootstrap m
        (confirm-allows s.sent s.confirmed m.config.node_name) h)
      t

IsKept-member : (s : Site) (m : Manager) → Forms s → In m s.machines → IsKept s.sent s.confirmed m
IsKept-member s m f i = AreKept-member s.sent s.confirmed s.machines m (Forms-IsTold s f).kept i

-- While no user has confirmed the creation of a cluster on any machine, no machine waits for it,
-- installs K3s for it or failed it, and none has sent one of the two signals.
pub founds_only_confirmed :
    (s : Site) (m : Manager)
    → Forms s
    → In m s.machines
    → s.confirmed ≡ 0
    → (is_founding m.state ≡ false) × (any is_signal m.effects ≡ false)
unfolding is_calm
founds_only_confirmed s m f i z =
    let h = keeps-calm _ m (IsKept-member s m f i) (ap (λ c. c == 0) z) in
    (ground arith, calm_sends m h)

-- As long as no machine has sent a confirmation that the name of a machine is free, that machine
-- neither installs on the joining path nor may it do so; and as long as no machine has sent an order
-- with its name, it is neither promoted nor demoted.
pub acts_only_told :
    (s : Site) (m : Manager)
    → Forms s
    → In m s.machines
    → ((any (frees m.config.node_name) s.sent ≡ true) ⊎ (is_cleared m ≡ false))
      × ((any (orders m.config.node_name) s.sent ≡ true) ⊎ (is_converting m ≡ false))
unfolding keeps
acts_only_told s m f i =
    let h = IsKept-member s m f i in
    (
      elim (Bool-cases (any (frees m.config.node_name) s.sent)) [
        | inl e ↦ inl e
        | inr n ↦ inr (ground arith)
      ],
      elim (Bool-cases (any (orders m.config.node_name) s.sent)) [
        | inl e ↦ inl e
        | inr n ↦ inr (ground arith)
      ],
    )
