-- ===== src/Tests/Telling.antt =====
-- A server "a" and a machine "b" that joins it (antsd/internal/cluster): the server has found no node of
-- that name in K3s and confirms it, and the machine goes on.
use zero_config_ha_cluster.Common.{◌≡◌, refl, true, false, ◌⊎◌, [], ◌∷◌, ◌++◌, any, In, here, there}
use zero_config_ha_cluster.Node.State.{State-discrete, to_string, is_first_boot}
use zero_config_ha_cluster.Node.Role.{server, stable_state}
use zero_config_ha_cluster.Node.Tag.{of_string, tag_is_first_boot}
use zero_config_ha_cluster.Node.Persist.{missing, parsed, load}
use zero_config_ha_cluster.Cluster.Manager.{Manager, EventName, send_user_event, new_manager}
use zero_config_ha_cluster.Cluster.View.{
  get_tag, state_tag, is_alive, is_node_changing_etcd_membership, tag_is, is_alive_in,
  lowest_named_alive_member_in, is_rescale_coordinator, is_virgin_member,
  is_etcd_membership_changing,
}
use zero_config_ha_cluster.Cluster.Forgetting.{can_forget, on_forget_probed}
use zero_config_ha_cluster.Cluster.Joining.{forget_payload}
use zero_config_ha_cluster.Cluster.Rejoin.{choose_initial_state, on_rejoin_ready}
use zero_config_ha_cluster.Cluster.Loop.{
  membership_change, user_event, join_wait_expired, forget_probed, handle,
  on_k3s_operation_succeeded,
}
use zero_config_ha_cluster.Cluster.Keeping.{frees, orders, is_cleared, is_converting}
use zero_config_ha_cluster.Cluster.System.Signals.{
  Site, is_local, Forms, nobody, boots, turns, hears, reacts, succeeds,
}
use zero_config_ha_cluster.Cluster.System.Causes.{acts_only_told}
use zero_config_ha_cluster.Tests.Data.{one_joins, sees, config_of, saved}

abbrev server_boots : Manager
server_boots = choose_initial_state (parsed (saved server)) (new_manager (config_of "a") 0 0)

abbrev serving : Manager
serving = on_k3s_operation_succeeded (sees one_joins) (record server_boots { operations = [] })

abbrev answering : Manager
answering = handle (sees one_joins) (forget_probed "b" false) serving

abbrev machine_boots : Manager
machine_boots = choose_initial_state missing (new_manager (config_of "b") 0 0)

-- It sees the cluster, waits, and checks itself.
abbrev waiting : Manager
waiting = handle (sees one_joins) membership_change machine_boots

abbrev checking : Manager
checking = handle (sees one_joins) join_wait_expired waiting

abbrev checked : Manager
checked = on_k3s_operation_succeeded (sees one_joins) (record checking { operations = [] })

abbrev cleared : Manager
cleared = handle (sees one_joins) (user_event EventName.forgotten (forget_payload "b")) checked

abbrev booted : Site
booted = record { machines = server_boots ∷ machine_boots ∷ []; sent = []; confirmed = 0 }

abbrev server_turns : Manager → Manager → Site → Site
server_turns m n s = record s { machines = m ∷ n ∷ []; sent = m.effects ++ s.sent }

abbrev machine_turns : Manager → Manager → Site → Site
machine_turns m n s = record s { machines = m ∷ n ∷ []; sent = n.effects ++ s.sent }

abbrev answered : Site
answered = server_turns answering checked (
    machine_turns serving checked (
      machine_turns serving checking
        (machine_turns serving waiting (server_turns serving machine_boots booted))))

booted-Forms : Forms booted
booted-Forms =
    boots _ (config_of "a") 0 0 (parsed (saved server)) (boots _ (config_of "b") 0 0 missing nobody)

answered-Forms : Forms answered
unfolding is_local
answered-Forms =
    turns _ [] (checked ∷ []) serving answering refl
      (reacts (sees one_joins) (forget_probed "b" false) refl)
      (turns _ (serving ∷ []) [] checking checked refl (succeeds (sees one_joins) []) (
        turns _ (serving ∷ []) [] waiting checking refl
          (reacts (sees one_joins) join_wait_expired refl)
          (turns _ (serving ∷ []) [] machine_boots waiting refl
            (reacts (sees one_joins) membership_change refl)
            (turns _ [] (machine_boots ∷ []) server_boots serving refl
              (succeeds (sees one_joins) []) booted-Forms))))

confirmation_sent : In (send_user_event EventName.forgotten (forget_payload "b")) answered.sent
unfolding handle on_forget_probed can_forget State-discrete on_k3s_operation_succeeded
    choose_initial_state load new_manager on_rejoin_ready stable_state is_rescale_coordinator
    lowest_named_alive_member_in is_alive_in is_alive state_tag get_tag to_string
    is_etcd_membership_changing tag_is is_node_changing_etcd_membership is_virgin_member of_string
    tag_is_first_boot is_first_boot
confirmation_sent = here refl

abbrev told : Site
told = machine_turns answering cleared answered

told-Forms : Forms told
told-Forms =
    turns _ (answering ∷ []) [] checked cleared refl
      (hears (sees one_joins) EventName.forgotten (forget_payload "b") confirmation_sent)
      answered-Forms

acts_only_told_example :
    ((any (frees cleared.config.node_name) told.sent ≡ true) ⊎ (is_cleared cleared ≡ false))
    × ((any (orders cleared.config.node_name) told.sent ≡ true) ⊎ (is_converting cleared ≡ false))
acts_only_told_example = acts_only_told told cleared told-Forms (there (here refl))
