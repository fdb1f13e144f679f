-- ===== src/Tests/Events.antt =====
-- Events, log lines, peers and buttons of antsd/internal on concrete inputs.
use zero_config_ha_cluster.Common.{◌≤◌, List, [], ◌++◌, some, length}
use zero_config_ha_cluster.Node.State.{State}
use zero_config_ha_cluster.Cluster.Manager.{Manager}
use zero_config_ha_cluster.Serfnode.Events.{Event, user, RawEvent, handle_raw_event, dispatch}
use zero_config_ha_cluster.Serfnode.Delivery.{
  Channel, Part, Steps, arrives, reads, done, more, start, events_of, Steps-Delivers,
}
use zero_config_ha_cluster.Discovery.{ServiceEntry}
use zero_config_ha_cluster.Admin.{request_bootstrap, running, handle_action}
use zero_config_ha_cluster.Admin.Actions.{IsResponse, handle_action-answer}
use zero_config_ha_cluster.Tests.Data.{waiting_two, sees, manager_in}

-- A user event arrives and is read.
abbrev requested : RawEvent
requested = RawEvent.user_event "antsd:bootstrap-requested" ""

abbrev the_event : Event
the_event = record {
  type = user;
  node_ip = "";
  name = "antsd:bootstrap-requested";
  tags = [];
  payload = "";
}

abbrev arrived : List Event
arrived = ([] ++ events_of requested) ++ []

abbrev read_one : Channel
read_one = record { read = events_of requested; waiting = [] }

arrives_and_reads : Steps arrived start read_one
unfolding handle_raw_event dispatch
arrives_and_reads = more (more done (arrives requested start)) (reads [] [] the_event)

Steps-Delivers_example :
    (length read_one.waiting ≤ 64) × Part (read_one.read ++ read_one.waiting) arrived
Steps-Delivers_example = Steps-Delivers arrived read_one arrives_and_reads

-- The same peer in two lookups.
abbrev peer : ServiceEntry
peer = record { name = "b._antsd-antsd-cluster._tcp.local."; addr = some "10.0.0.2:7946" }

-- The first button, pressed too late.
abbrev waiting : Manager
waiting = manager_in "a" State.bootstrap_waiting

handle_action-answer_example :
    IsResponse
      (sees waiting_two)
      running
      request_bootstrap
      waiting
      (handle_action (sees waiting_two) running request_bootstrap waiting)
handle_action-answer_example =
    handle_action-answer (sees waiting_two) running request_bootstrap waiting
