-- ===== src/Tests/Serving.antt =====
-- The start of antsd, requests to its dashboard, and lookups of its discovery, at sample inputs.
use zero_config_ha_cluster.Common.{
  ◌≡◌, refl, true, false, [], ◌∷◌, some, contains, any, str_eq, if◌then◌else◌,
}
use zero_config_ha_cluster.Node.State.{State}
use zero_config_ha_cluster.Node.Persist.{missing}
use zero_config_ha_cluster.Discovery.{new_discoverer}
use zero_config_ha_cluster.Discovery.Peers.{advertises, AreDistinct}
use zero_config_ha_cluster.Discovery.Lookups.{
  Mdns, Discovering, poll_loop, start_discovery, all_entries, poll_loop-found,
}
use zero_config_ha_cluster.Admin.{running}
use zero_config_ha_cluster.Admin.Routes.{Views, post, serve_http}
use zero_config_ha_cluster.Admin.Answers.{IsAnswered, serve_http-answers}
use zero_config_ha_cluster.Entry.{Host}
use zero_config_ha_cluster.Serfnode.Library.{Snapshot}
use zero_config_ha_cluster.Tests.Data.{waiting_two, sees, manager_in}

-- The same peer in every lookup.
abbrev library : Mdns
library = record {
  service_made = true;
  server_starts = true;
  query = λ k name. (
    record { name = "b._antsd-antsd-cluster._tcp.local."; addr = some "10.0.0.2:7946" } ∷ [],
    true,
  );
}

abbrev discovering : Discovering
discovering = record { discoverer = new_discoverer "antsd-cluster"; advertises_node = true }

poll_loop-found_example :
    ((poll_loop library 2 0 discovering).advertises_node ≡ false)
    × AreDistinct (poll_loop library 2 0 discovering).discoverer.found
    × (contains (poll_loop library 2 0 discovering).discoverer.found "10.0.0.2:7946"
        ≡ any
            (advertises "antsd-cluster" "10.0.0.2:7946")
            (all_entries library "antsd-cluster" 2 0))
unfolding start_discovery
poll_loop-found_example = poll_loop-found library 2 "antsd-cluster" "10.0.0.2:7946" discovering refl

abbrev views : Views
views = record {
  encode = λ _. some "{}";
  render = λ _. ("<html>", true);
  clean_path = λ path. if str_eq path "//bootstrap" then "/bootstrap" else path;
  redirect_code = 301;
}

abbrev no_snapshot : Snapshot
no_snapshot = record { collected_at = 5; node_name = "a"; available = false; members = [] }

-- The first button, pressed too late.
serve_http-answers_example :
    IsAnswered views
      (sees waiting_two)
      running
      "/bootstrap"
      (manager_in "a" State.bootstrap_waiting)
      post
      (serve_http views
        (sees waiting_two)
        running
        no_snapshot
        1
        post
        "/bootstrap"
        (manager_in "a" State.bootstrap_waiting))
serve_http-answers_example =
    serve_http-answers views (sees waiting_two) running no_snapshot 1 post "/bootstrap"
      (manager_in "a" State.bootstrap_waiting)

abbrev ready_host : Host
ready_host = record {
  serf_starts = true;
  template_parses = true;
  listens = true;
  state_file = missing;
}
