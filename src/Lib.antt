-- ===== src/Lib.antt =====
-- Verification of antsd, the daemon that turns a set of machines into a highly available K3s cluster
-- (antsd/internal).
--
-- Every machine runs one daemon. A run loop (cluster/manager.go) owns the state of the node and takes
-- one input at a time: Serf membership changes and user events, actions of a user, expired timers,
-- and the results of the K3s operations that it started in the background. Each handler reads a
-- snapshot of the Serf membership (cluster/view.go), moves the node through its lifecycle
-- (node/state.go), publishes the new state as a Serf tag (serfnode/serfnode.go), and may start an
-- operation, send an event or arm a timer.
--
-- The files, by the part of the program that they model:
--   Common                names of the libraries, tests on numbers, lists with native lengths, texts,
--                         their characters, sorting by a name, signed integers, files by their paths
--   Config/NodeName       config/nodename.go; Config/Pattern has the meaning of its regular expression,
--                         Config/Derived what the derived name is
--   Config/Settings       config/config.go; Config/Printing has what it prints, Config/Precedence where
--                         each parameter comes from, Config/Loading what Load and its validation promise
--   Node/State, Tag       node/state.go: the states, their tags, and tags read back
--   Node/Role             node/role.go: the number of servers, ranks and roles
--   Node/Election         what the ranks elect; Node/Sorting has the lemmas on the sort
--   Node/Persist, Saving  node/persist.go: the state that survives a reboot, and how it is written
--   Cluster/View          cluster/view.go: the queries; View/Selection, Coordinator and Counts have
--                         what they find and count
--   Cluster/Failures      the failure clock of cluster/rescale.go and view.go
--   Cluster/Manager       cluster/manager.go: the state of the orchestrator and its shared steps
--   Cluster/Rejoin        cluster/rejoin.go, and the choice of the first state
--   Cluster/Joining       cluster/joining.go, and the joiner's side of cluster/forget.go
--   Cluster/Bootstrap     cluster/bootstrap.go
--   Cluster/Rescale, Rounds   cluster/rescale.go: detection; orders, results and conversions
--   Cluster/Forgetting    cluster/forget.go, the server's side
--   Cluster/Loop          the dispatch of cluster/manager.go
--   Cluster/Invariant     what holds between two turns of the run loop; Invariant/Reach has the turns,
--                         Invariant/Published the tag that the others read where SetState may fail
--   Cluster/Safety        what the workflows promise
--   Cluster/Keeping       what no handler undoes: the operations in flight, and that a machine does not
--                         found a cluster, join one or change its role by itself
--   Cluster/Running       the run loop of cluster/manager.go with its channels; Running/Turns and
--                         Refinement have how it does the turns of Invariant/Reach,
--                         Running/Consistency what the others may rely on
--   Cluster/System        several machines that take turns on one bootstrap; System/Fits, Handlers and
--                         Local have what a turn does, System/Order what holds of all machines
--                         together, System/Observation, Machine, Placement and Completion how the
--                         bootstrap ends; System/Signals has the user events between the machines,
--                         System/Asking and Causes what must have been sent before a machine acts
--   Serfnode              serfnode/serfnode.go: the tags of a node and its snapshot; Serfnode/Events the
--                         conversion of events, Serfnode/Library the operations on the Serf library,
--                         Serfnode/Delivery and Guarantees what both promise
--   K3s                   k3s/installer.go and control_plane.go: the interfaces
--   K3s/Operations        what the background operations of cluster/ do over those interfaces
--   K3s/Fake, Exec        k3s/fake.go, and the roles and conversions of k3s/exec.go; K3s/Guarantees has
--                         what all of these promise
--   K3s/Staging           k3s/exec.go: the files of an offline installation; K3s/Assets and Restoring
--                         have what is there afterwards
--   K3s/Waiting, Commands k3s/exec.go and control_plane.go: the polling loop, and the command lines
--   LogBridge             logbridge/logbridge.go; LogBridge/Lines has what becomes of a line
--   Discovery             discovery/mdns.go; Discovery/Peers has which peers are reported,
--                         Discovery/Lookups the start and the lookups
--   Admin                 admin/server.go; Admin/Actions has what is shown and answered, Admin/Routes
--                         the routes and their handlers, Admin/Answers how every request is answered
--   Entry                 main of antsd/cmd/antsd, New and Run of cluster/manager.go up to the loop;
--                         Entry/Starting has when the loop is reached
--   Tests                 concrete machines, memberships and runs
--
-- The correspondence. A method of `Manager` is a function from record to record, under its Go name in
-- snake case. What the method does to the outside is added to the list `effects`, newest first, and a
-- goroutine of `startK3sOperation` whose result has not been taken is in the list `operations`, as the
-- values that its closure captures. What the outside answers is `Env`: the membership, the time and
-- the outcome of sending may depend on all effects so far. Theorems hold for every `Env`. A map is an
-- association list, a time is a number of nanoseconds with 0 for Go's zero time, and a rank is a
-- natural number or no rank.
--
-- An operation is in two parts: the manager sees it start, as a value of `Operation`, and end, as a
-- success or a failure in a later turn; `run_operation` gives what each value runs, over any
-- `Installer` and `ControlPlane`, whose methods take a world to the next one.
--
-- A run is a member of `Reach`: a boot from any state file, then turns in any order, with any inputs.
-- Two things are assumed of inputs (`Respects`): no confirmation that names this very node comes while
-- the check that precedes its first request is still under way (those for other nodes may come at any
-- time), and the names that lookups are about are not empty, as Serf requires. Safety/Races has what
-- happens without the first. An effect `set_state` is a call of SetState, whose error is only logged;
-- which calls fail, and whether one that fails has changed the tag, is given (Invariant/Published).
--
-- A daemon (Cluster/Running) is a manager with the channel of Serf events, of 64 places, and the queue
-- of commands, of 16. Serf, the admin server, the timers and the goroutines put theirs in at any moment,
-- a goroutine waits while the queue is full, and the run loop takes from either. A timer may have fired
-- before it was stopped, so any expiry may still come. Of the inputs it takes, the same is assumed as
-- of those of `Reach`.
--
-- A system (Cluster/System) is a list of managers, the place of each being its rank. A step of a `Run`
-- is a turn of one of them, with any input but an order of the rescaling workflow, which is turned off
-- (it is on by default), or with the result of one of its operations in flight.
-- An observation may lag behind, but shows no stable server that is not there, as a server publishes
-- its tag once it is stable and does not leave during a bootstrap; on the start signal, a machine
-- reads its place as its rank, and all machines as alive. A site (System/Signals) is any number of
-- machines that boot and go; a user event is received only if some machine has sent it, as late, as
-- often and in whatever order Serf delivers it.
--
-- The polling loop of k3s/exec.go has no bound in the source and runs on fuel here; any fuel above the
-- number of the attempt that ends it is enough. All other recursion is structural.
--
-- What the standard library decides about texts is given where it is a parser (numbers, durations, IP
-- addresses, JSON) and written out where it is a test on characters (case, white space, the pattern of
-- a node name). Files are contents by their paths, and every call of the file system may fail.
-- A path of the HTTP server is compared with the clean one that the library finds.
--
-- Not modelled: logging, but for the bridge; the scheduling of goroutines, whose interleavings are the
-- orders of the steps; the Serf and mDNS libraries, the HTTP library but for its patterns, the JSON
-- encoder and the template engine, the scripts of K3s, kubectl and systemd, which are given or left
-- out; the modes of files; the timeouts and the shutdown of the HTTP server; what Serf and K3s still
-- hold of an earlier run of a machine, but for the state file.
pub mod Common
pub mod Config
pub mod Node
pub mod Cluster
pub mod Serfnode
pub mod K3s
pub mod LogBridge
pub mod Discovery
pub mod Admin
pub mod Entry
pub mod Tests
