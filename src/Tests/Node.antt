-- ===== src/Tests/Node.antt =====
-- A node that another joins, and to which a member is added.
use fuddle.Rpc.{Member2}
use fuddle.StringMap.{lookup, insert, erase}
use fuddle.Registry.Options.{options_of, apply, apply_all}
use fuddle.Registry.Runs.{add_member, remote_update}
use fuddle.Registry.State.{
  outdated, new_registry, empty_registry, add_local_member, set_member_locked, next_version_locked,
  update_member_locked, update_member_at, notify_subscribers_locked,
}
use fuddle.Registry.Subscribe.{subscribe_local, add_sub}
use fuddle.Registry.Runs as Runs
use fuddle.Registry.Members as Members
use fuddle.Metrics.{new_gauge}
use fuddle.Client.{
  ReplicaClient, ReplicaClientMetrics, replica_connect, update, default_options,
  apply_all as apply_client,
}
use fuddle.Client.CatchUp.{IsCaughtUp}
use fuddle.Client.Pending.{new_pending_updates, push}
use mathlib.Core.List.{mem-cons_self, mem-cons_of_mem}
use fuddle.Cluster.{new_cluster, on_join, send_all}
use fuddle.Client.Pending.Window.{last, drop}
use fuddle.Registry.Members.{owned_members, owned_by, on_node_join}
use fuddle.Node.Bootstrapped.{on_join-IsReplicated}
use fuddle.Node.Network.{lost, unanswered, answered, arrives, send_to}
use fuddle.Node.Replicated.{add_member-IsReplicated}
use fuddle.Server.{ReplicaServer}
use native.Mathlib.Decide.{ℕ_discrete}
use fuddle.Cluster.Nodes.{IsConsistent, is_some}
use fuddle.Node.{
  Config, Node, Event, call, joined, left, detect, new_node, run, step, cluster_step, deliver,
  on_updates, updates_for, calls_since, first_calls, registry_options, own_member,
}
use fuddle.Node.Membership.{has_joined, run_node-IsConsistent}
use fuddle.Node.Delivered.{IsGiven, run_node-IsGiven}
use fuddle.Node.Queued.{added_entry}
use fuddle.Tests.Data.{registry, plain_runtime, state, stray, worker, node}
use fuddle.Prelude.{
  String, ◌≡◌, refl, false, true, some, List, [], ◌∷◌, int64, inl, ne_of_test, string_dec,
}

abbrev config : Config
config = record {
  node_id = "n1";
  heartbeat_timeout = int64 20000;
  reconnect_timeout = int64 300000;
  tombstone_timeout = int64 1800000;
}

abbrev events : List Event
events =
    joined "n2" true
    ∷ joined "n1" true
    ∷ call (add_member (state "m1") [] (int64 100))
    ∷ call (remote_update stray)
    ∷ left "n2" (int64 300)
    ∷ detect (("m1", int64 50000) ∷ ("m2", int64 50001) ∷ []) (int64 50000)
    ∷ []

abbrev start : Node
start = new_node plain_runtime config (int64 5) (int64 6)

run_node-IsConsistent_example :
    IsConsistent plain_runtime (run plain_runtime start events).cluster
    × ((id : String)
        → is_some (lookup id (run plain_runtime start events).cluster.clients)
          ≡ has_joined "n1" id false events)
    × (is_some (lookup "n1" (run plain_runtime start events).cluster.clients) ≡ false)
run_node-IsConsistent_example =
    run_node-IsConsistent plain_runtime config (int64 5) (int64 6) events

abbrev no_metrics : ReplicaClientMetrics
no_metrics = record {
  replica_updates_outbound = record { values = [] };
  repair_updates_inbound = record { values = [] };
}

-- The node that "n2" has joined, and its client.
abbrev joined_node : Node
joined_node = run plain_runtime start (joined "n2" true ∷ [])

abbrev client_of_n2 : ReplicaClient
client_of_n2 = send_all (replica_connect "n2" no_metrics []) (owned_members start.cluster.registry)

run_node-IsGiven_example :
    IsGiven "n2" client_of_n2 joined_node.cluster
      (step plain_runtime joined_node (call (add_member (state "m1") [] (int64 100)))).cluster
unfolding run step cluster_step deliver new_node new_cluster on_updates updates_for calls_since
    first_calls on_join on_node_join owned_members new_registry empty_registry add_local_member
    set_member_locked subscribe_local add_sub options_of apply_all apply registry_options own_member
    lookup insert erase next_version_locked string_dec Runs.step Members.add_member
    update_member_locked update_member_at notify_subscribers_locked new_gauge outdated
run_node-IsGiven_example =
    run_node-IsGiven plain_runtime config (int64 5) (int64 6) (joined "n2" true ∷ [])
      (add_member (state "m1") [] (int64 100)) "n2" client_of_n2 (inl refl) refl

-- The cluster watches its registry, and has a client of "n2".
abbrev watching : Node
watching = record {
  config = config;
  handle = 0;
  cluster = record {
    nodes = ("n2", tt) ∷ [];
    clients = ("n2", replica_connect "n2" no_metrics []) ∷ [];
    registry = record registry {
      subs = record { handle = 0; owner_only = true } ∷ [];
      next_handle = 1;
    };
    nodes_count = record { values = [] };
    client_metrics = no_metrics;
    closed = [];
  };
}

abbrev added : Member2
added = added_entry plain_runtime watching.cluster.registry (state "m3") (int64 400)

-- An update waits for "n2", and its RPC is lost; the answer of the next is.
abbrev waiting : ReplicaClient
waiting = update (replica_connect "n2" no_metrics []) stray

abbrev busy : Node
busy = record watching { cluster = record (watching.cluster) { clients = ("n2", waiting) ∷ [] } }

abbrev other : ReplicaServer
other = record {
  registry = new_registry plain_runtime "n2" [] (int64 7);
  replica_updates_inbound = record { values = [] };
  repair_updates_outbound = record { values = [] };
}

add_member-IsReplicated_example :
    let after = step plain_runtime busy (call (add_member (state "m3") [] (int64 400))) in
    let sent = send_to plain_runtime "n1" (update waiting added) other (lost ∷ unanswered ∷ []) in
    (lookup "m3" after.cluster.registry.members ≡ some added)
    × (lookup "n2" after.cluster.clients ≡ some (update waiting added))
    × (sent.0.pending.pending ≡ [])
    × IsCaughtUp (lookup "m3" sent.1.registry.members) added.version
unfolding lookup outdated string_dec options_of ℕ_discrete new_registry update replica_connect
    default_options apply_client new_pending_updates push arrives
add_member-IsReplicated_example =
    add_member-IsReplicated plain_runtime busy (state "m3") [] (int64 400) "n2" waiting other
      (lost ∷ []) unanswered (ne_of_test "m3" "n1" refl) refl refl refl refl refl refl
      (ne_of_test "m3" "n2" refl) (ne_of_test "n1" "n2" refl)

-- "n2" joins, and has the members "n1" and "m1" of this node sent.
on_join-IsReplicated_example :
    (client : ReplicaClient) × (lookup "n2"
        (on_join plain_runtime watching.cluster "n2" true).clients
      ≡ some client)
    × IsCaughtUp
        (lookup "m1"
          (send_to plain_runtime "n1" client other (answered ∷ unanswered ∷ [])).1.registry.members)
        worker.version
unfolding last drop owned_members owned_by string_dec new_registry arrives
on_join-IsReplicated_example =
    on_join-IsReplicated plain_runtime watching.cluster "n2" other (answered ∷ unanswered ∷ [])
      worker (refl, (refl, tt)) refl (mem-cons_of_mem node mem-cons_self)
      (ne_of_test "m1" "n2" refl) (ne_of_test "n1" "n2" refl)
