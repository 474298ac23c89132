-- ===== src/Node.antt =====
-- pkg/node/node.go: a node is a cluster over a registry, which the cluster subscribes to. Gossip tells
-- of nodes that join and leave, two timers run the failure detector and the repair, and the servers
-- make the other calls of the registry. The options are those of NewNode without the listeners.
pub mod Consistent
pub mod Delivered
pub mod Membership
pub mod Forwarding
pub mod Queued
pub mod Network
pub mod Replicated
pub mod Bootstrapped
pub mod Start
pub mod Released
pub mod Abandoned
pub mod Wired
use fuddle.Rpc.{Member2, MemberState, MonotonicTimestamp}
use fuddle.StringMap.{StringMap}
use fuddle.Metrics.{Runtime}
use fuddle.Registry.Options.{
  Opt, with_local_member, with_heartbeat_timeout, with_reconnect_timeout, with_tombstone_timeout,
}
use fuddle.Registry.State.{Registry, Call, new_registry}
use fuddle.Registry.Subscribe.{subscribe_local}
use fuddle.Registry.Runs.{Op, step as registry_step, update_liveness}
use fuddle.Cluster.{Cluster, new_cluster, on_join, on_leave, on_update, replica_repair}
use native.Mathlib.Decide.{ℕ_discrete}
use fuddle.Prelude.{
  ℕ, zero, suc, ◌-◌, String, Bool, Option, none, some, List, [], ◌∷◌, ◌++◌, ite, string_dec, length,
}

-- The fields of the configuration that the registry reads, the timeouts in milliseconds.
pub record Config : Type 0 where
  pub node_id : String
  pub heartbeat_timeout : ℕ
  pub reconnect_timeout : ℕ
  pub tombstone_timeout : ℕ

pub record Node : Type 0 where
  pub config : Config
  pub cluster : Cluster
  -- the subscription by which the cluster hears of updates
  pub handle : ℕ

-- The member that stands for the node itself.
unfoldable pub own_member : Config → (started : ℕ) → MemberState
own_member config started = record {
  id = config.node_id;
  status = "active";
  service = "fuddle";
  locality = record { region = ""; availability_zone = "" };
  started = started;
  revision = "unknown";
  metadata = [];
}

unfoldable pub registry_options : Config → (started : ℕ) → List Opt
unfolding own_member
registry_options config started =
    with_local_member (own_member config started)
    ∷ with_heartbeat_timeout config.heartbeat_timeout
    ∷ with_reconnect_timeout config.reconnect_timeout
    ∷ with_tombstone_timeout config.tombstone_timeout
    ∷ []

-- What a node does after it was made.
pub data Event : Type 0 where
  -- a call of the registry by a server
  call : Op → Event
  -- the callbacks of gossip
  joined : (id : String) → (dialled : Bool) → Event
  left : (id : String) → (clock : ℕ) → Event
  -- the ticks of `failureDetector` and `replicaRepair`
  detect : List (String × ℕ) → (timestamp : ℕ) → Event
  repair :
      (ids : List String)
      → (rand : ℕ) → (order shuffled : List String)
      → (String → StringMap MonotonicTimestamp → Option (List Member2))
      → Event

-- The updates of the calls of one subscription, the earliest first.
unfoldable pub updates_for : ℕ → List Call → List Member2
updates_for handle [] = []
updates_for handle (c ∷ calls) =
    let rest = updates_for handle calls in
    ite (ℕ_discrete c.handle handle) (rest ++ c.update ∷ []) rest

-- The calls that the registry has made beyond a number of them.
unfoldable pub first_calls : ℕ → List Call → List Call
first_calls zero calls = []
first_calls (suc n) [] = []
first_calls (suc n) (c ∷ calls) = c ∷ first_calls n calls

unfoldable pub calls_since : List Call → List Call → List Call
unfolding first_calls
calls_since before calls = first_calls (length calls - length before) calls

-- The subscription's function is `c.OnUpdate`.
unfoldable pub on_updates : Cluster → List Member2 → Cluster
on_updates c [] = c
on_updates c (m ∷ ms) = on_updates (on_update c m) ms

-- An event changes the cluster or its registry; the calls that the registry made meanwhile are those
-- of `OnUpdate`, which change the clients alone.
unfoldable pub deliver : (handle : ℕ) → (before after : Cluster) → Cluster
unfolding updates_for calls_since on_updates
deliver handle before after =
    on_updates after (updates_for handle (calls_since before.registry.calls after.registry.calls))

module _ (rt : Runtime) where
  unfoldable pub new_node : Config → (started clock : ℕ) → Node
  unfolding registry_options
  new_node config started clock =
      let r = new_registry rt config.node_id (registry_options config started) clock in
      let (r', handle) = subscribe_local r in
      record { config = config; cluster = new_cluster rt r'; handle = handle }

  unfoldable pub cluster_step : String → Cluster → Event → Cluster
  cluster_step node_id c (call op) = record c { registry = registry_step rt c.registry op }
  cluster_step node_id c (joined id dialled) =
      ite (string_dec id node_id) c (on_join rt c id dialled)
  cluster_step node_id c (left id clock) = ite (string_dec id node_id) c (on_leave rt c id clock)
  cluster_step node_id c (detect visits timestamp) = record c {
    registry = registry_step rt c.registry (update_liveness visits timestamp);
  }
  cluster_step node_id c (repair ids rand order shuffled rpc) =
      replica_repair rt c ids rand order shuffled rpc

  unfoldable pub step : Node → Event → Node
  unfolding cluster_step deliver
  step n e = record n {
    cluster = deliver n.handle n.cluster (cluster_step n.config.node_id n.cluster e);
  }

  unfoldable pub run : Node → List Event → Node
  unfolding step
  run n [] = n
  run n (e ∷ es) = run (step n e) es
