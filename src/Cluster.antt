-- ===== src/Cluster.antt =====
-- pkg/cluster/cluster.go: the other nodes and the clients of them. The dial of a client always
-- succeeds, as the sources say, unless the argument `dialled` is false. In the source the clients
-- count in one metrics object; here each has its own gauges.
pub mod Runs
pub mod Membership
pub mod Nodes
pub mod Bootstrap
use fuddle.Rpc.{Member2, MonotonicTimestamp}
use fuddle.StringMap.{StringMap, lookup, insert, erase}
use fuddle.Metrics.{Runtime, Gauge, new_gauge, set}
use fuddle.Registry.State.{Registry}
use fuddle.Registry.Members.{owned_members, on_node_join, on_node_leave}
use fuddle.Client.{ReplicaClient, ReplicaClientMetrics, replica_connect, update, shut, sync}
use mathlib.Core.Option as Option
use fuddle.Prelude.{
  ℕ, zero, suc, ◌+◌, ◌%◌, String, Bool, true, false, Option, none, some, List, [], ◌∷◌, pos, length,
}

pub record Cluster : Type 0 where
  pub nodes : StringMap (Unit {0})
  pub clients : StringMap ReplicaClient
  pub registry : Registry
  pub nodes_count : Gauge
  pub client_metrics : ReplicaClientMetrics
  -- the clients that were closed, the latest first
  pub closed : List ReplicaClient

-- To bootstrap a node: its client is given the members that this node owns.
unfoldable pub send_all : ReplicaClient → List Member2 → ReplicaClient
send_all c [] = c
send_all c (m ∷ ms) = send_all (update c m) ms

unfoldable pub update_all : Member2 → StringMap ReplicaClient → StringMap ReplicaClient
update_all m [] = []
update_all m ((id, c) ∷ cs) = (id, update c m) ∷ update_all m cs

unfoldable pub on_update : Cluster → Member2 → Cluster
unfolding update_all
on_update c m = record c { clients = update_all m c.clients }

unfoldable pub close_client : Option ReplicaClient → List ReplicaClient → List ReplicaClient
close_client none closed = closed
close_client (some client) closed = shut client ∷ closed

-- `ids[i]`
unfoldable pub id_at : List String → ℕ → Option String
id_at [] i = none
id_at (id ∷ ids) zero = some id
id_at (id ∷ ids) (suc i) = id_at ids i

-- `randomClient`: `ids` is the order in which the keys are visited, and `rand` the result of
-- `rand.Int()`, which is not negative. The id comes with the client.
unfoldable pub client_of : Cluster → Option String → Option (String × ReplicaClient)
client_of c none = none
client_of c (some id) = Option.map (λ client. (id, client)) (lookup id c.clients)

unfoldable pub random_client :
    Cluster → (ids : List String) → (rand : ℕ) → Option (String × ReplicaClient)
unfolding id_at client_of
random_client c [] rand = none
random_client c (id ∷ ids) rand = client_of c (id_at (id ∷ ids) (rand % length (id ∷ ids)))

module _ (rt : Runtime) where
  unfoldable pub new_cluster : Registry → Cluster
  new_cluster registry = record {
    nodes = [];
    clients = [];
    registry = registry;
    nodes_count = set rt (pos 1) [] new_gauge;
    client_metrics = record {
      replica_updates_outbound = new_gauge;
      repair_updates_inbound = new_gauge;
    };
    closed = [];
  }

  -- `ReplicaRepair`: the arguments after `rand` are those of the client's `Sync`, its answer by the
  -- id of the node that is asked.
  unfoldable pub repair_with :
      Cluster
      → Option (String × ReplicaClient)
      → (order shuffled : List String)
      → (String → StringMap MonotonicTimestamp → Option (List Member2))
      → Cluster
  repair_with c none order shuffled rpc = c
  repair_with c (some (id, client)) order shuffled rpc =
      let (client', registry, ok) = sync rt client c.registry order shuffled (rpc id) in
      record c { clients = insert id client' c.clients; registry = registry }

  unfoldable pub replica_repair :
      Cluster
      → (ids : List String) → (rand : ℕ) → (order shuffled : List String)
      → (String → StringMap MonotonicTimestamp → Option (List Member2))
      → Cluster
  unfolding random_client repair_with
  replica_repair c ids rand order shuffled rpc =
      repair_with c (random_client c ids rand) order shuffled rpc

  unfoldable pub on_join : Cluster → (id : String) → (dialled : Bool) → Cluster
  unfolding send_all
  on_join c id false = c
  on_join c id true =
      let client = replica_connect id c.client_metrics [] in
      let nodes = insert id tt c.nodes in
      let registry = on_node_join c.registry id in
      record c {
        nodes = nodes;
        clients = insert id (send_all client (owned_members registry)) c.clients;
        nodes_count = set rt (pos (length nodes + 1)) [] c.nodes_count;
        registry = registry;
      }

  unfoldable pub on_leave : Cluster → (id : String) → (clock : ℕ) → Cluster
  unfolding close_client
  on_leave c id clock =
      let nodes = erase id c.nodes in
      record c {
        nodes = nodes;
        clients = erase id c.clients;
        closed = close_client (lookup id c.clients) c.closed;
        nodes_count = set rt (pos (length nodes + 1)) [] c.nodes_count;
        registry = on_node_leave c.registry id [] clock;
      }
