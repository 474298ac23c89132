-- ===== src/Cluster/Bootstrap.antt =====
-- What OnJoin queues for a node that joins, and how the client's send loop sends it.
use fuddle.Rpc.{Member2}
use fuddle.StringMap.{lookup, lookup-insert}
use fuddle.Metrics.{Runtime}
use fuddle.Registry.Members.{owned_members, on_node_join}
use fuddle.Client.{
  ReplicaClient, ReplicaClientMetrics, replica_connect, update, send_loop, apply_all,
  default_options,
}
use fuddle.Client.Pending.Window.{push_all, IsWindow, last, push_all-new_pending_updates}
use fuddle.Client.Sending.{IsSentInOrder, send_loop-IsSentInOrder}
use fuddle.Cluster.{Cluster, send_all, on_join}
use fuddle.Prelude.{String, ◌≡◌, refl, sym, subst, Bool, true, some, List, [], ◌∷◌, arith}

send_all-pending :
    (c : ReplicaClient) (ms : List Member2) → (send_all c ms).pending ≡ push_all (c.pending) ms
unfolding send_all push_all update
send_all-pending c [] = refl
send_all-pending c (m ∷ ms) = send_all-pending (update c m) ms

bootstrap-IsWindow :
    (id : String) (g : ReplicaClientMetrics) (ms : List Member2)
    → IsWindow 128 ms (send_all (replica_connect id g []) ms).pending
unfolding replica_connect apply_all default_options
bootstrap-IsWindow id g ms =
    subst (IsWindow 128 ms) (sym (send_all-pending (replica_connect id g []) ms))
      (push_all-new_pending_updates 128 ms)

-- OnJoin leaves a client of the node whose send loop, if it starts then, sends the last 129 of
-- the members that this node owns, in the order of OwnedMembers, one for each RPC, whether the
-- RPC fails or not, until none waits.
pub on_join-IsSentInOrder :
    (rt : Runtime) (c : Cluster) (id : String) (oks : List Bool)
    → (client : ReplicaClient) × (lookup id (on_join rt c id true).clients ≡ some client)
      × IsSentInOrder (last 129 (owned_members c.registry)) oks (send_loop rt client oks)
unfolding on_join on_node_join owned_members
on_join-IsSentInOrder rt c id oks =
    let client = send_all (replica_connect id c.client_metrics []) (owned_members c.registry) in
    let w = bootstrap-IsWindow id c.client_metrics (owned_members c.registry) in
    (
      client,
      ground (arith, lookup-insert id id client c.clients),
      send_loop-IsSentInOrder rt oks client _ w.open_still w.window,
    )
