-- ===== src/Server.antt =====
-- pkg/registry/server: the RPCs that clients and other nodes call. Recv and Send are the network's:
-- a stream is the list of its messages, each with the clock's readings of the call that it makes.
use fuddle.Rpc.{MemberState, Member2, MonotonicTimestamp, SubscribeRequest}
use fuddle.StringMap.{StringMap}
use fuddle.Metrics.{Runtime, Gauge, new_gauge, inc, add}
use fuddle.Registry.State.{Registry}
use fuddle.Registry.Members.{
  add_member, member_heartbeat, remove_member, remote_update, member, members,
}
use fuddle.Registry.Subscribe.{subscribe, unsubscribe}
use fuddle.Registry.Repair.{delta}
use fuddle.Prelude.{ℕ, String, Option, some, List, [], ◌∷◌, length}

pub data ClientUpdateType : Type 0 where
  client_register client_unregister client_heartbeat : ClientUpdateType
  -- any other number that the wire carries
  client_other : ℕ → ClientUpdateType

pub record ClientUpdate : Type 0 where
  pub update_type : ClientUpdateType
  pub member : MemberState
  pub clock : ℕ
  pub clock' : ℕ

unfoldable pub client_update_type_to_string : ClientUpdateType → String
client_update_type_to_string client_register = "register"
client_update_type_to_string client_unregister = "unregister"
client_update_type_to_string client_heartbeat = "heartbeat"
client_update_type_to_string (client_other n) = "unknown"

-- A `ClientWriteServer` with the registry that it shares.
pub record WriteServer : Type 0 where
  pub registry : Registry
  pub inbound_updates : Gauge

-- A `ReplicaServer` with the registry that it shares.
pub record ReplicaServer : Type 0 where
  pub registry : Registry
  pub replica_updates_inbound : Gauge
  pub repair_updates_outbound : Gauge

-- A `ClientReadServer` with the registry that it shares.
pub record ReadServer : Type 0 where
  pub registry : Registry
  pub outbound_updates : Gauge

unfoldable pub new_client_write_server : Registry → WriteServer
unfolding new_gauge
new_client_write_server r = record { registry = r; inbound_updates = new_gauge }

unfoldable pub new_client_read_server : Registry → ReadServer
unfolding new_gauge
new_client_read_server r = record { registry = r; outbound_updates = new_gauge }

unfoldable pub new_replica_server : Registry → ReplicaServer
unfolding new_gauge
new_replica_server r = record {
  registry = r;
  replica_updates_inbound = new_gauge;
  repair_updates_outbound = new_gauge;
}

module _ (rt : Runtime) where
  count_inbound : WriteServer → ClientUpdateType → WriteServer
  unfolding client_update_type_to_string
  count_inbound s t = record s {
    inbound_updates =
        inc rt (record { label = "updatetype"; value = client_update_type_to_string t } ∷ [])
          s.inbound_updates;
  }

  -- The loop of `Register` for the member that the stream registered last; it ends with the stream,
  -- or when the member is unregistered.
  unfoldable pub register_loop : WriteServer → MemberState → List ClientUpdate → WriteServer
  unfolding count_inbound
  register_loop s member [] = s
  register_loop s member (m ∷ ms) =
      let counted = count_inbound s m.update_type in
      elim (m.update_type) [
        | client_register ↦
            register_loop
              (record counted { registry = add_member rt counted.registry m.member [] m.clock })
              m.member ms
        | client_heartbeat ↦
            register_loop
              (record counted {
                registry = member_heartbeat rt counted.registry member [] m.clock m.clock';
              })
              member ms
        | client_unregister ↦ record counted {
          registry = remove_member rt counted.registry member.id [] m.clock m.clock';
        }
        | client_other n ↦ register_loop counted member ms
      ]

  unfoldable pub register : WriteServer → List ClientUpdate → WriteServer
  unfolding register_loop count_inbound
  register s [] = s
  register s (m ∷ ms) = elim (m.update_type) [
    | client_register ↦
        let counted = count_inbound s m.update_type in
        register_loop
          (record counted { registry = add_member rt counted.registry m.member [] m.clock })
          m.member ms
    | client_heartbeat ↦ s
    | client_unregister ↦ s
    | client_other n ↦ s
  ]

  -- The callback of a stream's subscription: the updates of the registry's calls are counted and sent,
  -- the result of a send is left out.
  unfoldable pub send_updates : ReadServer → List Member2 → ReadServer × List Member2
  send_updates s [] = (s, [])
  send_updates s (u ∷ us) =
      let counted = record s { outbound_updates = inc rt [] s.outbound_updates } in
      let (t, sent) = send_updates counted us in (t, u ∷ sent)

  -- `ReplicaServer.Update`
  unfoldable pub replica_update :
      ReplicaServer → (source_node_id : String) → Member2 → ReplicaServer
  replica_update s source m = record s {
    replica_updates_inbound =
        inc rt (record { label = "source"; value = source } ∷ []) s.replica_updates_inbound;
    registry = remote_update rt s.registry m;
  }

  -- `ReplicaServer.Sync`: the new server and the members of the response.
  unfoldable pub replica_sync :
      ReplicaServer
      → (source_node_id : String) → StringMap MonotonicTimestamp
      → ReplicaServer × List Member2
  replica_sync s source digest =
      let (r, ms) = delta s.registry digest in
      (
        record s {
          repair_updates_outbound =
              add rt (length ms) (record { label = "target"; value = source } ∷ [])
                s.repair_updates_outbound;
          registry = r;
        },
        ms,
      )

-- `ClientReadServer.Member` and `Members`
unfoldable pub read_member : Registry → String → Option Member2
read_member r id = member r id

unfoldable pub read_members : Registry → List Member2
read_members r = members r

-- `ClientReadServer.Updates`: the subscription that the stream opens, and its end.
unfoldable pub open_updates : Registry → SubscribeRequest → Registry × ℕ
open_updates r req = subscribe r (some req)

unfoldable pub close_updates : Registry → ℕ → Registry
close_updates r handle = unsubscribe r handle
