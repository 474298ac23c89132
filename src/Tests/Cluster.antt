-- ===== src/Tests/Cluster.antt =====
-- A sync between two nodes, and a small cluster.
use fuddle.Rpc.{up, Member2}
use fuddle.StringMap.{lookup, insert, erase}
use fuddle.Registry.State.{Registry}
use fuddle.Registry.Repair.{
  digest, delta, timestamp_of, digest_priority, digest_rest, digest_members,
}
use fuddle.Client.{ReplicaClient, replica_connect, sync, default_options, apply_all}
use fuddle.Client.CatchUp.{IsCaughtUp, sync-IsCaughtUp}
use fuddle.Cluster.Runs.{Event, join, leave, updated, repair, run}
use fuddle.Cluster.Nodes.{IsConsistent, is_some}
use fuddle.Cluster.Membership.{has_joined, run-IsConsistent}
use fuddle.Cluster.{Cluster, new_cluster, on_join}
use fuddle.Cluster.Bootstrap.{on_join-IsSentInOrder}
use fuddle.Client.{send_loop}
use fuddle.Client.Sending.{IsSentInOrder}
use fuddle.Client.Pending.Window.{last}
use fuddle.Registry.Members.{owned_members}
use fuddle.Tests.Data.{plain_runtime, registry, entry, version, n2-ne-n1}
use fuddle.Prelude.{
  String, ◌≡◌, true, false, List, refl, inl, some, [], ◌∷◌, int64, ne_of_test, string_dec, arith,
}

abbrev newer : Member2
newer = entry "m2" up (version "n2" 900 0) 0

-- The node "n2" has a later version of its member.
abbrev sender : Registry
sender = record registry { local_id = "n2"; members = ("m2", newer) ∷ [] }

abbrev client : ReplicaClient
client =
    replica_connect "n2"
      (record {
        replica_updates_outbound = record { values = [] };
        repair_updates_inbound = record { values = [] };
      })
      []

sync-IsCaughtUp_example :
    IsCaughtUp
      (lookup "m2"
        (sync plain_runtime client registry []
          ("m2" ∷ "n1" ∷ [])
          (λ d. some (delta sender d).1)).1.members)
      newer.version
unfolding lookup digest digest_priority digest_rest digest_members timestamp_of insert erase
    replica_connect default_options apply_all string_dec
sync-IsCaughtUp_example =
    sync-IsCaughtUp plain_runtime client registry sender [] ("m2" ∷ "n1" ∷ []) "m2" newer refl refl
      (λ p. cc p) (inl (omega arith)) (ne_of_test "m2" "n1" refl) n2-ne-n1

abbrev events : List Event
events =
    join "n2" true
    ∷ join "n3" false
    ∷ join "n4" true
    ∷ updated newer
    ∷ repair ("n4" ∷ "n2" ∷ []) 3 [] ("m2" ∷ []) (λ id d. some (delta sender d).1)
    ∷ leave "n4" (int64 400)
    ∷ []

run-IsConsistent_example :
    let c = run plain_runtime (new_cluster plain_runtime registry) events in
    IsConsistent plain_runtime c
    × ((id : String) → is_some (lookup id c.clients) ≡ has_joined id false events)
run-IsConsistent_example = run-IsConsistent plain_runtime registry events

abbrev alone : Cluster
alone = new_cluster plain_runtime registry

on_join-IsSentInOrder_example :
    (c : ReplicaClient) × (lookup "n2" (on_join plain_runtime alone "n2" true).clients ≡ some c)
    × IsSentInOrder
        (last 129 (owned_members alone.registry))
        (true ∷ false ∷ [])
        (send_loop plain_runtime c (true ∷ false ∷ []))
on_join-IsSentInOrder_example = on_join-IsSentInOrder plain_runtime alone "n2" (true ∷ false ∷ [])
