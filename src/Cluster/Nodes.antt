-- ===== src/Cluster/Nodes.antt =====
-- What the cluster keeps: it has a client for each node, and the gauge counts the nodes and itself.
use mathlib.Core.Option.{some-injective}
use fuddle.Rpc.{Member2, MonotonicTimestamp}
use fuddle.StringMap.{StringMap, lookup, insert, erase, lookup-insert, lookup-erase}
use fuddle.Metrics.{Runtime, update_key, value_at, value_at-set, set, new_gauge}
use fuddle.Registry.State.{Registry}
use fuddle.Registry.Members.{on_node_join, owned_members}
use fuddle.Client.{ReplicaClient, update, sync, finish_sync, replica_connect}
use fuddle.Client.Pending.{push, new_pending_updates}
use fuddle.Cluster.{
  send_all, Cluster, update_all, on_update, on_join, on_leave, id_at, client_of, random_client,
  repair_with, replica_repair, new_cluster,
}
use fuddle.Cluster.Runs.{Event, join, leave, updated, repair, step, run}
use fuddle.Prelude.{
  ℕ, ◌+◌, ◌%◌, String, ◌≡◌, refl, sym, ap, subst, ◌∙◌, Bool, true, false, Option, none, some, List,
  [], ◌∷◌, pos, length, arith, string_dec, ite, Option-cases, inl, inr,
}

-- Is there an entry?
abbrev pub is_some {ℓ} : {A : Type ℓ} → Option A → Bool
is_some none = false
is_some (some a) = true

abbrev pub updated_client : Member2 → Option ReplicaClient → Option ReplicaClient
updated_client m none = none
updated_client m (some c) = some (update c m)

pub lookup-update_all :
    (m : Member2) (cs : StringMap ReplicaClient) (id : String)
    → lookup id (update_all m cs) ≡ updated_client m (lookup id cs)
unfolding update_all lookup
lookup-update_all m [] id = refl
lookup-update_all m ((j, c) ∷ cs) id = ground (arith, lookup-update_all m cs id)

is_some-update_all :
    (m : Member2) (cs : StringMap ReplicaClient) (id : String)
    → is_some (lookup id (update_all m cs)) ≡ is_some (lookup id cs)
is_some-update_all m cs id = ground (arith, lookup-update_all m cs id)

pub is_some-insert {ℓ} :
    {V : Type ℓ} (k j : String) (v : V) (m : StringMap V)
    → is_some (lookup j (insert k v m)) ≡ ite (string_dec k j) true (is_some (lookup j m))
is_some-insert k j v m = ground (arith, lookup-insert k j v m)

is_some-insert_present {ℓ} :
    {V : Type ℓ} (k j : String) (v w : V) (m : StringMap V)
    → lookup k m ≡ some w
    → is_some (lookup j (insert k v m)) ≡ is_some (lookup j m)
is_some-insert_present k j v w m e = ground (arith, lookup-insert k j v m)

-- The client is of the node `id`, and was not closed.
abbrev pub IsOpen : String → ReplicaClient → Type 0
IsOpen id c = (c.target_id ≡ id) × (c.pending.closed ≡ false)

abbrev pub AreOpen : StringMap ReplicaClient → Type 0
AreOpen cs = (id : String) (c : ReplicaClient) → lookup id cs ≡ some c → IsOpen id c

update-IsOpen :
    (id : String) (c : ReplicaClient) (m : Member2) → IsOpen id c → IsOpen id (update c m)
unfolding update push
update-IsOpen id c m h = ground arith

send_all-IsOpen :
    (id : String) (ms : List Member2) (c : ReplicaClient) → IsOpen id c → IsOpen id (send_all c ms)
unfolding send_all
send_all-IsOpen id [] c h = h
send_all-IsOpen id (m ∷ ms) c h = send_all-IsOpen id ms (update c m) (update-IsOpen id c m h)

update_all-AreOpen :
    (m : Member2) (cs : StringMap ReplicaClient) → AreOpen cs → AreOpen (update_all m cs)
unfolding update push
update_all-AreOpen m cs h id c e = elim (Option-cases (lookup id cs)) [
  | inl p ↦ absurd (ground (arith, lookup-update_all m cs id))
  | inr (d, p) ↦
      subst (IsOpen id)
        (some-injective _ _ (ap (updated_client m) (sym p) ∙ sym (lookup-update_all m cs id) ∙ e))
        (update-IsOpen id d m (h id d p))
]

insert-AreOpen :
    (id : String) (c : ReplicaClient) (cs : StringMap ReplicaClient)
    → IsOpen id c
    → AreOpen cs
    → AreOpen (insert id c cs)
insert-AreOpen id c cs o h j d e = ground (arith, h j d, lookup-insert id j c cs)

erase-AreOpen : (id : String) (cs : StringMap ReplicaClient) → AreOpen cs → AreOpen (erase id cs)
erase-AreOpen id cs h j d e = ground (arith, h j d, lookup-erase id j cs)

finish_sync-IsOpen :
    (rt : Runtime) (id : String) (c : ReplicaClient) (r : Registry) (o : Option (List Member2))
    → IsOpen id c
    → IsOpen id (finish_sync rt c r o).0
unfolding finish_sync
finish_sync-IsOpen rt id c r none h = h
finish_sync-IsOpen rt id c r (some ms) h = h

module _ (rt : Runtime) where
  pub record IsConsistent (c : Cluster) : Type 0 where
    pub clients : (id : String) → is_some (lookup id c.nodes) ≡ is_some (lookup id c.clients)
    pub opened : AreOpen c.clients
    pub counted : value_at (update_key rt []) c.nodes_count ≡ pos (length c.nodes + 1)

  pub new_cluster-IsConsistent : (r : Registry) → IsConsistent (new_cluster rt r)
  unfolding new_cluster set lookup insert erase new_gauge
  new_cluster-IsConsistent r = record {
    clients = λ id. refl;
    opened = λ id d e. absurd (ground arith);
    counted = ground arith;
  }

  pub join-IsConsistent :
      (c : Cluster) (id : String) (dialled : Bool)
      → IsConsistent c
      → IsConsistent (on_join rt c id dialled)
  unfolding on_join replica_connect new_pending_updates
  join-IsConsistent c id false h = h
  join-IsConsistent c id true h = record {
    clients = λ j.
        is_some-insert id j _ c.nodes
        ∙ ap (λ b. ite (string_dec id j) true b) (h.clients j)
        ∙ sym (is_some-insert id j _ c.clients);
    opened =
        insert-AreOpen id _ c.clients
          (send_all-IsOpen id (owned_members (on_node_join c.registry id))
            (replica_connect id c.client_metrics []) (refl, refl))
          h.opened;
    counted = value_at-set rt _ [] c.nodes_count;
  }

  pub leave-IsConsistent :
      (c : Cluster) (id : String) (clock : ℕ)
      → IsConsistent c
      → IsConsistent (on_leave rt c id clock)
  unfolding on_leave
  leave-IsConsistent c id clock h = record {
    clients =
        λ j. ground (arith, h.clients j, lookup-erase id j c.nodes, lookup-erase id j c.clients);
    opened = erase-AreOpen id c.clients h.opened;
    counted = value_at-set rt _ [] c.nodes_count;
  }

  pub updated-IsConsistent :
      (c : Cluster) (m : Member2) → IsConsistent c → IsConsistent (on_update c m)
  unfolding on_update
  updated-IsConsistent c m h = record {
    clients = λ j. h.clients j ∙ sym (is_some-update_all m c.clients j);
    opened = update_all-AreOpen m c.clients h.opened;
    counted = h.counted;
  }

  repair_with-nodes :
      (c : Cluster) (o : Option (String × ReplicaClient)) (order shuffled : List String) (rpc : _)
      → (repair_with rt c o order shuffled rpc).nodes ≡ c.nodes
  unfolding repair_with
  repair_with-nodes c none order shuffled rpc = refl
  repair_with-nodes c (some (id, client)) order shuffled rpc = refl

  pub replica_repair-nodes :
      (c : Cluster) (ids : List String) (rand : ℕ) (order shuffled : List String) (rpc : _)
      → (replica_repair rt c ids rand order shuffled rpc).nodes ≡ c.nodes
  unfolding replica_repair
  replica_repair-nodes c ids rand order shuffled rpc =
      repair_with-nodes c (random_client c ids rand) order shuffled rpc

  repair_with-IsConsistent :
      (c : Cluster) (o : Option String) (order shuffled : List String)
      (rpc : String → StringMap MonotonicTimestamp → Option (List Member2))
      → IsConsistent c
      → IsConsistent (repair_with rt c (client_of c o) order shuffled rpc)
  unfolding repair_with client_of sync
  repair_with-IsConsistent c none order shuffled rpc h = h
  repair_with-IsConsistent c (some id) order shuffled rpc h =
      elim (Option-cases (lookup id c.clients)) [
        | inl e ↦ rw (e, repair_with) h
        | inr (client, e) ↦
            rw (e, repair_with)
              (record {
                clients = λ j. h.clients j ∙ sym (is_some-insert_present id j _ client c.clients e);
                opened =
                    insert-AreOpen id _ c.clients
                      (finish_sync-IsOpen rt id client _ _ (h.opened id client e)) h.opened;
                counted = h.counted;
              })
      ]

  pub repair-IsConsistent :
      (c : Cluster) (ids : List String) (rand : ℕ) (order shuffled : List String)
      (rpc : String → StringMap MonotonicTimestamp → Option (List Member2))
      → IsConsistent c
      → IsConsistent (replica_repair rt c ids rand order shuffled rpc)
  unfolding replica_repair random_client
  repair-IsConsistent c [] rand order shuffled rpc h =
      repair_with-IsConsistent c none order shuffled rpc h
  repair-IsConsistent c (id ∷ ids) rand order shuffled rpc h =
      repair_with-IsConsistent c (id_at (id ∷ ids) (rand % length (id ∷ ids))) order shuffled rpc h

  pub events-IsConsistent :
      (es : List Event) (c : Cluster) → IsConsistent c → IsConsistent (run rt c es)
  unfolding run step
  events-IsConsistent [] c h = h
  events-IsConsistent (join id dialled ∷ es) c h =
      events-IsConsistent es _ (join-IsConsistent c id dialled h)
  events-IsConsistent (leave id clock ∷ es) c h =
      events-IsConsistent es _ (leave-IsConsistent c id clock h)
  events-IsConsistent (updated m ∷ es) c h = events-IsConsistent es _ (updated-IsConsistent c m h)
  events-IsConsistent (repair ids rand order shuffled rpc ∷ es) c h =
      events-IsConsistent es _ (repair-IsConsistent c ids rand order shuffled rpc h)
