-- ===== src/Node/Forwarding.antt =====
-- The calls of OnUpdate that the registry of a node makes (pkg/node/node.go).
use fuddle.Rpc.{Member2, MonotonicTimestamp}
use fuddle.StringMap.{StringMap, lookup, insert, erase}
use fuddle.Metrics.{Runtime}
use fuddle.Registry.Options.{options_of, apply_all, apply}
use fuddle.Registry.State.{
  Registry, new_registry, empty_registry, add_local_member, set_member_locked, next_version_locked,
}
use fuddle.Registry.Members.{remote_update}
use fuddle.Registry.Subscribe.{subscribe_local, add_sub}
use fuddle.Registry.Repair
use fuddle.Registry.Runs as Runs
use fuddle.Registry.Runs.{
  Op, remote_update as remote, digest, on_node_join as join, on_node_leave as leave,
  update_liveness,
}
use fuddle.Registry.Forwarding.{IsForwarded, run-IsForwarded}
use fuddle.Client.{ReplicaClient, sync, finish_sync, apply_updates}
use fuddle.Cluster.{
  Cluster, new_cluster, on_join, on_leave, on_update, random_client, repair_with, replica_repair,
}
use fuddle.Node.{
  Config, Node, Event, call, joined, left, detect, repair, registry_options, own_member, deliver,
  on_updates, updates_for, calls_since, new_node, cluster_step, step, run,
}
use fuddle.Prelude.{
  ℕ, String, ◌≡◌, refl, sym, subst, Bool, true, false, Option, none, some, List, [], ◌∷◌, arith,
  string_dec, ite_intro,
}

on_updates-registry : (c : Cluster) (ms : List Member2) → (on_updates c ms).registry ≡ c.registry
unfolding on_updates on_update
on_updates-registry c [] = refl
on_updates-registry c (m ∷ ms) = on_updates-registry (on_update c m) ms

pub deliver-registry :
    (handle : ℕ) (before after : Cluster) → (deliver handle before after).registry ≡ after.registry
unfolding deliver
deliver-registry handle before after =
    on_updates-registry after
      (updates_for handle (calls_since before.registry.calls after.registry.calls))

module _ (rt : Runtime) (handle : ℕ) where
  step-IsForwarded :
      (r : Registry) (op : Op) → IsForwarded handle r → IsForwarded handle (Runs.step rt r op)
  unfolding Runs.run
  step-IsForwarded r op h = run-IsForwarded rt handle r (op ∷ []) h

  updates-IsForwarded :
      (ms : List Member2) (r : Registry)
      → IsForwarded handle r
      → IsForwarded handle (apply_updates rt r ms)
  unfolding apply_updates Runs.step
  updates-IsForwarded [] r h = h
  updates-IsForwarded (m ∷ ms) r h =
      updates-IsForwarded ms (remote_update rt r m) (step-IsForwarded r (remote m) h)

  finish_sync-IsForwarded :
      (c : ReplicaClient) (r : Registry) (o : Option (List Member2))
      → IsForwarded handle r
      → IsForwarded handle (finish_sync rt c r o).1
  unfolding finish_sync
  finish_sync-IsForwarded c r none h = h
  finish_sync-IsForwarded c r (some ms) h = updates-IsForwarded ms r h

  sync-IsForwarded :
      (c : ReplicaClient) (r : Registry) (order shuffled : List String)
      (rpc : StringMap MonotonicTimestamp → Option (List Member2))
      → IsForwarded handle r
      → IsForwarded handle (sync rt c r order shuffled rpc).1
  unfolding sync Runs.step
  sync-IsForwarded c r order shuffled rpc h =
      finish_sync-IsForwarded c _ (rpc (Repair.digest r order shuffled c.digest_limit).1)
        (step-IsForwarded r (digest order shuffled c.digest_limit) h)

  repair_with-IsForwarded :
      (c : Cluster) (o : Option (String × ReplicaClient)) (order shuffled : List String)
      (rpc : String → StringMap MonotonicTimestamp → Option (List Member2))
      → IsForwarded handle c.registry
      → IsForwarded handle (repair_with rt c o order shuffled rpc).registry
  unfolding repair_with
  repair_with-IsForwarded c none order shuffled rpc h = h
  repair_with-IsForwarded c (some (id, client)) order shuffled rpc h =
      sync-IsForwarded client c.registry order shuffled (rpc id) h

  join-IsForwarded :
      (c : Cluster) (id : String) (dialled : Bool)
      → IsForwarded handle c.registry
      → IsForwarded handle (on_join rt c id dialled).registry
  unfolding on_join Runs.step
  join-IsForwarded c id false h = h
  join-IsForwarded c id true h = step-IsForwarded c.registry (join id) h

  cluster_step-IsForwarded :
      (node_id : String) (c : Cluster) (e : Event)
      → IsForwarded handle c.registry
      → IsForwarded handle (cluster_step rt node_id c e).registry
  unfolding cluster_step on_leave replica_repair Runs.step
  cluster_step-IsForwarded node_id c (call op) h = step-IsForwarded c.registry op h
  cluster_step-IsForwarded node_id c (joined id dialled) h =
      ite_intro (λ (c' : Cluster). IsForwarded handle c'.registry) (string_dec id node_id) (λ _. h)
        (λ _. join-IsForwarded c id dialled h)
  cluster_step-IsForwarded node_id c (left id clock) h =
      ite_intro (λ (c' : Cluster). IsForwarded handle c'.registry) (string_dec id node_id) (λ _. h)
        (λ _. step-IsForwarded c.registry (leave id [] clock) h)
  cluster_step-IsForwarded node_id c (detect visits timestamp) h =
      step-IsForwarded c.registry (update_liveness visits timestamp) h
  cluster_step-IsForwarded node_id c (repair ids rand order shuffled rpc) h =
      repair_with-IsForwarded c (random_client c ids rand) order shuffled rpc h

module _ (rt : Runtime) where
  events-IsForwarded :
      (es : List Event) (n : Node)
      → IsForwarded n.handle n.cluster.registry
      → IsForwarded n.handle (run rt n es).cluster.registry
  unfolding run step
  events-IsForwarded [] n h = h
  events-IsForwarded (e ∷ es) n h = events-IsForwarded es (step rt n e) (
      subst (IsForwarded n.handle)
        (sym (deliver-registry n.handle n.cluster (cluster_step rt n.config.node_id n.cluster e)))
        (cluster_step-IsForwarded rt n.handle n.config.node_id n.cluster e h))

  -- The registry of a new node has the entry of the node alone.
  new_node-IsForwarded :
      (config : Config) (started clock : ℕ)
      → let n = new_node rt config started clock in IsForwarded n.handle n.cluster.registry
  unfolding new_node new_cluster new_registry empty_registry add_local_member set_member_locked
      subscribe_local add_sub options_of apply_all apply registry_options own_member lookup insert
      erase next_version_locked
  new_node-IsForwarded config started clock = record {
    allocated = omega arith;
    forwarded = λ sub id e found owned other. absurd (ground arith);
  }

  -- After any events since the node was made, as long as the node's subscription stands, the registry
  -- has called it with the entry of every member that the node owns but its own.
  pub run_node-IsForwarded :
      (config : Config) (started clock : ℕ) (es : List Event)
      → let n = new_node rt config started clock in
        IsForwarded n.handle (run rt n es).cluster.registry
  run_node-IsForwarded config started clock es =
      events-IsForwarded es (new_node rt config started clock)
        (new_node-IsForwarded config started clock)
