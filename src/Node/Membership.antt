-- ===== src/Node/Membership.antt =====
-- Which nodes a node has in its cluster (pkg/node/node.go, OnJoin and OnLeave), by what gossip says.
use fuddle.Rpc.{Member2}
use fuddle.StringMap.{lookup}
use fuddle.Metrics.{Runtime}
use fuddle.Cluster.{Cluster, on_update, new_cluster}
use fuddle.Cluster.Nodes.{IsConsistent, is_some, replica_repair-nodes}
use fuddle.Cluster.Membership.{after_join, after_leave, join-nodes, leave-nodes}
use fuddle.Node.{
  Config, Node, Event, call, joined, left, detect, repair, deliver, on_updates, updates_for,
  calls_since, new_node, cluster_step, step, run,
}
use fuddle.Node.Consistent.{new_node-IsSound, events-IsSound}
use fuddle.Prelude.{
  ℕ, String, ◌≡◌, refl, sym, ap, ◌∙◌, Bool, false, List, [], ◌∷◌, arith, string_dec, ite,
}

-- Whether the node `id` is in the cluster after an event of the node `node_id`, by whether it was
-- before: gossip's callbacks about the node itself do nothing.
abbrev pub after_event : String → String → Bool → Event → Bool
after_event node_id id was (call op) = was
after_event node_id id was (joined other dialled) =
    ite (string_dec other node_id) was (after_join id was other dialled)
after_event node_id id was (left other clock) =
    ite (string_dec other node_id) was (after_leave id was other)
after_event node_id id was (detect visits timestamp) = was
after_event node_id id was (repair ids rand order shuffled rpc) = was

abbrev pub has_joined : String → String → Bool → List Event → Bool
has_joined node_id id was [] = was
has_joined node_id id was (e ∷ es) = has_joined node_id id (after_event node_id id was e) es

module _ (rt : Runtime) where
  cluster_step-nodes :
      (node_id : String) (c : Cluster) (e : Event) (id : String)
      → is_some (lookup id (cluster_step rt node_id c e).nodes)
        ≡ after_event node_id id (is_some (lookup id c.nodes)) e
  unfolding cluster_step
  cluster_step-nodes node_id c (call op) id = refl
  cluster_step-nodes node_id c (joined other dialled) id = elim (string_dec other node_id) [
    | yes p ↦ ground arith
    | no n ↦ ground (arith, join-nodes rt c other dialled id)
  ]
  cluster_step-nodes node_id c (left other clock) id = elim (string_dec other node_id) [
    | yes p ↦ ground arith
    | no n ↦ ground (arith, leave-nodes rt c other clock id)
  ]
  cluster_step-nodes node_id c (detect visits timestamp) id = refl
  cluster_step-nodes node_id c (repair ids rand order shuffled rpc) id =
      ap (λ ns. is_some (lookup id ns)) (replica_repair-nodes rt c ids rand order shuffled rpc)

  on_updates-nodes : (ms : List Member2) (c : Cluster) → (on_updates c ms).nodes ≡ c.nodes
  unfolding on_updates on_update
  on_updates-nodes [] c = refl
  on_updates-nodes (m ∷ ms) c = on_updates-nodes ms (on_update c m)

  run-nodes :
      (es : List Event) (n : Node) (id : String)
      → is_some (lookup id (run rt n es).cluster.nodes)
        ≡ has_joined n.config.node_id id (is_some (lookup id n.cluster.nodes)) es
  unfolding run step deliver
  run-nodes [] n id = refl
  run-nodes (e ∷ es) n id =
      let after = cluster_step rt n.config.node_id n.cluster e in
      run-nodes es (step rt n e) id
      ∙ ap (λ b. has_joined n.config.node_id id b es)
          (ap (λ ns. is_some (lookup id ns))
              (on_updates-nodes
                (updates_for n.handle (calls_since n.cluster.registry.calls after.registry.calls))
                after)
            ∙ cluster_step-nodes n.config.node_id n.cluster e id)

  new_node-nodes :
      (config : Config) (started clock : ℕ) (id : String)
      → is_some (lookup id (new_node rt config started clock).cluster.nodes) ≡ false
  unfolding new_node new_cluster lookup
  new_node-nodes config started clock id = refl

  -- After any events since the node was made, it has a client of exactly the nodes other than itself
  -- that gossip says joined, with a dial that succeeded, and did not leave after that; each client is
  -- one of that node and not closed; it has none of itself; and the gauge holds the number of these
  -- nodes and 1.
  pub run_node-IsConsistent :
      (config : Config) (started clock : ℕ) (es : List Event)
      → let c = (run rt (new_node rt config started clock) es).cluster in
        IsConsistent rt c
        × ((id : String) → is_some (lookup id c.clients) ≡ has_joined config.node_id id false es)
        × (is_some (lookup config.node_id c.clients) ≡ false)
  unfolding new_node
  run_node-IsConsistent config started clock es =
      let n = new_node rt config started clock in
      let h = events-IsSound rt es n (new_node-IsSound rt config started clock) in
      (
        h.consistent,
        λ id.
            sym (h.consistent.clients id)
            ∙ run-nodes es n id
            ∙ ap (λ b. has_joined config.node_id id b es) (new_node-nodes config started clock id),
        sym (h.consistent.clients config.node_id) ∙ h.others,
      )
