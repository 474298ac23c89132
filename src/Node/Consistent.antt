-- ===== src/Node/Consistent.antt =====
-- What a node keeps of its cluster.
use fuddle.Rpc.{Member2}
use fuddle.StringMap.{lookup, lookup-erase}
use fuddle.Metrics.{Runtime}
use fuddle.Registry.State.{Registry}
use fuddle.Cluster.{Cluster, on_join, on_leave, on_update, new_cluster}
use fuddle.Cluster.Nodes.{
  IsConsistent, is_some, is_some-insert, new_cluster-IsConsistent, join-IsConsistent,
  leave-IsConsistent, updated-IsConsistent, repair-IsConsistent, replica_repair-nodes,
}
use fuddle.Node.{
  Config, Node, Event, call, joined, left, detect, repair, deliver, on_updates, updates_for,
  calls_since, new_node, cluster_step, step, run,
}
use fuddle.Prelude.{
  ℕ, String, ◌≡◌, refl, ap, ◌∙◌, ◌≢◌, Bool, true, false, List, [], ◌∷◌, arith, string_dec,
  ite_intro,
}

module _ (rt : Runtime) (node_id : String) where
  pub record IsSound (c : Cluster) : Type 0 where
    pub consistent : IsConsistent rt c
    pub others : is_some (lookup node_id c.nodes) ≡ false

  join-others :
      (c : Cluster) (id : String) (dialled : Bool)
      → id ≢ node_id
      → is_some (lookup node_id c.nodes) ≡ false
      → is_some (lookup node_id (on_join rt c id dialled).nodes) ≡ false
  unfolding on_join
  join-others c id false n h = h
  join-others c id true n h = ground (arith, is_some-insert id node_id tt c.nodes)

  leave-others :
      (c : Cluster) (id : String) (clock : ℕ)
      → is_some (lookup node_id c.nodes) ≡ false
      → is_some (lookup node_id (on_leave rt c id clock).nodes) ≡ false
  unfolding on_leave
  leave-others c id clock h = ground (arith, lookup-erase id node_id c.nodes)

  cluster_step-IsSound :
      (c : Cluster) (e : Event) → IsSound c → IsSound (cluster_step rt node_id c e)
  unfolding cluster_step
  cluster_step-IsSound c (call op) h = record {
    consistent = record {
      clients = h.consistent.clients;
      opened = h.consistent.opened;
      counted = h.consistent.counted;
    };
    others = h.others;
  }
  cluster_step-IsSound c (joined id dialled) h =
      ite_intro IsSound (string_dec id node_id) (λ _. h)
        (λ n. record {
          consistent = join-IsConsistent rt c id dialled h.consistent;
          others = join-others c id dialled n h.others;
        })
  cluster_step-IsSound c (left id clock) h =
      ite_intro IsSound (string_dec id node_id) (λ _. h)
        (λ n. record {
          consistent = leave-IsConsistent rt c id clock h.consistent;
          others = leave-others c id clock h.others;
        })
  cluster_step-IsSound c (detect visits timestamp) h = record {
    consistent = record {
      clients = h.consistent.clients;
      opened = h.consistent.opened;
      counted = h.consistent.counted;
    };
    others = h.others;
  }
  cluster_step-IsSound c (repair ids rand order shuffled rpc) h = record {
    consistent = repair-IsConsistent rt c ids rand order shuffled rpc h.consistent;
    others =
        ap (λ ns. is_some (lookup node_id ns))
          (replica_repair-nodes rt c ids rand order shuffled rpc)
        ∙ h.others;
  }

  on_updates-IsSound : (c : Cluster) (ms : List Member2) → IsSound c → IsSound (on_updates c ms)
  unfolding on_updates on_update
  on_updates-IsSound c [] h = h
  on_updates-IsSound c (m ∷ ms) h =
      on_updates-IsSound (on_update c m) ms
        (record { consistent = updated-IsConsistent rt c m h.consistent; others = h.others })

module _ (rt : Runtime) where
  pub events-IsSound :
      (es : List Event) (n : Node)
      → IsSound rt n.config.node_id n.cluster
      → IsSound rt n.config.node_id (run rt n es).cluster
  unfolding run step deliver
  events-IsSound [] n h = h
  events-IsSound (e ∷ es) n h =
      let after = cluster_step rt n.config.node_id n.cluster e in
      events-IsSound es (step rt n e) (
        on_updates-IsSound rt n.config.node_id after
          (updates_for n.handle (calls_since n.cluster.registry.calls after.registry.calls))
          (cluster_step-IsSound rt n.config.node_id n.cluster e h))

  new_cluster-others :
      (node_id : String) (r : Registry) → is_some (lookup node_id (new_cluster rt r).nodes) ≡ false
  unfolding new_cluster lookup
  new_cluster-others node_id r = refl

  pub new_node-IsSound :
      (config : Config) (started clock : ℕ)
      → let n = new_node rt config started clock in IsSound rt n.config.node_id n.cluster
  unfolding new_node
  new_node-IsSound config started clock = record {
    consistent = new_cluster-IsConsistent rt _;
    others = new_cluster-others config.node_id _;
  }
