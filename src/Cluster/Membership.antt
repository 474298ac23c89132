-- ===== src/Cluster/Membership.antt =====
-- Which nodes a cluster has (pkg/cluster/cluster.go), by the joins and leaves so far.
use fuddle.StringMap.{lookup, lookup-erase}
use fuddle.Metrics.{Runtime}
use fuddle.Registry.State.{Registry}
use fuddle.Cluster.{Cluster, on_join, on_leave, on_update, new_cluster}
use fuddle.Cluster.Runs.{Event, join, leave, updated, repair, step, run}
use fuddle.Cluster.Nodes.{
  IsConsistent, is_some, is_some-insert, replica_repair-nodes, new_cluster-IsConsistent,
  events-IsConsistent,
}
use fuddle.Prelude.{
  ℕ, String, ◌≡◌, refl, sym, ap, ◌∙◌, Bool, true, false, List, [], ◌∷◌, arith, string_dec, ite,
}

-- Whether the node `id` is a member after an event, by whether it was before: a join whose dial
-- succeeds makes it one, a leave ends that, and no event of another node matters.
abbrev pub after_join : String → Bool → String → Bool → Bool
after_join id was other true = ite (string_dec other id) true was
after_join id was other false = was

abbrev pub after_leave : String → Bool → String → Bool
after_leave id was other = ite (string_dec other id) false was

abbrev pub after_event : String → Bool → Event → Bool
after_event id was (join other dialled) = after_join id was other dialled
after_event id was (leave other clock) = after_leave id was other
after_event id was (updated m) = was
after_event id was (repair ids rand order shuffled rpc) = was

-- Did the node `id` join, in this history, and not leave after that?
abbrev pub has_joined : String → Bool → List Event → Bool
has_joined id was [] = was
has_joined id was (e ∷ es) = has_joined id (after_event id was e) es

module _ (rt : Runtime) where
  pub join-nodes :
      (c : Cluster) (other : String) (dialled : Bool) (id : String)
      → is_some (lookup id (on_join rt c other dialled).nodes)
        ≡ after_join id (is_some (lookup id c.nodes)) other dialled
  unfolding on_join
  join-nodes c other false id = refl
  join-nodes c other true id = is_some-insert other id tt c.nodes

  pub leave-nodes :
      (c : Cluster) (other : String) (clock : ℕ) (id : String)
      → is_some (lookup id (on_leave rt c other clock).nodes)
        ≡ after_leave id (is_some (lookup id c.nodes)) other
  unfolding on_leave
  leave-nodes c other clock id = ground (arith, lookup-erase other id c.nodes)

  step-nodes :
      (c : Cluster) (e : Event) (id : String)
      → is_some (lookup id (step rt c e).nodes) ≡ after_event id (is_some (lookup id c.nodes)) e
  unfolding step on_update
  step-nodes c (join other dialled) id = join-nodes c other dialled id
  step-nodes c (leave other clock) id = leave-nodes c other clock id
  step-nodes c (updated m) id = refl
  step-nodes c (repair ids rand order shuffled rpc) id =
      ap (λ ns. is_some (lookup id ns)) (replica_repair-nodes rt c ids rand order shuffled rpc)

  run-nodes :
      (es : List Event) (c : Cluster) (id : String)
      → is_some (lookup id (run rt c es).nodes) ≡ has_joined id (is_some (lookup id c.nodes)) es
  unfolding run
  run-nodes [] c id = refl
  run-nodes (e ∷ es) c id =
      run-nodes es (step rt c e) id ∙ ap (λ b. has_joined id b es) (step-nodes c e id)

  new_cluster-nodes :
      (r : Registry) (id : String) → is_some (lookup id (new_cluster rt r).nodes) ≡ false
  unfolding new_cluster lookup
  new_cluster-nodes r id = refl

  -- After any events since the cluster was made, there is a client exactly for each node that joined,
  -- with a dial that succeeded, and did not leave after that; it is one of that node and not closed;
  -- the map of the nodes has the same ids; and the gauge holds the number of these nodes and 1.
  pub run-IsConsistent :
      (r : Registry) (es : List Event)
      → let c = run rt (new_cluster rt r) es in
        IsConsistent rt c × ((id : String) → is_some (lookup id c.clients) ≡ has_joined id false es)
  run-IsConsistent r es =
      let h = events-IsConsistent rt es (new_cluster rt r) (new_cluster-IsConsistent rt r) in
      (
        h,
        λ id.
            sym (h.clients id)
            ∙ run-nodes es (new_cluster rt r) id
            ∙ ap (λ b. has_joined id b es) (new_cluster-nodes r id),
      )
