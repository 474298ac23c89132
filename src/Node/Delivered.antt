-- ===== src/Node/Delivered.antt =====
-- From the registry of a node to the clients of its cluster: the callback that pkg/node/node.go
-- subscribes, which calls OnUpdate of pkg/cluster/cluster.go.
use mathlib.Core.List.{Mem, mem-append_left, mem-append_right, mem-cons_self}
use native.Mathlib.Decide.{ℕ_discrete}
use fuddle.Rpc.{Member2}
use fuddle.StringMap.{lookup}
use fuddle.Metrics.{Runtime}
use fuddle.Registry.State.{Registry, Call}
use fuddle.Registry.Runs as Runs
use fuddle.Registry.Runs.{Op}
use fuddle.Registry.Runs.Kept.{IsCalled, IsSub}
use fuddle.Registry.Delivered.{IsDelivered, run-IsDelivered}
use fuddle.Client.{ReplicaClient, update}
use fuddle.Cluster.{Cluster, send_all, on_update}
use fuddle.Cluster.Nodes.{updated_client, lookup-update_all}
use fuddle.Node.{
  Config, Node, Event, call, deliver, on_updates, updates_for, first_calls, calls_since, new_node,
  cluster_step, step, run,
}
use fuddle.Node.Forwarding.{deliver-registry, run_node-IsForwarded}
use fuddle.Prelude.{
  ℕ, ◌<◌, ◌-◌, String, ◌≡◌, refl, sym, subst, ap, ◌∙◌, ◌≢◌, ◌⊎◌, inl, inr, some, List, [], ◌∷◌,
  ◌++◌, arith, length, length-append, ite_intro,
}

-- Each client is given the updates in turn.
on_updates-clients :
    (ms : List Member2) (c : Cluster) (id : String) (client : ReplicaClient)
    → lookup id c.clients ≡ some client
    → lookup id (on_updates c ms).clients ≡ some (send_all client ms)
unfolding on_updates on_update send_all
on_updates-clients [] c id client e = e
on_updates-clients (m ∷ ms) c id client e =
    on_updates-clients ms (on_update c m) id (update client m)
      (lookup-update_all m c.clients id ∙ ap (updated_client m) e)

first_calls-append : (new calls : List Call) → first_calls (length new) (new ++ calls) ≡ new
unfolding first_calls
first_calls-append [] calls = refl
first_calls-append (c ∷ new) calls = ap (λ l. c ∷ l) (first_calls-append new calls)

calls_since-append : (new calls : List Call) → calls_since calls (new ++ calls) ≡ new
unfolding calls_since
calls_since-append new calls =
    let n : length (new ++ calls) - length calls ≡ length new =
      omega (arith, length-append new calls) in
    ap (λ k. first_calls k (new ++ calls)) n ∙ first_calls-append new calls

mem-updates_for :
    (handle : ℕ) (u : Member2) (calls : List Call)
    → IsCalled handle u calls
    → Mem u (updates_for handle calls)
unfolding updates_for
mem-updates_for handle u [] h = absurd h
mem-updates_for handle u (c ∷ calls) (inl (e, same)) =
    ite_intro (Mem u) (ℕ_discrete c.handle handle)
      (λ p.
        subst (λ x. Mem u (updates_for handle calls ++ x ∷ [])) (sym same)
          (mem-append_right (updates_for handle calls) mem-cons_self))
      (λ n. absurd (n e))
mem-updates_for handle u (c ∷ calls) (inr h) =
    let k = mem-updates_for handle u calls h in
    ite_intro (Mem u) (ℕ_discrete c.handle handle) (λ p. mem-append_left (c.update ∷ []) k) (λ n. k)

-- The client of the node `id` of the first cluster was given updates, among them the entry of every
-- member but itself that the node owns in the second and that is not the entry of the first.
pub record IsGiven (id : String) (client : ReplicaClient) (before after : Cluster) : Type 0 where
  pub given : List Member2
  pub queued : lookup id after.clients ≡ some (send_all client given)
  pub owned :
      (j : String) (e : Member2)
      → lookup j after.registry.members ≡ some e
      → e.version.owner_id ≡ after.registry.local_id
      → j ≢ after.registry.local_id
      → lookup j before.registry.members ≢ some e
      → Mem e given

changed : (A B : Type 0) → ¬ A → A ⊎ B → B
changed A B n (inl a) = absurd (n a)
changed A B n (inr b) = b

module _ (rt : Runtime) where
  call-IsDelivered :
      (handle : ℕ) (r : Registry) (op : Op)
      → handle < r.next_handle
      → IsDelivered handle r.members r.calls (Runs.step rt r op)
  unfolding Runs.run
  call-IsDelivered handle r op h = run-IsDelivered handle r.members r.calls rt r (op ∷ []) (record {
    allocated = h;
    grown = ([], refl);
    called = λ sub id e found owned other. inl found;
  })

  step-IsGiven :
      (n : Node) (op : Op) (id : String) (client : ReplicaClient)
      → n.handle < n.cluster.registry.next_handle
      → IsSub n.handle (Runs.step rt n.cluster.registry op).subs
      → lookup id n.cluster.clients ≡ some client
      → IsGiven id client n.cluster (step rt n (call op)).cluster
  unfolding step cluster_step deliver
  step-IsGiven n op id client h sub e =
      let r = Runs.step rt n.cluster.registry op in
      let d = call-IsDelivered n.handle n.cluster.registry op h in
      let after : Cluster = record n.cluster { registry = r } in
      let us = updates_for n.handle (calls_since n.cluster.registry.calls r.calls) in
      let same : (on_updates after us).registry ≡ r = deliver-registry n.handle n.cluster after in
      let new : calls_since n.cluster.registry.calls r.calls ≡ d.grown.0 =
        ap (calls_since n.cluster.registry.calls) d.grown.1
        ∙ calls_since-append d.grown.0 n.cluster.registry.calls in
      record {
        given = us;
        queued = on_updates-clients us after id client e;
        owned = λ j m found own other differs.
            subst (λ l. Mem m (updates_for n.handle l)) (sym new)
              (mem-updates_for n.handle m d.grown.0 (
                changed _ _ differs (
                  d.called sub j m (sym (ap (λ (x : Registry). lookup j x.members) same) ∙ found)
                    (own ∙ ap (λ (x : Registry). x.local_id) same)
                    (λ p. other (p ∙ sym (ap (λ (x : Registry). x.local_id) same))))));
      }

  run-handle : (es : List Event) (n : Node) → (run rt n es).handle ≡ n.handle
  unfolding run step
  run-handle [] n = refl
  run-handle (e ∷ es) n = run-handle es (step rt n e)

  -- After any events since the node was made, a further call of its registry (by a server, or the
  -- failure detector's tick) that leaves the node's subscription in place gives updates to the client
  -- of each other node, one after the other; and the entry of every member that the node then owns,
  -- but its own, is among them if the call has stored it.
  pub run_node-IsGiven :
      (config : Config) (started clock : ℕ) (es : List Event) (op : Op) (id : String)
      (client : ReplicaClient)
      → let n = run rt (new_node rt config started clock) es in
        IsSub n.handle (Runs.step rt n.cluster.registry op).subs
        → lookup id n.cluster.clients ≡ some client
        → IsGiven id client n.cluster (step rt n (call op)).cluster
  run_node-IsGiven config started clock es op id client sub e =
      let start = new_node rt config started clock in
      let n = run rt start es in
      step-IsGiven n op id client
        (subst (λ h. h < n.cluster.registry.next_handle) (sym (run-handle es start))
          (run_node-IsForwarded rt config started clock es).allocated)
        sub e
