-- ===== src/Node/Bootstrapped.antt =====
-- The members of a node, from there to the registry of a node that joins.
use mathlib.Core.List.{Mem}
use fuddle.Rpc.{Member2}
use fuddle.StringMap.{lookup}
use fuddle.Metrics.{Runtime}
use fuddle.Registry.State.{Registry}
use fuddle.Registry.Members.{owned_members}
use fuddle.Registry.Replication.{concerns}
use fuddle.Client.{ReplicaClient, send_loop}
use fuddle.Client.CatchUp.{IsCaughtUp, updates-caught}
use fuddle.Client.Pending.Window.{last}
use fuddle.Cluster.{Cluster, on_join}
use fuddle.Cluster.Bootstrap.{on_join-IsSentInOrder}
use fuddle.Node.Network.{Attempt, arrives, succeeds, arrived, send_to}
use fuddle.Node.Replicated.{all_sent, receive-registry}
use fuddle.Server.{ReplicaServer}
use fuddle.Prelude.{
  String, ◌≡◌, ◌≢◌, refl, sym, subst, ap, ◌∙◌, true, some, inl, inr, List, [], ◌∷◌, map, All, arith,
  length, length-map,
}

everything_arrived :
    (rpcs : List Attempt) (us : List Member2)
    → All (λ p. arrives p ≡ true) rpcs
    → length rpcs ≡ length us
    → arrived rpcs us ≡ us
unfolding arrived
everything_arrived [] [] a l = refl
everything_arrived [] (u ∷ us) a l = absurd (omega (arith, l))
everything_arrived (p ∷ rpcs) [] a l = absurd (omega (arith, l))
everything_arrived (p ∷ rpcs) (u ∷ us) a l =
    rw a.0 (ap (λ l. u ∷ l) (everything_arrived rpcs us a.1 (omega (arith, l))))

-- A node that joins is sent the members that this node owns, the last 129 of them: once the client has
-- made as many RPCs as updates wait, and all arrive, the joining node has an entry of each that is at
-- least as new as this node's, but for its own entry and for members that it owns itself.
pub on_join-IsReplicated :
    (rt : Runtime) (c : Cluster) (id : String) (s : ReplicaServer) (rpcs : List Attempt)
    (m : Member2)
    → All (λ p. arrives p ≡ true) rpcs
    → length rpcs ≡ length (last 129 (owned_members c.registry))
    → Mem m (last 129 (owned_members c.registry))
    → m.state.id ≢ s.registry.local_id
    → m.version.owner_id ≢ s.registry.local_id
    → (client : ReplicaClient) × (lookup id (on_join rt c id true).clients ≡ some client)
      × IsCaughtUp
          (lookup m.state.id (send_to rt c.registry.local_id client s rpcs).1.registry.members)
          m.version
unfolding send_to
on_join-IsReplicated rt c id s rpcs m a l mem foreign apart =
    let us = last 129 (owned_members c.registry) in
    let oks = map succeeds rpcs in
    let (client, here, h) = on_join-IsSentInOrder rt c id oks in
    let sent = send_loop rt client oks in
    let n : length oks ≡ length us = omega (arith, length-map succeeds rpcs, l) in
    let all =
      all_sent sent.1 sent.0.pending.pending us h.order
        (elim (h.complete) [ inl e ↦ inl (e ∙ n) | inr e ↦ inr e ]) in
    let may : concerns s.registry.local_id m.state.id m ≡ true = ground (arith, foreign, apart) in
    let all_in : arrived rpcs sent.1 ≡ us =
      ap (arrived rpcs) all.0 ∙ everything_arrived rpcs us a l in
    (
      client,
      here,
      subst (λ (r : Registry). IsCaughtUp (lookup m.state.id r.members) m.version)
          (sym (receive-registry rt c.registry.local_id s (arrived rpcs sent.1)))
          (updates-caught rt m.state.id m s.registry (arrived rpcs sent.1) may
            (subst (Mem m) (sym all_in) mem)),
    )
