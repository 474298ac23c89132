-- ===== src/Node/Replicated.antt =====
-- A member that is added to one node, from there to the registry of another.
use mathlib.Core.List.{Mem, mem-cons_self, mem-cons_of_mem, append-nil}
use fuddle.Rpc.{Member2, MemberState}
use fuddle.StringMap.{lookup}
use fuddle.Metrics.{Runtime}
use fuddle.Registry.Options.{Opt, options_of}
use fuddle.Registry.State.{Registry, outdated, next_version}
use fuddle.Registry.Runs.{add_member}
use fuddle.Registry.Replication.{concerns}
use fuddle.Client.{ReplicaClient, update, apply_updates, send_loop}
use fuddle.Client.Pending.{rest, push}
use fuddle.Client.CatchUp.{IsCaughtUp, updates-caught}
use fuddle.Client.Sending.{send_loop-IsSentInOrder}
use fuddle.Cluster.Nodes.{updated_client}
use fuddle.Node.{Node, call, step}
use fuddle.Node.Network.{Attempt, arrives, succeeds, arrived, receive, send_to}
use fuddle.Node.Queued.{added_entry, times_subscribed, add_member-queued}
use fuddle.Server.{ReplicaServer, replica_update}
use fuddle.Prelude.{
  ℕ, suc, String, ◌≡◌, ◌≢◌, refl, sym, subst, ap, ◌∙◌, true, false, ltb, if◌then◌else◌, if_intro,
  ◌⊎◌, inl, inr, some, List, [], ◌∷◌, ◌++◌, map, arith, length, length-append, length-map,
}

-- Where all go out, none waits.
pub all_sent :
    (xs ys us : List Member2)
    → xs ++ ys ≡ us
    → (length xs ≡ length us) ⊎ (ys ≡ [])
    → (xs ≡ us) × (ys ≡ [])
all_sent xs ys us e (inr n) = (sym (append-nil xs) ∙ ap (λ l. xs ++ l) (sym n) ∙ e, n)
all_sent xs [] us e (inl l) = (sym (append-nil xs) ∙ e, refl)
all_sent xs (y ∷ ys) us e (inl l) =
    absurd (omega (arith, length-append xs (y ∷ ys), ap length e, l))

-- The last update is among those that arrive, if its RPC does.
last_arrives :
    (before : List Attempt) (p : Attempt) (us : List Member2) (u : Member2)
    → length before ≡ length us
    → arrives p ≡ true
    → Mem u (arrived (before ++ p ∷ []) (us ++ u ∷ []))
unfolding arrived
last_arrives [] p [] u l a = rw a mem-cons_self
last_arrives [] p (v ∷ us) u l a = absurd (omega (arith, l))
last_arrives (q ∷ before) p [] u l a = absurd (omega (arith, l))
last_arrives (q ∷ before) p (v ∷ us) u l a =
    let k = last_arrives before p us u (omega (arith, l)) a in
    if_intro (λ (l : List Member2). Mem u l) (arrives q) (λ _. mem-cons_of_mem v k) (λ _. k)

module _ (rt : Runtime) (source : String) where
  pub receive-registry :
      (s : ReplicaServer) (us : List Member2)
      → (receive rt source s us).registry ≡ apply_updates rt s.registry us
  unfolding receive apply_updates replica_update
  receive-registry s [] = refl
  receive-registry s (u ∷ us) = receive-registry (replica_update rt s source u) us

  -- The newest pending update reaches a server that may take it, once all RPCs before its own are
  -- over and its own arrives.
  send_to-IsCaughtUp :
      (c : ReplicaClient) (s : ReplicaServer) (us : List Member2) (u : Member2)
      (before : List Attempt) (p : Attempt)
      → c.pending.closed ≡ false
      → c.pending.pending ≡ us ++ u ∷ []
      → length before ≡ length us
      → arrives p ≡ true
      → concerns s.registry.local_id u.state.id u ≡ true
      → let sent = send_to rt source c s (before ++ p ∷ []) in
        (sent.0.pending.pending ≡ [])
        × IsCaughtUp (lookup u.state.id sent.1.registry.members) u.version
  unfolding send_to
  send_to-IsCaughtUp c s us u before p still queue l a may =
      let rpcs = before ++ p ∷ [] in
      let sent = send_loop rt c (map succeeds rpcs) in
      let h = send_loop-IsSentInOrder rt (map succeeds rpcs) c (us ++ u ∷ []) still queue in
      let n : length (map succeeds rpcs) ≡ length (us ++ u ∷ []) = omega (
        arith,
        length-map succeeds rpcs,
        length-append before (p ∷ []),
        length-append us (u ∷ []),
        l,
      ) in
      let all =
        all_sent sent.1 sent.0.pending.pending (us ++ u ∷ []) h.order
          (elim (h.complete) [ inl e ↦ inl (e ∙ n) | inr e ↦ inr e ]) in
      (
        all.1,
        subst (λ (r : Registry). IsCaughtUp (lookup u.state.id r.members) u.version)
            (sym (receive-registry s (arrived rpcs sent.1)))
            (updates-caught rt u.state.id u s.registry (arrived rpcs sent.1) may
              (subst (λ l. Mem u (arrived rpcs l)) (sym all.0) (last_arrives before p us u l a))),
      )

-- A push leaves the update as the last that waits.
kept : (limit : ℕ) → List Member2 → List Member2
kept limit us = if ltb limit (length us) then rest us else us

push-open :
    (c : ReplicaClient) (u : Member2)
    → c.pending.closed ≡ false
    → ((update c u).pending.closed ≡ false)
      × ((update c u).pending.pending ≡ kept c.pending.limit c.pending.pending ++ u ∷ [])
unfolding update push kept
push-open c u still = ground (arith, still)

module _ (rt : Runtime) (n : Node) (m : MemberState) (opts : List Opt) (clock : ℕ) where
  abbrev entry : Member2
  entry = added_entry rt n.cluster.registry m (options_of opts clock).now

  -- A member is added to a node whose subscription stands once, with a version that its entry does not
  -- outdate; it is neither this node's own nor that of another node, of which the node has an open
  -- client. Then the node stores the entry and queues it with that client. Once the client has made as
  -- many RPCs as updates wait, whatever became of those before, and the last arrives, no update waits,
  -- and the other node has an entry of the member that is at least as new as the one that was added.
  pub add_member-IsReplicated :
      (target : String) (c : ReplicaClient) (s : ReplicaServer) (before : List Attempt)
      (p : Attempt)
      → let r = n.cluster.registry in
        m.id ≢ r.local_id
        → outdated (lookup m.id r.members) (next_version r (options_of opts clock).now) ≡ false
        → times_subscribed n.handle r.subs ≡ 1
        → lookup target n.cluster.clients ≡ some c
        → c.pending.closed ≡ false
        → suc (length before) ≡ length (push c.pending entry).pending
        → arrives p ≡ true
        → m.id ≢ s.registry.local_id
        → r.local_id ≢ s.registry.local_id
        → let sent = send_to rt r.local_id (update c entry) s (before ++ p ∷ []) in
          let n' = step rt n (call (add_member m opts clock)) in
          (lookup m.id n'.cluster.registry.members ≡ some entry)
          × (lookup target n'.cluster.clients ≡ some (update c entry))
          × (sent.0.pending.pending ≡ [])
          × IsCaughtUp (lookup m.id sent.1.registry.members) entry.version
  unfolding update next_version
  add_member-IsReplicated target c s before p other newer once here still l a foreign apart =
      let queued = add_member-queued rt n m opts clock other newer once in
      let after = push-open c entry still in
      let us = kept c.pending.limit c.pending.pending in
      let k : length before ≡ length us =
        omega (arith, l, ap length after.1, length-append us (entry ∷ [])) in
      let may : concerns s.registry.local_id m.id entry ≡ true = ground (arith, foreign, apart) in
      let sent =
        send_to-IsCaughtUp rt n.cluster.registry.local_id (update c entry) s us entry before p
          after.0 after.1 k a may in
      (queued.0, queued.1 target ∙ ap (updated_client entry) here, sent.0, sent.1)
