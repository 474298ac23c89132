-- ===== src/Node/Queued.antt =====
-- How an update of the registry goes to the clients of the other nodes.
use mathlib.Core.List.{append_assoc}
use native.Mathlib.Decide.{ℕ_discrete}
use fuddle.Rpc.{Member2, MemberState, up}
use fuddle.StringMap.{lookup, lookup-insert}
use fuddle.Metrics.{Runtime}
use fuddle.Registry.Options.{Opt, options_of}
use fuddle.Registry.State.{
  Registry, SubHandle, Call, notify, outdated, next_version, next_version_locked, set_member_locked,
  notify_subscribers_locked, update_member_at, update_member_locked,
}
use fuddle.Registry.Members as Members
use fuddle.Registry.Runs as Runs
use fuddle.Registry.Runs.{add_member}
use fuddle.Registry.Forwarding.{wants_owner}
use fuddle.Cluster.{Cluster, on_update}
use fuddle.Cluster.Nodes.{updated_client, lookup-update_all}
use fuddle.Node.Forwarding.{deliver-registry}
use fuddle.Node.{
  Node, call, deliver, on_updates, updates_for, first_calls, calls_since, cluster_step, step,
}
use fuddle.Prelude.{
  ℕ, zero, suc, ◌-◌, String, ◌≡◌, refl, sym, subst, ap, ◌∙◌, ◌≢◌, true, false, some, List, [], ◌∷◌,
  ◌++◌, arith, string_dec, ite, if_neg, length, length-append, int64,
}

-- The calls that an owner's update makes, the latest first.
owner_calls : Member2 → List SubHandle → List Call
owner_calls m [] = []
owner_calls m (s ∷ subs) = owner_calls m subs ++ record { handle = s.handle; update = m } ∷ []

notify-owner_calls :
    (m : Member2) (subs : List SubHandle) (calls : List Call)
    → notify m true subs calls ≡ owner_calls m subs ++ calls
unfolding notify owner_calls
notify-owner_calls m [] calls = refl
notify-owner_calls m (s ∷ subs) calls = rw (wants_owner s) (
    notify-owner_calls m subs (record { handle = s.handle; update = m } ∷ calls)
    ∙ sym (append_assoc (owner_calls m subs) (record { handle = s.handle; update = m } ∷ []) calls))

first_calls-append : (new old : List Call) → first_calls (length new) (new ++ old) ≡ new
unfolding first_calls
first_calls-append [] [] = refl
first_calls-append [] (c ∷ old) = refl
first_calls-append (c ∷ new) old = ap (λ l. c ∷ l) (first_calls-append new old)

calls_since-append : (new old : List Call) → calls_since old (new ++ old) ≡ new
unfolding calls_since
calls_since-append new old =
    let n : length (new ++ old) - length old ≡ length new = omega (arith, length-append new old) in
    rw n (first_calls-append new old)

updates_for-concat :
    (handle : ℕ) (calls : List Call) (c : Call)
    → updates_for handle (calls ++ c ∷ [])
      ≡ ite
          (ℕ_discrete c.handle handle)
          (c.update ∷ updates_for handle calls)
          (updates_for handle calls)
unfolding updates_for
updates_for-concat handle [] c = ground arith
updates_for-concat handle (d ∷ calls) c = ground (arith, updates_for-concat handle calls c)

-- How often a handle occurs among the subscriptions.
abbrev pub times_subscribed : ℕ → List SubHandle → ℕ
times_subscribed handle [] = 0
times_subscribed handle (s ∷ subs) =
    let rest = times_subscribed handle subs in ite (ℕ_discrete s.handle handle) (suc rest) rest

copies : ℕ → Member2 → List Member2
copies zero m = []
copies (suc n) m = m ∷ copies n m

updates_for-owner_calls :
    (handle : ℕ) (m : Member2) (subs : List SubHandle)
    → updates_for handle (owner_calls m subs) ≡ copies (times_subscribed handle subs) m
unfolding owner_calls updates_for copies
updates_for-owner_calls handle m [] = refl
updates_for-owner_calls handle m (s ∷ subs) = ground (
  arith,
  updates_for-concat handle (owner_calls m subs) (record { handle = s.handle; update = m }),
  updates_for-owner_calls handle m subs,
)

on_updates_one :
    (c : Cluster) (m : Member2) (id : String)
    → lookup id (on_updates c (m ∷ [])).clients ≡ updated_client m (lookup id c.clients)
unfolding on_updates on_update
on_updates_one c m id = lookup-update_all m c.clients id

module _ (rt : Runtime) where
  -- The entry that AddMember stores.
  abbrev pub added_entry : Registry → MemberState → (now : ℕ) → Member2
  added_entry r m now = record {
    state = m;
    liveness = up;
    version = next_version r now;
    expiry = int64 0;
  }

  -- The registry after an AddMember that is accepted.
  abbrev added : Registry → MemberState → (now : ℕ) → Registry
  added r m now =
      notify_subscribers_locked
        (set_member_locked rt (next_version_locked r now).0 (added_entry r m now))
        (added_entry r m now) true

  step-added :
      (r : Registry) (m : MemberState) (opts : List Opt) (clock : ℕ)
      → m.id ≢ r.local_id
      → outdated (lookup m.id r.members) (next_version r (options_of opts clock).now) ≡ false
      → Runs.step rt r (add_member m opts clock) ≡ added r m (options_of opts clock).now
  unfolding Runs.step Members.add_member update_member_locked update_member_at next_version_locked
  step-added r m opts clock other newer = if_neg (string_dec m.id r.local_id) other _ _ ∙ rw newer

  stored :
      (r : Registry) (m : MemberState) (now : ℕ)
      → lookup m.id (added r m now).members ≡ some (added_entry r m now)
  unfolding notify_subscribers_locked set_member_locked next_version_locked
  stored r m now = ground (arith, lookup-insert m.id m.id (added_entry r m now) r.members)

  added_calls :
      (handle : ℕ) (r : Registry) (m : MemberState) (now : ℕ)
      → times_subscribed handle r.subs ≡ 1
      → updates_for handle (calls_since r.calls (added r m now).calls) ≡ added_entry r m now ∷ []
  unfolding notify_subscribers_locked set_member_locked next_version_locked copies
  added_calls handle r m now once = rw (notify-owner_calls (added_entry r m now) r.subs r.calls) (
      ap (updates_for handle)
        (calls_since-append (owner_calls (added_entry r m now) r.subs) r.calls)
      ∙ updates_for-owner_calls handle (added_entry r m now) r.subs
      ∙ ap (λ k. copies k (added_entry r m now)) once)

  -- The entry is stored, and queued with every client.
  IsQueued : (handle : ℕ) (c : Cluster) (e : Member2) → Registry → Type 0
  IsQueued handle c e r =
      let c' = deliver handle c (record c { registry = r }) in
      (lookup e.state.id c'.registry.members ≡ some e)
      × ((id : String) → lookup id c'.clients ≡ updated_client e (lookup id c.clients))

  added-IsQueued :
      (handle : ℕ) (c : Cluster) (m : MemberState) (now : ℕ)
      → times_subscribed handle c.registry.subs ≡ 1
      → IsQueued handle c (added_entry c.registry m now) (added c.registry m now)
  unfolding IsQueued
  added-IsQueued handle c m now once =
      let r' = added c.registry m now in
      (
        ap (λ (r : Registry). lookup m.id r.members)
              (deliver-registry handle c (record c { registry = r' }))
            ∙ stored c.registry m now,
        λ id.
            unfold deliver in
            (ap (λ ms. lookup id (on_updates (record c { registry = r' }) ms).clients)
                (added_calls handle c.registry m now once)
              ∙ on_updates_one (record c { registry = r' }) (added_entry c.registry m now) id),
      )

  -- An AddMember on a node, of another member than the node's own and with a version that its entry
  -- does not outdate, stores the entry, and queues it once with the client of every other node; the
  -- node's subscription stands once.
  pub add_member-queued :
      (n : Node) (m : MemberState) (opts : List Opt) (clock : ℕ)
      → let r = n.cluster.registry in
        let now = (options_of opts clock).now in
        let e = added_entry r m now in
        let n' = step rt n (call (add_member m opts clock)) in
        m.id ≢ r.local_id
        → outdated (lookup m.id r.members) (next_version r now) ≡ false
        → times_subscribed n.handle r.subs ≡ 1
        → (lookup m.id n'.cluster.registry.members ≡ some e)
          × ((id : String)
              → lookup id n'.cluster.clients ≡ updated_client e (lookup id n.cluster.clients))
  unfolding step cluster_step IsQueued
  add_member-queued n m opts clock other newer once =
      subst
        (IsQueued n.handle n.cluster (added_entry n.cluster.registry m (options_of opts clock).now))
        (sym (step-added n.cluster.registry m opts clock other newer))
        (added-IsQueued n.handle n.cluster m (options_of opts clock).now once)
