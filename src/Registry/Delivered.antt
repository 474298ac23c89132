-- ===== src/Registry/Delivered.antt =====
-- The calls of a subscription since some state of the registry: pkg/node subscribes the cluster, which
-- forwards each update to the other nodes.
use fuddle.Rpc.{Member2}
use fuddle.StringMap.{StringMap, lookup, lookup-insert, lookup-erase}
use fuddle.Metrics.{Runtime}
use fuddle.Registry.State.{
  Registry, Call, set_member_locked, delete_member_locked, notify, notify_subscribers_locked,
}
use fuddle.Registry.Runs.{Op, run}
use fuddle.Registry.Runs.Kept.{
  IsCalled, IsSub, Extends, Follows, IsKept, IsCalled-append, notify-append,
}
use fuddle.Registry.Runs.Sweep.{run-kept}
use fuddle.Registry.Forwarding.{accepted_owner}
use fuddle.Prelude.{
  ℕ, ◌<◌, String, ◌≡◌, refl, sym, subst, ap, ◌∙◌, ◌≢◌, ◌⊎◌, inl, inr, Bool, true, some, List, [],
  ◌∷◌, ◌++◌, arith, string_dec,
}

-- A call in the newer part of a log is a call of the log.
IsCalled-before :
    (handle : ℕ) (u : Member2) (new calls : List Call)
    → IsCalled handle u new
    → IsCalled handle u (new ++ calls)
IsCalled-before handle u [] calls h = absurd h
IsCalled-before handle u (c ∷ new) calls (inl h) = inl h
IsCalled-before handle u (c ∷ new) calls (inr h) = inr (IsCalled-before handle u new calls h)

append_assoc : (xs ys zs : List Call) → xs ++ (ys ++ zs) ≡ (xs ++ ys) ++ zs
append_assoc [] ys zs = refl
append_assoc (x ∷ xs) ys zs = ap (λ l. x ∷ l) (append_assoc xs ys zs)

module _ (handle : ℕ) (members : StringMap Member2) (base : List Call) where
  -- Since the registry had these members and this log, as long as the subscription stands, its
  -- function was called with the entry of every member that this node owns and that has changed.
  pub record IsDelivered (r : Registry) : Type 0 where
    pub allocated : handle < r.next_handle
    pub grown : Extends base r.calls
    pub called :
        IsSub handle r.subs
        → (id : String) (e : Member2) → lookup id r.members ≡ some e
        → e.version.owner_id ≡ r.local_id
        → id ≢ r.local_id
        → (lookup id members ≡ some e) ⊎ IsCalled handle e grown.0

  -- More calls at the head of the log.
  more :
      (new calls calls' : List Call)
      → calls ≡ new ++ base
      → Extends calls calls'
      → Extends base calls'
  more new calls calls' e (newer, e') =
      (newer ++ new, e' ∙ ap (λ l. newer ++ l) e ∙ append_assoc newer new base)

  either :
      (id : String) (e : Member2) (newer new : List Call)
      → (lookup id members ≡ some e) ⊎ IsCalled handle e new
      → (lookup id members ≡ some e) ⊎ IsCalled handle e (newer ++ new)
  either id e newer new (inl same) = inl same
  either id e newer new (inr h) = inr (IsCalled-append handle e newer new h)

  Follows-IsDelivered : (r r' : Registry) → Follows r r' → IsDelivered r → IsDelivered r'
  unfolding more
  Follows-IsDelivered r r' f h = record {
    allocated = omega (arith, h.allocated, f.handles);
    grown = more h.grown.0 r.calls r'.calls h.grown.1 f.calls;
    called = λ sub id e found owned other. either id e f.calls.0 h.grown.0 (
        h.called (f.subs handle h.allocated sub) id e (sym (ap (lookup id) f.members) ∙ found)
          (owned ∙ f.local) (λ p. other (p ∙ sym f.local)));
  }

  module _ (rt : Runtime) where
    accepted-IsDelivered :
        (r : Registry) (m : Member2) (owner : Bool)
        → (owner ≡ true) ⊎ (m.version.owner_id ≢ r.local_id)
        → IsDelivered r
        → IsDelivered (notify_subscribers_locked (set_member_locked rt r m) m owner)
    unfolding notify_subscribers_locked set_member_locked more
    accepted-IsDelivered r m owner o h =
        let told = notify m owner r.subs [] in
        record {
          allocated = h.allocated;
          grown =
              more h.grown.0 r.calls (notify m owner r.subs r.calls) h.grown.1
                (told, notify-append m owner r.subs [] r.calls);
          called = λ sub id e found owned other. elim (string_dec m.state.id id) [
            | yes p ↦
                let same : m ≡ e = ground (arith, lookup-insert m.state.id id m r.members) in
                inr (
                  IsCalled-before handle e told h.grown.0 (
                    subst (λ u. IsCalled handle u told) same
                      (accepted_owner rt handle r [] m owner o
                        (ap (λ (u : Member2). u.version.owner_id) same ∙ owned) sub)))
            | no n ↦
                let old : lookup id r.members ≡ some e =
                  ground (arith, lookup-insert m.state.id id m r.members) in
                either id e told h.grown.0 (h.called sub id e old owned other)
          ];
        }

    IsDelivered-kept : IsKept rt IsDelivered
    IsDelivered-kept = record {
      frame = λ r r' f h. Follows-IsDelivered r r' f h;
      accepted = λ r m owner _ _ o h. accepted-IsDelivered r m owner o h;
      heard =
          λ r id now _ h. record { allocated = h.allocated; grown = h.grown; called = h.called };
    }

    deleted-IsDelivered :
        (r : Registry) (id : String) → IsDelivered r → IsDelivered (delete_member_locked rt r id)
    unfolding delete_member_locked
    deleted-IsDelivered r id h = record {
      allocated = h.allocated;
      grown = h.grown;
      called = λ sub j e found owned other.
          h.called sub j e (ground (arith, lookup-erase id j r.members)) owned other;
    }

    pub run-IsDelivered :
        (r : Registry) (ops : List Op) → IsDelivered r → IsDelivered (run rt r ops)
    run-IsDelivered =
        run-kept IsDelivered-kept (record { deleted = λ r id _ h. deleted-IsDelivered r id h })
