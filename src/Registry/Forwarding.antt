-- ===== src/Registry/Forwarding.antt =====
-- What a subscription sees of the members that this node owns: pkg/node subscribes the cluster, which
-- forwards each update to the other nodes.
use fuddle.Rpc.{Member2}
use fuddle.StringMap.{lookup, lookup-insert, lookup-erase}
use fuddle.Metrics.{Runtime}
use fuddle.Registry.State.{
  Registry, SubHandle, Call, set_member_locked, delete_member_locked, notify,
  notify_subscribers_locked, wants,
}
use fuddle.Registry.Runs.{Op, run}
use fuddle.Registry.Runs.Kept.{IsCalled, IsSub, Follows, IsKept, IsCalled-Extends, notify-grows}
use fuddle.Registry.Runs.Sweep.{run-kept}
use fuddle.Prelude.{
  ℕ, ◌<◌, String, ◌≡◌, refl, sym, subst, ap, ◌∙◌, ◌≢◌, ◌⊎◌, inl, inr, Bool, true, some, List, [],
  ◌∷◌, arith, string_dec,
}

-- As long as the subscription stands, its function was called with the entry of every member that this
-- node owns, but for its own entry.
pub record IsForwarded (handle : ℕ) (r : Registry) : Type 0 where
  pub allocated : handle < r.next_handle
  pub forwarded :
      IsSub handle r.subs
      → (id : String) (e : Member2) → lookup id r.members ≡ some e
      → e.version.owner_id ≡ r.local_id
      → id ≢ r.local_id
      → IsCalled handle e r.calls

pub wants_owner : (s : SubHandle) → wants true s ≡ true
unfolding wants
wants_owner s = ground arith

-- An update of a member that this node owns is given to every subscription.
notify-IsCalled :
    (m : Member2) (subs : List SubHandle) (calls : List Call) (handle : ℕ)
    → IsSub handle subs
    → IsCalled handle m (notify m true subs calls)
unfolding notify wants
notify-IsCalled m [] calls handle h = absurd h
notify-IsCalled m (s ∷ subs) calls handle (inr h) = notify-IsCalled m subs _ handle h
notify-IsCalled m (s ∷ subs) calls handle (inl e) =
    rw (wants_owner s) (notify-grows m true subs _ handle m (inl (e, refl)))

Follows-IsForwarded :
    (handle : ℕ) (r r' : Registry) → Follows r r' → IsForwarded handle r → IsForwarded handle r'
Follows-IsForwarded handle r r' f h = record {
  allocated = omega (arith, h.allocated, f.handles);
  forwarded = λ sub id e found owned other. IsCalled-Extends handle e r.calls r'.calls f.calls (
      h.forwarded (f.subs handle h.allocated sub) id e (sym (ap (lookup id) f.members) ∙ found)
        (owned ∙ f.local) (λ p. other (p ∙ sym f.local)));
}

module _ (rt : Runtime) (handle : ℕ) where
  pub accepted_owner :
      (r : Registry) (calls : List Call) (m : Member2) (owner : Bool)
      → (owner ≡ true) ⊎ (m.version.owner_id ≢ r.local_id)
      → m.version.owner_id ≡ r.local_id
      → IsSub handle r.subs
      → IsCalled handle m (notify m owner r.subs calls)
  accepted_owner r calls m owner (inl o) owned sub =
      subst (λ b. IsCalled handle m (notify m b r.subs calls)) (sym o)
        (notify-IsCalled m r.subs calls handle sub)
  accepted_owner r calls m owner (inr n) owned sub = absurd (n owned)

  accepted-IsForwarded :
      (r : Registry) (m : Member2) (owner : Bool)
      → (owner ≡ true) ⊎ (m.version.owner_id ≢ r.local_id)
      → IsForwarded handle r
      → IsForwarded handle (notify_subscribers_locked (set_member_locked rt r m) m owner)
  unfolding notify_subscribers_locked set_member_locked
  accepted-IsForwarded r m owner o h = record {
    allocated = h.allocated;
    forwarded = λ sub id e found owned other. elim (string_dec m.state.id id) [
      | yes p ↦
          let same : m ≡ e = ground (arith, lookup-insert m.state.id id m r.members) in
          subst (λ u. IsCalled handle u (notify m owner r.subs r.calls)) same
            (accepted_owner r r.calls m owner o
              (ap (λ (u : Member2). u.version.owner_id) same ∙ owned) sub)
      | no n ↦
          let old : lookup id r.members ≡ some e =
            ground (arith, lookup-insert m.state.id id m r.members) in
          notify-grows m owner r.subs r.calls handle e (h.forwarded sub id e old owned other)
    ];
  }

  IsForwarded-kept : IsKept rt (IsForwarded handle)
  IsForwarded-kept = record {
    frame = λ r r' f h. Follows-IsForwarded handle r r' f h;
    accepted = λ r m owner _ _ o h. accepted-IsForwarded r m owner o h;
    heard = λ r id now _ h. record { allocated = h.allocated; forwarded = h.forwarded };
  }

  deleted-IsForwarded :
      (r : Registry) (id : String)
      → IsForwarded handle r
      → IsForwarded handle (delete_member_locked rt r id)
  unfolding delete_member_locked
  deleted-IsForwarded r id h = record {
    allocated = h.allocated;
    forwarded = λ sub j e found owned other.
        h.forwarded sub j e (ground (arith, lookup-erase id j r.members)) owned other;
  }

  pub run-IsForwarded :
      (r : Registry) (ops : List Op) → IsForwarded handle r → IsForwarded handle (run rt r ops)
  run-IsForwarded =
      run-kept IsForwarded-kept (record { deleted = λ r id _ h. deleted-IsForwarded r id h })
