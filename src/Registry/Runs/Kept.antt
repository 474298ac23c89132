-- ===== src/Registry/Runs/Kept.antt =====
-- The steps by which a call changes a registry, and what a property has to keep to be kept by calls.
use fuddle.Rpc.{Member2, Version2, SubscribeRequest}
use fuddle.StringMap.{StringMap, lookup, insert}
use fuddle.Metrics.{Runtime}
use fuddle.Registry.State.{
  Registry, SubHandle, Call, set_member_locked, delete_member_locked, outdated, wants, notify,
  notify_subscribers_locked,
}
use fuddle.Registry.Members.{is_owned_up}
use fuddle.Registry.Subscribe.{add_sub, send_all, or_all, subscribe, drop_sub, unsubscribe, updates}
use native.Mathlib.Decide.{ℕ_discrete}
use fuddle.Prelude.{
  ite, ℕ, ◌≤◌, ◌<◌, String, ◌≡◌, refl, ◌≢◌, ◌⊎◌, inl, inr, Bool, Option, true, false, List, [], ◌∷◌,
  ◌++◌, sym, subst, ap, ◌∙◌, arith, if◌then◌else◌,
}

-- Was the function of this subscription called with this update?
abbrev pub IsCalled : ℕ → Member2 → List Call → Type 0
IsCalled handle update [] = ⊥
IsCalled handle update (c ∷ calls) =
    ((c.handle ≡ handle) × (c.update ≡ update)) ⊎ IsCalled handle update calls

abbrev pub IsSub : ℕ → List SubHandle → Type 0
IsSub handle [] = ⊥
IsSub handle (s ∷ subs) = (s.handle ≡ handle) ⊎ IsSub handle subs

-- The log of calls grew, and by what.
abbrev pub Extends : List Call → List Call → Type 0
Extends calls calls' = (new : List Call) × (calls' ≡ new ++ calls)

pub IsCalled-append :
    (handle : ℕ) (u : Member2) (new calls : List Call)
    → IsCalled handle u calls
    → IsCalled handle u (new ++ calls)
IsCalled-append handle u [] calls h = h
IsCalled-append handle u (c ∷ new) calls h = inr (IsCalled-append handle u new calls h)

pub IsCalled-Extends :
    (handle : ℕ) (u : Member2) (calls calls' : List Call)
    → Extends calls calls'
    → IsCalled handle u calls
    → IsCalled handle u calls'
IsCalled-Extends handle u calls calls' (new, e) h =
    subst (IsCalled handle u) (sym e) (IsCalled-append handle u new calls h)

-- The second registry has the members of the first, has made its calls, and of the subscriptions that
-- the first may have it has no others.
pub record Follows (r r' : Registry) : Type 0 where
  pub local : r'.local_id ≡ r.local_id
  pub members : r'.members ≡ r.members
  pub seen : r'.last_seen ≡ r.last_seen
  pub metrics : r'.metrics ≡ r.metrics
  pub calls : Extends r.calls r'.calls
  pub subs : (handle : ℕ) → handle < r.next_handle → IsSub handle r'.subs → IsSub handle r.subs
  pub handles : r.next_handle ≤ r'.next_handle

if-append :
    (b : Bool) (c : Call) (calls more : List Call)
    → (if b then c ∷ (calls ++ more) else calls ++ more) ≡ (if b then c ∷ calls else calls) ++ more
if-append true c calls more = refl
if-append false c calls more = refl

pub notify-append :
    (m : Member2) (owner : Bool) (subs : List SubHandle) (calls more : List Call)
    → notify m owner subs (calls ++ more) ≡ notify m owner subs calls ++ more
unfolding notify
notify-append m owner [] calls more = refl
notify-append m owner (s ∷ subs) calls more =
    let c : Call = record { handle = s.handle; update = m } in
    ap (notify m owner subs) (if-append (wants owner s) c calls more)
    ∙ notify-append m owner subs (if wants owner s then c ∷ calls else calls) more

pub notify-grows :
    (m : Member2) (owner : Bool) (subs : List SubHandle) (calls : List Call) (handle : ℕ)
    (u : Member2)
    → IsCalled handle u calls
    → IsCalled handle u (notify m owner subs calls)
notify-grows m owner subs calls handle u =
    IsCalled-Extends handle u calls _ (notify m owner subs [], notify-append m owner subs [] calls)

pub notify-Follows :
    (r : Registry) (m : Member2) (owner : Bool) → Follows r (notify_subscribers_locked r m owner)
unfolding notify_subscribers_locked
notify-Follows r m owner = record {
  local = refl;
  members = refl;
  seen = refl;
  metrics = refl;
  calls = (notify m owner r.subs [], notify-append m owner r.subs [] r.calls);
  subs = λ handle l h. h;
  handles = omega arith;
}

pub aside :
    (r : Registry) (v : Option Version2) (n : StringMap ℕ) (p : StringMap (Unit {0}))
    → Follows r (record r { last_version = v; left_nodes = n; priority_members = p })
aside r v n p = record {
  local = refl;
  members = refl;
  seen = refl;
  metrics = refl;
  calls = ([], refl);
  subs = λ handle l h. h;
  handles = omega arith;
}

pub add_sub-Follows : (r : Registry) (owner_only : Bool) → Follows r (add_sub r owner_only).0
unfolding add_sub
add_sub-Follows r owner_only = record {
  local = refl;
  members = refl;
  seen = refl;
  metrics = refl;
  calls = ([], refl);
  subs = λ handle l h. elim h [ inl e ↦ absurd (omega (arith, e, l)) | inr h' ↦ h' ];
  handles = omega arith;
}

pub send_all-append :
    (own : ℕ) (ms : List Member2) (calls more : List Call)
    → send_all own ms (calls ++ more) ≡ send_all own ms calls ++ more
unfolding send_all
send_all-append own [] calls more = refl
send_all-append own (m ∷ ms) calls more =
    send_all-append own ms (record { handle = own; update = m } ∷ calls) more

pub subscribe-Follows :
    (r : Registry) (req : Option SubscribeRequest) → Follows r (subscribe r req).0
unfolding subscribe
subscribe-Follows r req =
    let f = add_sub-Follows r (or_all req).owner_only in
    record {
      local = f.local;
      members = f.members;
      seen = f.seen;
      metrics = f.metrics;
      calls =
          let us = updates (add_sub r (or_all req).owner_only).0 (or_all req) in
          (send_all r.next_handle us [], send_all-append r.next_handle us [] r.calls);
      subs = f.subs;
      handles = f.handles;
    }

IsSub-ite {κ} :
    {Q : Type κ} (d : Dec Q) (s : SubHandle) (rest subs : List SubHandle) (handle : ℕ)
    → (IsSub handle rest → IsSub handle subs)
    → IsSub handle (ite d rest (s ∷ rest))
    → IsSub handle (s ∷ subs)
IsSub-ite (yes q) s rest subs handle f h = inr (f h)
IsSub-ite (no n) s rest subs handle f (inl e) = inl e
IsSub-ite (no n) s rest subs handle f (inr h) = inr (f h)

IsSub-drop_sub :
    (own : ℕ) (subs : List SubHandle) (handle : ℕ)
    → IsSub handle (drop_sub own subs)
    → IsSub handle subs
unfolding drop_sub
IsSub-drop_sub own [] handle h = h
IsSub-drop_sub own (s ∷ subs) handle h =
    IsSub-ite (ℕ_discrete s.handle own) s (drop_sub own subs) subs handle
      (IsSub-drop_sub own subs handle) h

pub unsubscribe-Follows : (r : Registry) (handle : ℕ) → Follows r (unsubscribe r handle)
unfolding unsubscribe
unsubscribe-Follows r own = record {
  local = refl;
  members = refl;
  seen = refl;
  metrics = refl;
  calls = ([], refl);
  subs = λ handle l h. IsSub-drop_sub own r.subs handle h;
  handles = omega arith;
}

module _ (rt : Runtime) (P : Registry → Type 0) where
  pub record IsStable : Type 0 where
    pub frame : (r r' : Registry) → Follows r r' → P r → P r'
    pub stored :
        (r : Registry) (m : Member2)
        → m.state.id ≢ r.local_id
        → outdated (lookup m.state.id r.members) m.version ≡ false
        → P r
        → P (set_member_locked rt r m)
    pub heard :
        (r : Registry) (id : String) (now : ℕ)
        → is_owned_up r.local_id (lookup id r.members) ≡ true
        → P r
        → P (record r { last_seen = insert id now r.last_seen })

  -- The same, but about an accepted update with the calls that it makes.
  pub record IsKept : Type 0 where
    pub frame : (r r' : Registry) → Follows r r' → P r → P r'
    pub accepted :
        (r : Registry) (m : Member2) (owner : Bool)
        → m.state.id ≢ r.local_id
        → outdated (lookup m.state.id r.members) m.version ≡ false
        → (owner ≡ true) ⊎ (m.version.owner_id ≢ r.local_id)
        → P r
        → P (notify_subscribers_locked (set_member_locked rt r m) m owner)
    pub heard :
        (r : Registry) (id : String) (now : ℕ)
        → is_owned_up r.local_id (lookup id r.members) ≡ true
        → P r
        → P (record r { last_seen = insert id now r.last_seen })

  pub IsStable-IsKept : IsStable → IsKept
  IsStable-IsKept s = record {
    frame = s.frame;
    accepted = λ r m owner n e _ h.
        s.frame _ _ (notify-Follows (set_member_locked rt r m) m owner) (s.stored r m n e h);
    heard = s.heard;
  }

  pub record KeepsDeletes : Type 0 where
    pub deleted :
        (r : Registry) (id : String) → id ≢ r.local_id → P r → P (delete_member_locked rt r id)
