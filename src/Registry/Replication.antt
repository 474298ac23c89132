-- ===== src/Registry/Replication.antt =====
-- RemoteUpdate as replication: what one update does, and what the order of two updates changes.
use fuddle.Rpc.{Member2}
use fuddle.StringMap.{lookup, lookup-insert}
use fuddle.Metrics.{Runtime}
use fuddle.Registry.Version.{compare_versions}
use fuddle.Registry.Version.Order.{IsNewer, compare_versions-IsNewer}
use fuddle.Registry.State.{Registry, set_member_locked, outdated, notify_subscribers_locked}
use fuddle.Registry.Members.{remote_update}
use fuddle.Prelude.{
  String, ◌≡◌, refl, sym, ◌∙◌, ◌≢◌, ◌⊎◌, inl, inr, is_yes, not, ◌&&◌, Bool, true, false, Option,
  none, some, arith, string_dec, if◌then◌else◌,
}

-- Is the update one of the member `id`, and not one that only this node may make?
abbrev pub concerns : String → String → Member2 → Bool
concerns local id u =
    is_yes (string_dec u.state.id id)
    && not (is_yes (string_dec u.state.id local))
    && not (is_yes (string_dec u.version.owner_id local))

-- The entry under an id after an update, from the entry before it.
abbrev pub replicated : String → String → Member2 → Option Member2 → Option Member2
replicated local id u o = if concerns local id u && not (outdated o u.version) then some u else o

pub remote_update-local :
    (rt : Runtime) (r : Registry) (u : Member2) → (remote_update rt r u).local_id ≡ r.local_id
unfolding remote_update set_member_locked notify_subscribers_locked
remote_update-local rt r u = ground arith

pub remote_update-lookup :
    (rt : Runtime) (r : Registry) (u : Member2) (id : String)
    → lookup id (remote_update rt r u).members ≡ replicated r.local_id id u (lookup id r.members)
unfolding remote_update set_member_locked notify_subscribers_locked
remote_update-lookup rt r u id = ground (arith, lookup-insert u.state.id id u r.members)

pub outdated_self : (u : Member2) → outdated (some u) u.version ≡ true
unfolding outdated compare_versions
outdated_self u = ground arith

module _ (rt : Runtime) (r : Registry) (u : Member2) where
  replicated_again :
      (v : Member2) (id : String)
      → lookup id (remote_update rt (remote_update rt r u) v).members
        ≡ replicated r.local_id id v (replicated r.local_id id u (lookup id r.members))
  replicated_again v id =
      remote_update-lookup rt (remote_update rt r u) v id
      ∙ rw (remote_update-local rt r u, remote_update-lookup rt r u id)

  -- Applying an update again changes no entry.
  pub remote_update_idempotent :
      (id : String)
      → lookup id (remote_update rt (remote_update rt r u) u).members
        ≡ lookup id (remote_update rt r u).members
  remote_update_idempotent id =
      replicated_again u id
      ∙ replicated_idem (concerns r.local_id id u) (lookup id r.members)
      ∙ sym (remote_update-lookup rt r u id)
    where
      self : outdated (some u) u.version ≡ true
      self = outdated_self u

      replicated_idem :
          (c : Bool) (o : Option Member2)
          → let once = if c && not (outdated o u.version) then some u else o in
            (if c && not (outdated once u.version) then some u else once) ≡ once
      replicated_idem c o = ground (arith, self)

-- One of the updates is of a newer version, or they are of different members.
abbrev pub IsOrdered : Member2 → Member2 → Type 0
IsOrdered u v =
    IsNewer u.version v.version ⊎ (IsNewer v.version u.version ⊎ (u.state.id ≢ v.state.id))

-- What an update leaves, if `c` says that it concerns the entry.
abbrev after : Bool → Member2 → Option Member2 → Option Member2
after c u o = if c && not (outdated o u.version) then some u else o

after_comm :
    (a b : Bool) (u v : Member2) (o : Option Member2)
    → IsNewer u.version v.version
    → after b v (after a u o) ≡ after a u (after b v o)
unfolding outdated
after_comm a b u v none h = ground (
  arith,
  compare_versions-IsNewer u.version v.version,
  compare_versions-IsNewer v.version u.version,
)
after_comm a b u v (some e) h = ground (
  arith,
  compare_versions-IsNewer u.version v.version,
  compare_versions-IsNewer v.version u.version,
  compare_versions-IsNewer e.version v.version,
  compare_versions-IsNewer e.version u.version,
)

after_one :
    (a b : Bool) (u v : Member2) (o : Option Member2)
    → ¬ ((a ≡ true) × (b ≡ true))
    → after b v (after a u o) ≡ after a u (after b v o)
after_one true true u v o h = absurd (h (refl, refl))
after_one true false u v o h = refl
after_one false b u v o h = refl

concerns_id : (local id : String) (u : Member2) → concerns local id u ≡ true → u.state.id ≡ id
concerns_id local id u h = ground arith

replicated_comm :
    (local id : String) (u v : Member2) (o : Option Member2)
    → IsOrdered u v
    → replicated local id v (replicated local id u o)
      ≡ replicated local id u (replicated local id v o)
replicated_comm local id u v o (inl h) =
    after_comm (concerns local id u) (concerns local id v) u v o h
replicated_comm local id u v o (inr (inl h)) =
    sym (after_comm (concerns local id v) (concerns local id u) v u o h)
replicated_comm local id u v o (inr (inr h)) =
    after_one (concerns local id u) (concerns local id v) u v o
      (λ both. h (concerns_id local id u both.0 ∙ sym (concerns_id local id v both.1)))

-- Two updates from other nodes leave the same entries in either order, if one of them is of a newer
-- version or they are of different members.
pub remote_update_comm :
    (rt : Runtime) (r : Registry) (u v : Member2) (id : String)
    → IsOrdered u v
    → lookup id (remote_update rt (remote_update rt r u) v).members
      ≡ lookup id (remote_update rt (remote_update rt r v) u).members
remote_update_comm rt r u v id h =
    replicated_again rt r u v id
    ∙ replicated_comm r.local_id id u v (lookup id r.members) h
    ∙ sym (replicated_again rt r v u id)

-- Two updates of one member that different owners made in the same millisecond leave whichever came
-- first, on a node that does not know the member.
pub remote_update_tie :
    (rt : Runtime) (r : Registry) (u v : Member2)
    → u.state.id ≡ v.state.id
    → u.state.id ≢ r.local_id
    → u.version.owner_id ≢ r.local_id
    → v.version.owner_id ≢ r.local_id
    → u.version.owner_id ≢ v.version.owner_id
    → u.version.timestamp.timestamp ≡ v.version.timestamp.timestamp
    → lookup u.state.id r.members ≡ none
    → (lookup u.state.id (remote_update rt (remote_update rt r u) v).members ≡ some u)
      × (lookup u.state.id (remote_update rt (remote_update rt r v) u).members ≡ some v)
unfolding outdated compare_versions
remote_update_tie rt r u v same foreign fu fv owners times fresh = (
  replicated_again rt r u v u.state.id ∙ ground arith,
  replicated_again rt r v u u.state.id ∙ ground arith,
)
