-- ===== src/Client/CatchUp.antt =====
-- Replica repair from end to end: a digest of the receiver (`ReplicaClient.Sync`), the answer of the
-- sender (`ReplicaServer.Sync`), and the updates that the receiver makes of it.
use mathlib.Core.List.{Mem, not-mem-nil, eq-or-mem_of_mem-cons}
use mathlib.Core.Logic.Or
use fuddle.Rpc.{Member2, Version2, MonotonicTimestamp}
use fuddle.StringMap.{StringMap, lookup, insert, erase}
use fuddle.Metrics.{Runtime}
use fuddle.Registry.Version.{copy_member, copy_member_state, copy_version}
use fuddle.Registry.Version.Order.{IsNewer, compare_versions-IsNewer, IsNewer-irrefl}
use fuddle.Registry.State.{Registry, outdated}
use fuddle.Registry.Members.{remote_update}
use fuddle.Registry.Repair.{digest, delta, timestamp_of, digest_priority, digest_rest}
use fuddle.Registry.Deltas.{IsLater, delta_members}
use fuddle.Registry.Digests.{digest-IsWithin}
use fuddle.Registry.Replication.{concerns, remote_update-local, remote_update-lookup}
use fuddle.Client.{ReplicaClient, apply_updates, finish_sync, sync}
use fuddle.Prelude.{
  String, ◌≡◌, ◌≢◌, ℤ, pos, leb_ℤ, length, inl, inr, refl, sym, subst, ◌∙◌, ap, Bool, true, false,
  not, ◌&&◌, Option, none, some, List, [], ◌∷◌, arith, if_intro, if◌then◌else◌,
}

-- There is an entry, and the version is not newer than it.
abbrev pub IsCaughtUp : Option Member2 → Version2 → Type 0
IsCaughtUp none v = ⊥
IsCaughtUp (some e) v = ¬ IsNewer v e.version

-- An update of a member leaves its entry at least as new as itself, and as new as it was.
caught_up :
    (o : Option Member2) (u : Member2) (b : Bool)
    → outdated o u.version ≡ b
    → IsCaughtUp (if not b then some u else o) u.version
unfolding outdated
caught_up o u false p = IsNewer-irrefl u.version
caught_up none u true p = absurd (ground arith)
caught_up (some e) u true p =
    λ newer. cc ((compare_versions-IsNewer e.version u.version).1 newer, p)

kept_up :
    (o : Option Member2) (u : Member2) (v : Version2) (c b : Bool)
    → outdated o u.version ≡ b
    → IsCaughtUp o v
    → IsCaughtUp (if c && not b then some u else o) v
unfolding outdated
kept_up o u v false b p h = h
kept_up none u v true b p h = absurd h
kept_up (some e) u v true true p h = h
kept_up (some e) u v true false p h =
    let newer = (compare_versions-IsNewer e.version u.version).0 p in λ k. ground arith

IsCaughtUp-prop : (o : Option Member2) (v : Version2) → IsProp (IsCaughtUp o v)
IsCaughtUp-prop none v = hlevel
IsCaughtUp-prop (some e) v = hlevel

module _ (rt : Runtime) (id : String) where
  update-kept :
      (v : Version2) (r : Registry) (u : Member2)
      → IsCaughtUp (lookup id r.members) v
      → IsCaughtUp (lookup id (remote_update rt r u).members) v
  update-kept v r u h =
      subst (λ o. IsCaughtUp o v) (sym (remote_update-lookup rt r u id))
        (kept_up (lookup id r.members) u v (concerns r.local_id id u)
          (outdated (lookup id r.members) u.version) refl h)

  update-caught :
      (r : Registry) (u : Member2)
      → concerns r.local_id id u ≡ true
      → IsCaughtUp (lookup id (remote_update rt r u).members) u.version
  update-caught r u c =
      subst (λ o. IsCaughtUp o u.version) (sym (remote_update-lookup rt r u id))
        (subst
          (λ b.
            IsCaughtUp
              (if b && not (outdated (lookup id r.members) u.version)
                then some u
                else lookup id r.members)
              u.version)
          (sym c)
          (caught_up (lookup id r.members) u (outdated (lookup id r.members) u.version) refl))

  updates-kept :
      (v : Version2) (r : Registry) (ms : List Member2)
      → IsCaughtUp (lookup id r.members) v
      → IsCaughtUp (lookup id (apply_updates rt r ms).members) v
  unfolding apply_updates
  updates-kept v r [] h = h
  updates-kept v r (u ∷ ms) h = updates-kept v (remote_update rt r u) ms (update-kept v r u h)

  pub updates-caught :
      (u : Member2) (r : Registry) (ms : List Member2)
      → concerns r.local_id id u ≡ true
      → Mem u ms
      → IsCaughtUp (lookup id (apply_updates rt r ms).members) u.version
  unfolding apply_updates
  updates-caught u r [] c m = absurd (not-mem-nil m)
  updates-caught u r (w ∷ ms) c m =
      Or.elim (IsCaughtUp-prop _ u.version) (eq-or-mem_of_mem-cons m)
        (λ e. updates-kept u.version (remote_update rt r w) ms (
          subst (λ w. IsCaughtUp (lookup id (remote_update rt r w).members) u.version) e
            (update-caught r u c)))
        (λ m'.
          updates-caught u (remote_update rt r w) ms
            (ap (λ l. concerns l id u) (remote_update-local rt r w) ∙ c) m')

priority_local :
    (ids : List String) (limit : ℤ) (r : Registry) (d : StringMap MonotonicTimestamp)
    → (digest_priority ids limit r d).0.local_id ≡ r.local_id
unfolding digest_priority
priority_local [] limit r d = refl
priority_local (id ∷ ids) limit r d =
    let d' = insert id (timestamp_of (lookup id r.members)) d in
    let r' = record r { priority_members = erase id r.priority_members } in
    if_intro (λ (x : Registry × StringMap MonotonicTimestamp × Bool). x.0.local_id ≡ r.local_id)
      (leb_ℤ limit (pos (length d'))) (λ _. refl) (λ _. priority_local ids limit r' d')

rest_local :
    (shuffled : List String) (limit : ℤ) (x : Registry × StringMap MonotonicTimestamp × Bool)
    → (digest_rest shuffled limit x).0.local_id ≡ x.0.local_id
unfolding digest_rest
rest_local shuffled limit (r, d, true) = refl
rest_local shuffled limit (r, d, false) = refl

digest-local :
    (r : Registry) (ids shuffled : List String) (limit : ℤ)
    → (digest r ids shuffled limit).0.local_id ≡ r.local_id
unfolding digest
digest-local r ids shuffled limit =
    rest_local shuffled limit (digest_priority ids limit r []) ∙ priority_local ids limit r []

concerns_copy :
    (local id : String) (m : Member2)
    → m.state.id ≡ id
    → id ≢ local
    → m.version.owner_id ≢ local
    → concerns local id (copy_member m) ≡ true
unfolding copy_member copy_member_state copy_version
concerns_copy local id m e n o = ground arith

-- A Sync that the other node answers brings the receiver up to date with the sender on every member
-- that its digest names and the sender has a later timestamp of, unless it is the receiver's own
-- entry or one that the receiver owns at the sender: the receiver then has an entry, and the sender's
-- is not newer.
pub sync-IsCaughtUp :
    (rt : Runtime) (c : ReplicaClient) (r s : Registry) (ids shuffled : List String) (id : String)
    (m : Member2)
    → lookup id s.members ≡ some m
    → m.state.id ≡ id
    → lookup id (digest r ids shuffled c.digest_limit).1 ≢ none
    → IsLater m.version.timestamp (timestamp_of (lookup id r.members))
    → id ≢ r.local_id
    → m.version.owner_id ≢ r.local_id
    → IsCaughtUp
        (lookup id (sync rt c r ids shuffled (λ d. some (delta s d).1)).1.members)
        m.version
unfolding sync finish_sync copy_member copy_version
sync-IsCaughtUp rt c r s ids shuffled id m known keyed named later n o =
    let (r', d) = digest r ids shuffled c.digest_limit in
    let f = (digest-IsWithin r ids shuffled c.digest_limit).faithful in
    elim (f.1 id) [
      | inl e ↦ absurd (named e)
      | inr e ↦
          updates-caught rt id (copy_member m) r' (delta s d).1
            (concerns_copy r'.local_id id m keyed
              (λ p. n (p ∙ digest-local r ids shuffled c.digest_limit))
              (λ p. o (p ∙ digest-local r ids shuffled c.digest_limit)))
            ((delta_members s d f.0).1 id (timestamp_of (lookup id r.members)) m e known later)
    ]
