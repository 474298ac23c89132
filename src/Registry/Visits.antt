-- ===== src/Registry/Visits.antt =====
-- A visit of the failure detector to one member, seen from another: it leaves what the other's own
-- visit reads as it was.
use fuddle.Rpc.{Member2, MemberState, Liveness, up, down, left, other}
use fuddle.StringMap.{lookup, lookup-insert, lookup-erase}
use fuddle.Metrics.{Runtime}
use fuddle.Registry.Options.{Opt}
use fuddle.Registry.State.{
  Registry, outdated, next_version, next_version_locked, set_member_locked, delete_member_locked,
  notify_subscribers_locked, update_member_at, update_member_locked,
}
use fuddle.Registry.Liveness.{
  owned_liveness, take_ownership, owner_gone, has_left, update_found_liveness,
  update_member_liveness_locked,
}
use fuddle.Registry.Keys.{IsKeyed, IsKeyed-stable, IsKeyed-deletes}
use fuddle.Registry.Runs.Kept.{IsStable-IsKept}
use fuddle.Registry.Runs.Sweep.{update_member_liveness_locked-stable}
use fuddle.Prelude.{
  ℕ, String, ◌≡◌, refl, sym, ◌∙◌, ◌≢◌, Option, none, some, List, [], arith, string_dec, ite_intro,
  if_intro, sub64, ltb,
}

-- The registries agree on what the visit of the member `id` reads.
pub record SameFor (id : String) (r r' : Registry) : Type 0 where
  pub local : r'.local_id ≡ r.local_id
  pub entry : lookup id r'.members ≡ lookup id r.members
  pub seen : lookup id r'.last_seen ≡ lookup id r.last_seen
  pub nodes : r'.left_nodes ≡ r.left_nodes
  pub heartbeat : r'.heartbeat_timeout ≡ r.heartbeat_timeout
  pub reconnect : r'.reconnect_timeout ≡ r.reconnect_timeout
  pub tombstone : r'.tombstone_timeout ≡ r.tombstone_timeout

pub same_self : (id : String) (r : Registry) → SameFor id r r
same_self id r = record {
  local = refl;
  entry = refl;
  seen = refl;
  nodes = refl;
  heartbeat = refl;
  reconnect = refl;
  tombstone = refl;
}

pub same_trans : (id : String) (r s t : Registry) → SameFor id r s → SameFor id s t → SameFor id r t
same_trans id r s t h k = record {
  local = k.local ∙ h.local;
  entry = k.entry ∙ h.entry;
  seen = k.seen ∙ h.seen;
  nodes = k.nodes ∙ h.nodes;
  heartbeat = k.heartbeat ∙ h.heartbeat;
  reconnect = k.reconnect ∙ h.reconnect;
  tombstone = k.tombstone ∙ h.tombstone;
}

module _ (rt : Runtime) (id : String) where
  update_member_at-SameFor :
      (r : Registry) (m : MemberState) (l : Liveness) (expiry now : ℕ)
      → m.id ≢ id
      → SameFor id r (update_member_at rt r m l expiry now)
  unfolding update_member_at set_member_locked notify_subscribers_locked next_version_locked
  update_member_at-SameFor r m l expiry now n =
      ite_intro (SameFor id r) (string_dec m.id r.local_id) (λ _. same_self id r)
        (λ _.
          if_intro (SameFor id r) (outdated (lookup m.id r.members) (next_version r now))
            (λ _. record {
              local = refl;
              entry = refl;
              seen = refl;
              nodes = refl;
              heartbeat = refl;
              reconnect = refl;
              tombstone = refl;
            })
            (λ _. record {
              local = refl;
              entry = ground (
                arith,
                lookup-insert m.id id
                    (record {
                      state = m;
                      liveness = l;
                      version = next_version r now;
                      expiry = expiry;
                    })
                    r.members,
              );
              seen =
                  ground (
                    arith,
                    lookup-insert m.id id now r.last_seen,
                    lookup-erase m.id id r.last_seen,
                  );
              nodes = refl;
              heartbeat = refl;
              reconnect = refl;
              tombstone = refl;
            }))

  update_member_locked-SameFor :
      (r : Registry) (m : MemberState) (l : Liveness) (expiry : ℕ) (opts : List Opt) (clock : ℕ)
      → m.id ≢ id
      → SameFor id r (update_member_locked rt r m l expiry opts clock)
  unfolding update_member_locked
  update_member_locked-SameFor r m l expiry opts clock n = update_member_at-SameFor r m l expiry _ n

  delete_member-SameFor :
      (r : Registry) (j : String) → j ≢ id → SameFor id r (delete_member_locked rt r j)
  unfolding delete_member_locked
  delete_member-SameFor r j n = record {
    local = refl;
    entry = ground (arith, lookup-erase j id r.members);
    seen = ground (arith, lookup-erase j id r.last_seen);
    nodes = refl;
    heartbeat = refl;
    reconnect = refl;
    tombstone = refl;
  }

  owned_liveness-SameFor :
      (r : Registry) (j : String) (m : Member2) (l : Liveness) (seen timestamp clock : ℕ)
      → j ≢ id
      → m.state.id ≢ id
      → SameFor id r (owned_liveness rt r j m l seen timestamp clock)
  unfolding owned_liveness
  owned_liveness-SameFor r j m up seen timestamp clock n k =
      if_intro (SameFor id r) (ltb r.heartbeat_timeout (sub64 timestamp seen))
        (λ _. update_member_locked-SameFor r m.state down _ [] clock k) (λ _. same_self id r)
  owned_liveness-SameFor r j m down seen timestamp clock n k =
      if_intro (SameFor id r) (ltb m.expiry timestamp)
        (λ _. update_member_locked-SameFor r m.state left _ [] clock k) (λ _. same_self id r)
  owned_liveness-SameFor r j m left seen timestamp clock n k =
      if_intro (SameFor id r) (ltb m.expiry timestamp) (λ _. delete_member-SameFor r j n)
        (λ _. same_self id r)
  owned_liveness-SameFor r j m (other l) seen timestamp clock n k = same_self id r

  take_ownership-SameFor :
      (r : Registry) (m : Member2) (l : Liveness) (timestamp clock : ℕ)
      → m.state.id ≢ id
      → SameFor id r (take_ownership rt r m l timestamp clock)
  unfolding take_ownership
  take_ownership-SameFor r m up timestamp clock k =
      update_member_locked-SameFor r m.state down _ [] clock k
  take_ownership-SameFor r m down timestamp clock k =
      update_member_locked-SameFor r m.state down _ [] clock k
  take_ownership-SameFor r m left timestamp clock k =
      update_member_locked-SameFor r m.state left _ [] clock k
  take_ownership-SameFor r m (other l) timestamp clock k =
      update_member_locked-SameFor r m.state (other l) _ [] clock k

  owner_gone-SameFor :
      (r : Registry) (m : Member2) (contact : Option ℕ) (timestamp clock : ℕ)
      → m.state.id ≢ id
      → SameFor id r (owner_gone rt r m contact timestamp clock)
  unfolding owner_gone
  owner_gone-SameFor r m none timestamp clock k = same_self id r
  owner_gone-SameFor r m (some contact) timestamp clock k =
      if_intro (SameFor id r) (ltb r.heartbeat_timeout (sub64 timestamp contact))
        (λ _. take_ownership-SameFor r m m.liveness timestamp clock k) (λ _. same_self id r)

  found-SameFor :
      (r : Registry) (j : String) (o : Option Member2) (timestamp clock : ℕ)
      → IsKeyed r
      → lookup j r.members ≡ o
      → j ≢ id
      → SameFor id r (update_found_liveness rt r j o timestamp clock)
  unfolding update_found_liveness
  found-SameFor r j none timestamp clock keyed e n = same_self id r
  found-SameFor r j (some m) timestamp clock keyed e n =
      let k : m.state.id ≢ id = λ p. n (sym (keyed j m e) ∙ p) in
      ite_intro (SameFor id r) (string_dec m.version.owner_id r.local_id)
        (λ _. owned_liveness-SameFor r j m m.liveness _ timestamp clock n k)
        (λ _.
          if_intro (SameFor id r) (has_left m m.liveness timestamp)
            (λ _. delete_member-SameFor r j n) (λ _. owner_gone-SameFor r m _ timestamp clock k))

  pub visit-SameFor :
      (r : Registry) (j : String) (timestamp clock : ℕ)
      → IsKeyed r
      → j ≢ id
      → SameFor id r (update_member_liveness_locked rt r j timestamp clock)
  unfolding update_member_liveness_locked
  visit-SameFor r j timestamp clock keyed n =
      ite_intro (SameFor id r) (string_dec j r.local_id) (λ _. same_self id r)
        (λ _. found-SameFor r j (lookup j r.members) timestamp clock keyed refl n)

  pub visit-IsKeyed :
      (r : Registry) (j : String) (timestamp clock : ℕ)
      → IsKeyed r
      → IsKeyed (update_member_liveness_locked rt r j timestamp clock)
  visit-IsKeyed r j timestamp clock =
      update_member_liveness_locked-stable (IsStable-IsKept rt _ (IsKeyed-stable rt))
        (IsKeyed-deletes rt) r j timestamp clock
