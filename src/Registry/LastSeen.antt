-- ===== src/Registry/LastSeen.antt =====
-- The map lastSeen against the members that the node owns.
use fuddle.Rpc.{Member2, MemberState}
use fuddle.StringMap.{lookup, insert, lookup-insert, lookup-erase}
use fuddle.Metrics.{Runtime}
use fuddle.Registry.Options.{Opt, options_of}
use fuddle.Registry.State.{
  Registry, set_member_locked, delete_member_locked, empty_registry, add_local_member, new_registry,
  next_version_locked,
}
use fuddle.Registry.Members.{is_owned, is_owned_up}
use fuddle.Registry.Runs.{Op, run}
use fuddle.Registry.Runs.Kept.{IsStable, KeepsDeletes}
use fuddle.Registry.Runs.Sweep.{run-stable}
use fuddle.Prelude.{ℕ, String, ◌≡◌, refl, Bool, true, false, Option, none, some, List, arith}

abbrev pub has_time : Option ℕ → Bool
has_time none = false
has_time (some t) = true

-- A member has a time in lastSeen exactly if this node owns it.
abbrev pub TracksOwned : Registry → Type 0
TracksOwned r =
    (id : String) → has_time (lookup id r.last_seen) ≡ is_owned r.local_id (lookup id r.members)

module _ (rt : Runtime) where
  set_member-TracksOwned :
      (r : Registry) (m : Member2) → TracksOwned r → TracksOwned (set_member_locked rt r m)
  unfolding set_member_locked is_owned
  set_member-TracksOwned r m h id = ground (
    arith,
    h id,
    lookup-insert m.state.id id m r.members,
    lookup-insert m.state.id id m.version.timestamp.timestamp r.last_seen,
    lookup-erase m.state.id id r.last_seen,
  )

  delete_member-TracksOwned :
      (r : Registry) (id : String) → TracksOwned r → TracksOwned (delete_member_locked rt r id)
  unfolding delete_member_locked is_owned
  delete_member-TracksOwned r id h j =
      ground (arith, h j, lookup-erase id j r.members, lookup-erase id j r.last_seen)

  heard-TracksOwned :
      (r : Registry) (id : String) (now : ℕ)
      → is_owned_up r.local_id (lookup id r.members) ≡ true
      → TracksOwned r
      → TracksOwned (record r { last_seen = insert id now r.last_seen })
  unfolding is_owned is_owned_up
  heard-TracksOwned r id now e h j = ground (arith, h j, h id, lookup-insert id j now r.last_seen)

  TracksOwned-stable : IsStable rt TracksOwned
  TracksOwned-stable = record {
    frame = λ r r' c h id. rw (c.seen, c.local, c.members) (h id);
    stored = λ r m _ _ h. set_member-TracksOwned r m h;
    heard = heard-TracksOwned;
  }

  TracksOwned-deletes : KeepsDeletes rt TracksOwned
  TracksOwned-deletes = record { deleted = λ r id _ h. delete_member-TracksOwned r id h }

  add_local_member-TracksOwned :
      (r : Registry) (o : Option MemberState) (now : ℕ)
      → TracksOwned r
      → TracksOwned (add_local_member rt r o now)
  unfolding add_local_member
  add_local_member-TracksOwned r none now h = h
  add_local_member-TracksOwned r (some state) now h =
      set_member-TracksOwned (next_version_locked r now).0 _ h

  new_registry-TracksOwned :
      (local_id : String) (opts : List Opt) (clock : ℕ)
      → TracksOwned (new_registry rt local_id opts clock)
  unfolding new_registry empty_registry lookup is_owned
  new_registry-TracksOwned local_id opts clock =
      let options = options_of opts clock in
      add_local_member-TracksOwned (empty_registry local_id options) options.local_member
        options.now (λ id. refl)

  -- After any calls, an id has a time in lastSeen exactly if its member is owned by this node.
  pub run-TracksOwned :
      (local_id : String) (opts : List Opt) (clock : ℕ) (ops : List Op)
      → TracksOwned (run rt (new_registry rt local_id opts clock) ops)
  run-TracksOwned local_id opts clock ops =
      run-stable TracksOwned-stable TracksOwned-deletes _ ops
        (new_registry-TracksOwned local_id opts clock)
