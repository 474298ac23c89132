-- ===== src/Registry/Members.antt =====
-- pkg/registry/registry/registry.go: what members' owners and other nodes do to the registry, and
-- what is read from it.
use fuddle.Rpc.{Liveness, up, down, left, other, Member2, MemberState}
use fuddle.StringMap.{StringMap, lookup, insert, erase}
use fuddle.Metrics.{Runtime}
use fuddle.Registry.Options.{Opt, options_of}
use fuddle.Registry.State.{
  Registry, outdated, set_member_locked, notify_subscribers_locked, update_member_locked,
  members_for_owner,
}
use fuddle.Prelude.{
  ℕ, String, Bool, true, false, ◌&&◌, Option, none, some, List, [], ◌∷◌, ite, string_dec, is_yes,
  if◌then◌else◌, int64, add64, ltb,
}

unfoldable pub is_up : Liveness → Bool
is_up up = true
is_up down = false
is_up left = false
is_up (other n) = false

unfoldable pub local_id : Registry → String
local_id r = r.local_id

unfoldable pub member : Registry → String → Option Member2
member r id = lookup id r.members

unfoldable pub state_of : Option Member2 → Option MemberState
state_of none = none
state_of (some m) = some m.state

unfoldable pub member_state : Registry → String → Option MemberState
unfolding state_of
member_state r id = state_of (lookup id r.members)

-- The loops of `Members`, `MemberStates`, `OwnedMembers` and `UpMembers`.
unfoldable pub all_members : StringMap Member2 → List Member2
all_members [] = []
all_members ((k, m) ∷ ms) = m ∷ all_members ms

unfoldable pub all_states : StringMap Member2 → List MemberState
all_states [] = []
all_states ((k, m) ∷ ms) = m.state ∷ all_states ms

unfoldable pub owned_by : String → StringMap Member2 → List Member2
owned_by local [] = []
owned_by local ((k, m) ∷ ms) =
    let rest = owned_by local ms in ite (string_dec m.version.owner_id local) (m ∷ rest) rest

unfoldable pub up_of : StringMap Member2 → List Member2
unfolding is_up
up_of [] = []
up_of ((k, m) ∷ ms) = let rest = up_of ms in if is_up m.liveness then m ∷ rest else rest

unfoldable pub members : Registry → List Member2
unfolding all_members
members r = all_members r.members

unfoldable pub member_states : Registry → List MemberState
unfolding all_states
member_states r = all_states r.members

unfoldable pub owned_members : Registry → List Member2
unfolding owned_by
owned_members r = owned_by r.local_id r.members

unfoldable pub up_members : Registry → List Member2
unfolding up_of
up_members r = up_of r.members

unfoldable pub on_node_join : Registry → String → Registry
on_node_join r id = record r { left_nodes = erase id r.left_nodes }

unfoldable pub on_node_leave : Registry → String → List Opt → ℕ → Registry
unfolding options_of members_for_owner
on_node_leave r id opts clock =
    if ltb 0 (members_for_owner id r.members)
    then record r { left_nodes = insert id (options_of opts clock).now r.left_nodes }
    else r

-- Is the entry a member that this node owns and holds to be up?
unfoldable pub is_owned_up : String → Option Member2 → Bool
unfolding is_up
is_owned_up local none = false
is_owned_up local (some m) = is_yes (string_dec m.version.owner_id local) && is_up m.liveness

-- Is the entry a member that this node owns?
unfoldable pub is_owned : String → Option Member2 → Bool
is_owned local none = false
is_owned local (some m) = is_yes (string_dec m.version.owner_id local)

module _ (rt : Runtime) where
  unfoldable pub add_member : Registry → MemberState → List Opt → ℕ → Registry
  add_member r member opts clock = update_member_locked rt r member up (int64 0) opts clock

  -- The options are read twice: `clock` is the first reading of the time, `clock'` the second.
  unfoldable pub member_heartbeat : Registry → MemberState → List Opt → ℕ → ℕ → Registry
  unfolding is_owned_up options_of
  member_heartbeat r member opts clock clock' =
      if is_owned_up r.local_id (lookup member.id r.members)
      then record r { last_seen = insert member.id (options_of opts clock).now r.last_seen }
      else update_member_locked rt r member up (int64 0) opts clock'

  unfoldable pub remove_found : Registry → Option Member2 → List Opt → ℕ → ℕ → Registry
  unfolding options_of
  remove_found r none opts clock clock' = r
  remove_found r (some m) opts clock clock' =
      update_member_locked rt r m.state left (add64 (options_of opts clock).now r.tombstone_timeout)
        opts clock'

  unfoldable pub remove_member : Registry → String → List Opt → ℕ → ℕ → Registry
  unfolding remove_found
  remove_member r id opts clock clock' = remove_found r (lookup id r.members) opts clock clock'

  unfoldable pub remote_update : Registry → Member2 → Registry
  unfolding outdated is_owned
  remote_update r update = ite (string_dec update.state.id r.local_id) r (
      ite (string_dec update.version.owner_id r.local_id) r (
        let existing = lookup update.state.id r.members in
        if outdated existing update.version
        then r
        else notify_subscribers_locked (set_member_locked rt r update) update
            (is_owned r.local_id existing)))
