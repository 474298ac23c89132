-- ===== src/Registry/Liveness.antt =====
-- pkg/registry/registry/failuredetector.go. The updates that it makes read the clock anew, so a
-- round has a reading `clock` for each member beside its own `timestamp`.
use fuddle.Rpc.{Liveness, up, down, left, other, Member2}
use fuddle.StringMap.{lookup}
use fuddle.Metrics.{Runtime}
use fuddle.Registry.State.{Registry, update_member_locked, delete_member_locked}
use fuddle.Prelude.{
  ℕ, String, Bool, false, Option, none, some, List, [], ◌∷◌, ite, string_dec, if◌then◌else◌, int64,
  add64, sub64, ltb,
}

-- A missing entry of `lastSeen` reads as 0.
unfoldable pub or_time : Option ℕ → ℕ
or_time none = int64 0
or_time (some t) = t

-- Is the entry a tombstone whose time is up?
unfoldable pub has_left : Member2 → Liveness → ℕ → Bool
has_left member left timestamp = ltb member.expiry timestamp
has_left member up timestamp = false
has_left member down timestamp = false
has_left member (other n) timestamp = false

module _ (rt : Runtime) where
  -- The `switch` of `updateOwnedMemberLivenessLocked`.
  unfoldable pub owned_liveness :
      Registry → String → Member2 → Liveness → (last_seen timestamp clock : ℕ) → Registry
  owned_liveness r id member up last_seen timestamp clock =
      if ltb r.heartbeat_timeout (sub64 timestamp last_seen)
      then update_member_locked rt r member.state down (add64 timestamp r.reconnect_timeout) []
          clock
      else r
  owned_liveness r id member down last_seen timestamp clock =
      if ltb member.expiry timestamp
      then update_member_locked rt r member.state left (add64 timestamp r.tombstone_timeout) []
          clock
      else r
  owned_liveness r id member left last_seen timestamp clock =
      if ltb member.expiry timestamp then delete_member_locked rt r id else r
  owned_liveness r id member (other n) last_seen timestamp clock = r

  unfoldable pub update_owned_member_liveness_locked :
      Registry → String → Member2 → (timestamp clock : ℕ) → Registry
  unfolding owned_liveness or_time
  update_owned_member_liveness_locked r id member timestamp clock =
      owned_liveness r id member member.liveness (or_time (lookup id r.last_seen)) timestamp clock

  -- This node takes a member whose owner has left: an up member becomes down.
  unfoldable pub take_ownership : Registry → Member2 → Liveness → (timestamp clock : ℕ) → Registry
  take_ownership r member up timestamp clock =
      update_member_locked rt r member.state down (add64 timestamp r.reconnect_timeout) [] clock
  take_ownership r member down timestamp clock =
      update_member_locked rt r member.state down member.expiry [] clock
  take_ownership r member left timestamp clock =
      update_member_locked rt r member.state left member.expiry [] clock
  take_ownership r member (other n) timestamp clock =
      update_member_locked rt r member.state (other n) member.expiry [] clock

  unfoldable pub owner_gone : Registry → Member2 → Option ℕ → (timestamp clock : ℕ) → Registry
  unfolding take_ownership
  owner_gone r member none timestamp clock = r
  owner_gone r member (some owner_last_contact) timestamp clock =
      if ltb r.heartbeat_timeout (sub64 timestamp owner_last_contact)
      then take_ownership r member member.liveness timestamp clock
      else r

  unfoldable pub update_remote_member_liveness_locked :
      Registry → String → Member2 → (timestamp clock : ℕ) → Registry
  unfolding has_left owner_gone
  update_remote_member_liveness_locked r id member timestamp clock =
      if has_left member member.liveness timestamp
      then delete_member_locked rt r id
      else owner_gone r member (lookup member.version.owner_id r.left_nodes) timestamp clock

  -- The loop visits keys of the map only, so the entry is there.
  unfoldable pub update_found_liveness :
      Registry → String → Option Member2 → (timestamp clock : ℕ) → Registry
  unfolding update_owned_member_liveness_locked update_remote_member_liveness_locked
  update_found_liveness r id none timestamp clock = r
  update_found_liveness r id (some m) timestamp clock =
      ite (string_dec m.version.owner_id r.local_id)
        (update_owned_member_liveness_locked r id m timestamp clock)
        (update_remote_member_liveness_locked r id m timestamp clock)

  unfoldable pub update_member_liveness_locked :
      Registry → String → (timestamp clock : ℕ) → Registry
  unfolding update_found_liveness
  update_member_liveness_locked r id timestamp clock =
      ite (string_dec id r.local_id) r
        (update_found_liveness r id (lookup id r.members) timestamp clock)

  -- `visits`: the keys in the order of this iteration, each with the clock's reading at its turn.
  unfoldable pub update_liveness : Registry → List (String × ℕ) → ℕ → Registry
  unfolding update_member_liveness_locked
  update_liveness r [] timestamp = r
  update_liveness r ((id, clock) ∷ visits) timestamp =
      update_liveness (update_member_liveness_locked r id timestamp clock) visits timestamp
