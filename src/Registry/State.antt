-- ===== src/Registry/State.antt =====
-- pkg/registry/registry/registry.go: the registry's state and the steps that its operations share.
-- A method that changes the receiver returns the new registry.
use fuddle.Rpc.{Liveness, up, Member2, MemberState, Version2}
use fuddle.StringMap.{StringMap, lookup, insert, erase}
use fuddle.Metrics.{Runtime, Gauge, LabelledValue, new_gauge, inc, dec}
use fuddle.Registry.Version.{compare_versions}
use fuddle.Registry.Options.{Opt, Options, options_of}
use fuddle.Prelude.{
  ℕ, suc, String, Bool, true, false, not, ◌&&◌, Option, none, some, List, [], ◌∷◌, pos, leb_ℤ, ite,
  string_dec, if◌then◌else◌, int64, inc_uint64, leb,
}

-- `subHandle`; `handle` is the pointer by which `subs` holds it.
pub record SubHandle : Type 0 where
  pub handle : ℕ
  pub owner_only : Bool

-- A call of the `onUpdate` of a subscription.
pub record Call : Type 0 where
  pub handle : ℕ
  pub update : Member2

pub record Metrics : Type 0 where
  pub members_count : Gauge
  pub members_owned : Gauge

unfoldable pub new_metrics : Metrics
unfolding new_gauge
new_metrics = record { members_count = new_gauge; members_owned = new_gauge }

-- `next_handle` is the pointer of the next subscription, and `calls` the calls made so far of the
-- subscribers' functions, the latest first.
pub record Registry : Type 0 where
  pub local_id : String
  pub members : StringMap Member2
  pub last_seen : StringMap ℕ
  pub subs : List SubHandle
  pub last_version : Option Version2
  pub left_nodes : StringMap ℕ
  pub priority_members : StringMap (Unit {0})
  pub heartbeat_timeout : ℕ
  pub reconnect_timeout : ℕ
  pub tombstone_timeout : ℕ
  pub metrics : Metrics
  pub next_handle : ℕ
  pub calls : List Call

-- The counter of a version made at `now`, after the last version.
unfoldable pub next_counter : Option Version2 → ℕ → ℕ
next_counter none now = 0
next_counter (some last) now =
    if leb last.timestamp.timestamp now && leb now last.timestamp.timestamp
    then inc_uint64 last.timestamp.counter
    else 0

-- The version that `nextVersionLocked` makes.
unfoldable pub next_version : Registry → ℕ → Version2
unfolding next_counter
next_version r now = record {
  owner_id = r.local_id;
  timestamp = record { timestamp = now; counter = next_counter r.last_version now };
}

-- `nextVersionLocked`: the registry that remembers the version it made.
unfoldable pub next_version_locked : Registry → ℕ → Registry × Version2
unfolding next_version
next_version_locked r now = let v = next_version r now in (record r { last_version = some v }, v)

-- `notifySubscribersLocked`: who is called.
unfoldable pub wants : Bool → SubHandle → Bool
wants owner s = if s.owner_only && owner then true else not s.owner_only

unfoldable pub notify : Member2 → Bool → List SubHandle → List Call → List Call
unfolding wants
notify update owner [] calls = calls
notify update owner (s ∷ subs) calls =
    notify update owner subs
      (if wants owner s then record { handle = s.handle; update = update } ∷ calls else calls)

unfoldable pub notify_subscribers_locked : Registry → Member2 → Bool → Registry
unfolding notify
notify_subscribers_locked r update owner = record r { calls = notify update owner r.subs r.calls }

-- `membersForOwnerLocked`
unfoldable pub members_for_owner : String → StringMap Member2 → ℕ
members_for_owner id [] = 0
members_for_owner id ((k, m) ∷ ms) =
    let rest = members_for_owner id ms in ite (string_dec m.version.owner_id id) (suc rest) rest

-- Is an update at this version to be discarded, for the entry that the map has?
unfoldable pub outdated : Option Member2 → Version2 → Bool
outdated none version = false
outdated (some existing) version = leb_ℤ (compare_versions existing.version version) (pos 0)

-- The registry that `NewRegistry` makes before it adds the local member.
unfoldable pub empty_registry : String → Options → Registry
unfolding new_metrics
empty_registry local_id options = record {
  local_id = local_id;
  members = [];
  last_seen = [];
  subs = [];
  last_version = none;
  left_nodes = [];
  priority_members = [];
  heartbeat_timeout = options.heartbeat_timeout;
  reconnect_timeout = options.reconnect_timeout;
  tombstone_timeout = options.tombstone_timeout;
  metrics = new_metrics;
  next_handle = 0;
  calls = [];
}

module _ (rt : Runtime) where
  open rt use {to_lower, liveness_string}

  -- The labels that `setMemberLocked` and `deleteMemberLocked` give to the two gauges.
  unfoldable pub count_labels : Member2 → List LabelledValue
  count_labels m =
      record { label = "status"; value = to_lower (liveness_string m.liveness) }
      ∷ record { label = "owner"; value = m.version.owner_id }
      ∷ []

  unfoldable pub owned_labels : Member2 → List LabelledValue
  owned_labels m = record { label = "status"; value = to_lower (liveness_string m.liveness) } ∷ []

  -- The updates of the gauges for a member that enters the map, and for the entry that leaves it.
  unfoldable pub count_in : String → Member2 → Metrics → Metrics
  unfolding count_labels owned_labels
  count_in local m g = record {
    members_count = inc rt (count_labels m) g.members_count;
    members_owned =
        ite (string_dec m.version.owner_id local) (inc rt (owned_labels m) g.members_owned)
          g.members_owned;
  }

  unfoldable pub count_out : String → Option Member2 → Metrics → Metrics
  unfolding count_labels owned_labels
  count_out local none g = g
  count_out local (some m) g = record {
    members_count = dec rt (count_labels m) g.members_count;
    members_owned =
        ite (string_dec m.version.owner_id local) (dec rt (owned_labels m) g.members_owned)
          g.members_owned;
  }

  unfoldable pub set_member_locked : Registry → Member2 → Registry
  unfolding count_in count_out
  set_member_locked r m = record r {
    members = insert m.state.id m r.members;
    last_seen =
        ite (string_dec m.version.owner_id r.local_id)
          (insert m.state.id m.version.timestamp.timestamp r.last_seen)
          (erase m.state.id r.last_seen);
    metrics = count_in r.local_id m (count_out r.local_id (lookup m.state.id r.members) r.metrics);
  }

  unfoldable pub delete_member_locked : Registry → String → Registry
  unfolding count_out
  delete_member_locked r id = record r {
    members = erase id r.members;
    last_seen = erase id r.last_seen;
    metrics = count_out r.local_id (lookup id r.members) r.metrics;
  }

  -- `updateMemberLocked`, at the time `now` of the options.
  unfoldable pub update_member_at : Registry → MemberState → Liveness → ℕ → ℕ → Registry
  unfolding next_version_locked set_member_locked notify_subscribers_locked outdated
  update_member_at r member liveness expiry now = ite (string_dec member.id r.local_id) r (
      let (r', version) = next_version_locked r now in
      let versioned_member : Member2 = record {
        state = member;
        liveness = liveness;
        version = version;
        expiry = expiry;
      } in
      if outdated (lookup member.id r'.members) version
      then r'
      else notify_subscribers_locked (set_member_locked r' versioned_member) versioned_member true)

  unfoldable pub update_member_locked :
      Registry → MemberState → Liveness → ℕ → List Opt → ℕ → Registry
  unfolding update_member_at options_of
  update_member_locked r member liveness expiry opts clock =
      update_member_at r member liveness expiry (options_of opts clock).now

  unfoldable pub add_local_member : Registry → Option MemberState → ℕ → Registry
  unfolding next_version_locked set_member_locked
  add_local_member r none now = r
  add_local_member r (some state) now =
      let (r', version) = next_version_locked r now in
      set_member_locked r'
        (record { state = state; liveness = up; version = version; expiry = int64 0 })

  -- `NewRegistry`
  unfoldable pub new_registry : String → List Opt → ℕ → Registry
  unfolding empty_registry add_local_member options_of
  new_registry local_id opts clock =
      let options = options_of opts clock in
      add_local_member (empty_registry local_id options) options.local_member options.now
