-- ===== src/RegistryV2.antt =====
-- pkg/registryv2/registry: the second version of the registry, as far as it is written. A dereference
-- of a nil entry is a panic.
pub mod Digest
pub mod Runs
pub mod Metered
pub mod Known
pub mod Agreement
use fuddle.Rpc.{Liveness, up, down, left, other, MemberState, Member2, MonotonicTimestamp, Version2}
use fuddle.StringMap.{StringMap, lookup, insert, erase}
use fuddle.Metrics.{Runtime, Gauge, LabelledValue, new_gauge, inc, dec}
use fuddle.Registry.Version.{copy_member, copy_member_state}
use fuddle.Registry.State.{next_counter}
use fuddle.Registry.Repair.{timestamp_of, digest_members, delta_from}
use fuddle.Prelude.{
  ℕ, ◌*◌, String, Bool, true, false, Option, none, some, List, [], ◌∷◌, ℤ, pos, negsuc, leb_ℤ, ltb,
  ite, string_dec, int64, add64, if◌then◌else◌, length,
}

pub record Metrics : Type 0 where
  pub members_count : Gauge
  pub members_owned : Gauge

pub record Registry : Type 0 where
  pub local_id : String
  pub members : StringMap Member2
  pub priority_members : StringMap (Unit {0})
  pub last_version : Option Version2
  pub tombstone_timeout : ℕ
  pub metrics : Metrics

pub record Options : Type 0 where
  pub local_member : Option MemberState
  pub tombstone_timeout : ℕ

unfoldable pub default_options : Options
default_options = record { local_member = none; tombstone_timeout = int64 (30 * 60 * 1000) }

pub data Opt : Type 0 where
  with_local_member : MemberState → Opt
  with_tombstone_timeout : ℕ → Opt

unfoldable pub apply : Opt → Options → Options
apply (with_local_member m) opts = record opts { local_member = some m }
apply (with_tombstone_timeout t) opts = record opts { tombstone_timeout = t }

unfoldable pub apply_all : List Opt → Options → Options
unfolding apply
apply_all [] options = options
apply_all (o ∷ opts) options = apply_all opts (apply o options)

-- Different owners at one time compare as equal here.
unfoldable pub compare_versions : Version2 → Version2 → ℤ
compare_versions lhs rhs =
    ite (string_dec lhs.owner_id rhs.owner_id)
      (if ltb lhs.timestamp.timestamp rhs.timestamp.timestamp
        then pos 1
        else if ltb rhs.timestamp.timestamp lhs.timestamp.timestamp
        then negsuc 0
        else if ltb lhs.timestamp.counter rhs.timestamp.counter
        then pos 1
        else if ltb rhs.timestamp.counter lhs.timestamp.counter
        then negsuc 0
        else pos 0)
      (if ltb lhs.timestamp.timestamp rhs.timestamp.timestamp
        then pos 1
        else if ltb rhs.timestamp.timestamp lhs.timestamp.timestamp
        then negsuc 0
        else pos 0)

unfoldable pub liveness_to_string : Liveness → String
liveness_to_string up = "up"
liveness_to_string down = "down"
liveness_to_string left = "left"
liveness_to_string (other n) = "unknown"

unfoldable pub up_state : Member2 → Liveness → Option MemberState
up_state m up = some (copy_member_state m.state)
up_state m down = none
up_state m left = none
up_state m (other n) = none

unfoldable pub found_member : Option Member2 → Option MemberState
unfolding up_state
found_member none = none
found_member (some m) = up_state m m.liveness

unfoldable pub member : Registry → String → Option MemberState
unfolding found_member
member r id = found_member (lookup id r.members)

unfoldable pub next_version : Registry → ℕ → Version2
unfolding next_counter
next_version r now = record {
  owner_id = r.local_id;
  timestamp = record { timestamp = now; counter = next_counter r.last_version now };
}

unfoldable pub next_version_locked : Registry → ℕ → Registry × Version2
unfolding next_version
next_version_locked r now = let v = next_version r now in (record r { last_version = some v }, v)

unfoldable pub outdated : Option Member2 → Version2 → Bool
outdated none version = false
outdated (some existing) version = leb_ℤ (compare_versions existing.version version) (pos 0)

-- What a call of `OwnedMemberLeave` ends in.
pub data Outcome : Type 0 where
  done : Registry → Outcome
  panics : Outcome

module _ (rt : Runtime) where
  unfoldable pub count_labels : Member2 → List LabelledValue
  unfolding liveness_to_string
  count_labels m =
      record { label = "liveness"; value = liveness_to_string m.liveness }
      ∷ record { label = "service"; value = m.state.service }
      ∷ record { label = "owner"; value = m.version.owner_id }
      ∷ []

  unfoldable pub owned_labels : Member2 → List LabelledValue
  unfolding liveness_to_string
  owned_labels m =
      record { label = "liveness"; value = liveness_to_string m.liveness }
      ∷ record { label = "service"; value = m.state.service }
      ∷ []

  unfoldable pub inc_members_count : String → Member2 → Metrics → Metrics
  unfolding count_labels owned_labels
  inc_members_count local m g = record {
    members_count = inc rt (count_labels m) g.members_count;
    members_owned =
        ite (string_dec m.version.owner_id local) (inc rt (owned_labels m) g.members_owned)
          g.members_owned;
  }

  unfoldable pub dec_members_count : String → Option Member2 → Metrics → Metrics
  unfolding count_labels owned_labels
  dec_members_count local none g = g
  dec_members_count local (some m) g = record {
    members_count = dec rt (count_labels m) g.members_count;
    members_owned =
        ite (string_dec m.version.owner_id local) (dec rt (owned_labels m) g.members_owned)
          g.members_owned;
  }

  -- The entry under `id` leaves the counts, `stored` takes its place, and `counted` enters them.
  unfoldable pub replace_member : Registry → String → (stored counted : Member2) → Registry
  unfolding inc_members_count dec_members_count
  replace_member r id stored counted = record r {
    members = insert id stored r.members;
    metrics =
        inc_members_count r.local_id counted
          (dec_members_count r.local_id (lookup id r.members) r.metrics);
  }

  unfoldable pub empty_registry : String → Options → Registry
  empty_registry local_id options = record {
    local_id = local_id;
    members = [];
    priority_members = [];
    last_version = none;
    tombstone_timeout = options.tombstone_timeout;
    metrics = record { members_count = new_gauge; members_owned = new_gauge };
  }

  -- The local member is stored under the local id, whatever its own id.
  unfoldable pub add_local_member : Registry → Option MemberState → ℕ → Registry
  unfolding next_version_locked inc_members_count
  add_local_member r none timestamp = r
  add_local_member r (some state) timestamp =
      let (r', version) = next_version_locked r timestamp in
      let member : Member2 = record {
        state = copy_member_state state;
        liveness = up;
        version = version;
        expiry = int64 0;
      } in
      record r' {
        members = insert r'.local_id member r'.members;
        metrics = inc_members_count r'.local_id member r'.metrics;
      }

  unfoldable pub new_registry : String → ℕ → List Opt → Registry
  unfolding empty_registry add_local_member apply_all default_options
  new_registry local_id timestamp opts =
      let options = apply_all opts default_options in
      add_local_member (empty_registry local_id options) options.local_member timestamp

  unfoldable pub owned_member_upsert : Registry → MemberState → (timestamp : ℕ) → Registry
  unfolding next_version_locked outdated replace_member
  owned_member_upsert r state timestamp = ite (string_dec state.id r.local_id) r (
      let (r', version) = next_version_locked r timestamp in
      let member : Member2 = record {
        state = copy_member_state state;
        liveness = up;
        version = version;
        expiry = int64 0;
      } in
      if outdated (lookup state.id r'.members) version
      then r'
      else replace_member r' state.id member member)

  -- `existing.State` of a nil entry panics, after the version is made.
  unfoldable pub leave_existing : Registry → String → Option Member2 → Version2 → ℕ → Outcome
  unfolding replace_member outdated
  leave_existing r id none version timestamp = panics
  leave_existing r id (some existing) version timestamp =
      let member : Member2 = record {
        state = existing.state;
        liveness = left;
        version = version;
        expiry = add64 timestamp r.tombstone_timeout;
      } in
      if outdated (some existing) version then done r else done (replace_member r id member member)

  unfoldable pub owned_member_leave : Registry → String → (timestamp : ℕ) → Outcome
  unfolding next_version_locked leave_existing
  owned_member_leave r id timestamp = ite (string_dec id r.local_id) (done r) (
      let (r', version) = next_version_locked r timestamp in
      leave_existing r' id (lookup id r'.members) version timestamp)

  unfoldable pub remote_upsert_member : Registry → Member2 → Registry
  unfolding outdated replace_member
  remote_upsert_member r member =
      if outdated (lookup member.state.id r.members) member.version
      then r
      else replace_member r member.state.id (copy_member member) member
