-- ===== src/Registry/Repair.antt =====
-- pkg/registry/registry/replicarepair.go: the digest that a node sends, and the delta that answers it.
use fuddle.Rpc.{Member2, MonotonicTimestamp}
use fuddle.StringMap.{StringMap, lookup, insert, erase}
use fuddle.Registry.Version.{compare_timestamps, copy_member}
use fuddle.Registry.State.{Registry}
use fuddle.Prelude.{
  String, Bool, true, false, Option, none, some, List, [], ◌∷◌, ℤ, pos, ltb_ℤ, leb_ℤ, if◌then◌else◌,
  int64, length,
}

-- A copy of the entry's timestamp; 0 for a member that is not known.
unfoldable pub timestamp_of : Option Member2 → MonotonicTimestamp
timestamp_of none = record { timestamp = int64 0; counter = 0 }
timestamp_of (some m) = record {
  timestamp = m.version.timestamp.timestamp;
  counter = m.version.timestamp.counter;
}

-- The loop over the priority members, in the order `ids` of the iteration; the flag tells that the
-- function returns from within it.
unfoldable pub digest_priority :
    List String
    → ℤ
    → Registry
    → StringMap MonotonicTimestamp
    → Registry × StringMap MonotonicTimestamp × Bool
unfolding timestamp_of
digest_priority [] limit r digest = (r, digest, false)
digest_priority (id ∷ ids) limit r digest =
    let r' = record r { priority_members = erase id r.priority_members } in
    let digest' = insert id (timestamp_of (lookup id r.members)) digest in
    let rest = digest_priority ids limit r' digest' in
    if leb_ℤ limit (pos (length digest')) then (r', digest', true) else rest

unfoldable pub digest_members :
    List String
    → ℤ
    → StringMap Member2
    → StringMap MonotonicTimestamp
    → StringMap MonotonicTimestamp
unfolding timestamp_of
digest_members [] limit members digest = digest
digest_members (id ∷ ids) limit members digest =
    let digest' = insert id (timestamp_of (lookup id members)) digest in
    let rest = digest_members ids limit members digest' in
    if leb_ℤ limit (pos (length digest')) then digest' else rest

unfoldable pub digest_rest :
    List String
    → ℤ
    → Registry × StringMap MonotonicTimestamp × Bool
    → Registry × StringMap MonotonicTimestamp
unfolding digest_members
digest_rest shuffled limit (r, digest, true) = (r, digest)
digest_rest shuffled limit (r, digest, false) = (r, digest_members shuffled limit r.members digest)

-- `ids` is the order in which the priority members are visited, `shuffled` the members' keys as
-- `shuffleStrings` returns them.
unfoldable pub digest :
    Registry → (ids shuffled : List String) → ℤ → Registry × StringMap MonotonicTimestamp
unfolding digest_priority digest_rest
digest r ids shuffled limit = digest_rest shuffled limit (digest_priority ids limit r [])

-- Does the entry go into the answer to a digest's timestamp?
unfoldable pub is_newer : MonotonicTimestamp → Option Member2 → Bool
is_newer timestamp none = false
is_newer timestamp (some m) = ltb_ℤ (pos 0) (compare_timestamps timestamp m.version.timestamp)

unfoldable pub with_copy : Option Member2 → List Member2 → List Member2
with_copy none ms = ms
with_copy (some m) ms = copy_member m ∷ ms

-- The loop of `Delta`: the members to send, and the priority members.
unfoldable pub delta_from :
    StringMap Member2
    → StringMap MonotonicTimestamp
    → StringMap (Unit {0})
    → List Member2 × StringMap (Unit {0})
unfolding is_newer with_copy
delta_from members [] priority = ([], priority)
delta_from members ((id, timestamp) ∷ digest) priority =
    let newer = is_newer timestamp (lookup id members) in
    let (ms, priority') =
      delta_from members digest (if newer then priority else insert id tt priority) in
    (if newer then with_copy (lookup id members) ms else ms, priority')

unfoldable pub delta : Registry → StringMap MonotonicTimestamp → Registry × List Member2
unfolding delta_from
delta r digest =
    let (ms, priority) = delta_from r.members digest r.priority_members in
    (record r { priority_members = priority }, ms)
