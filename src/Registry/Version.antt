-- ===== src/Registry/Version.antt =====
-- pkg/registry/registry/registry.go and replicarepair.go: the comparisons of versions.
pub mod Order
use fuddle.Prelude.{ℤ, pos, negsuc, ltb, if◌then◌else◌, ite, string_dec}
use fuddle.Prelude.{String, [], ◌∷◌}
use fuddle.StringMap.{StringMap, insert}
use fuddle.Rpc.{MonotonicTimestamp, Version2, MemberState, Member2}
use fuddle.Prelude.{int64}

-- 1 if lhs < rhs, -1 if lhs > rhs.
unfoldable pub compare_timestamps : MonotonicTimestamp → MonotonicTimestamp → ℤ
compare_timestamps lhs rhs =
    if ltb lhs.timestamp rhs.timestamp
    then pos 1
    else if ltb rhs.timestamp lhs.timestamp
    then negsuc 0
    else if ltb lhs.counter rhs.counter
    then pos 1
    else if ltb rhs.counter lhs.counter
    then negsuc 0
    else pos 0

unfoldable pub compare_versions : Version2 → Version2 → ℤ
compare_versions lhs rhs =
    ite (string_dec lhs.owner_id rhs.owner_id)
      (if ltb lhs.timestamp.timestamp rhs.timestamp.timestamp
        then pos 1
        else if ltb rhs.timestamp.timestamp lhs.timestamp.timestamp
        then negsuc 0
        else if ltb lhs.timestamp.counter rhs.timestamp.counter
        then pos 1
        else if ltb rhs.timestamp.counter lhs.timestamp.counter
        then negsuc 0
        else pos 0)
      (if ltb lhs.timestamp.timestamp rhs.timestamp.timestamp
        then pos 1
        else if ltb rhs.timestamp.timestamp lhs.timestamp.timestamp
        then negsuc 0
        else negsuc 0)

unfoldable pub copy_version : Version2 → Version2
copy_version m = record {
  owner_id = m.owner_id;
  timestamp = record { timestamp = m.timestamp.timestamp; counter = m.timestamp.counter };
}

-- The loop over the metadata, into a fresh map.
unfoldable pub copy_metadata : StringMap String → StringMap String
copy_metadata [] = []
copy_metadata ((k, v) ∷ m) = insert k v (copy_metadata m)

unfoldable pub copy_member_state : MemberState → MemberState
unfolding copy_metadata
copy_member_state m = record {
  id = m.id;
  status = m.status;
  service = m.service;
  locality = m.locality;
  started = m.started;
  revision = m.revision;
  metadata = copy_metadata m.metadata;
}

-- The literal gives no expiry, so the copy's is 0.
unfoldable pub copy_member : Member2 → Member2
unfolding copy_member_state copy_version
copy_member m = record {
  state = copy_member_state m.state;
  liveness = m.liveness;
  version = copy_version m.version;
  expiry = int64 0;
}
