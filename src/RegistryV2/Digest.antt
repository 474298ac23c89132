-- ===== src/RegistryV2/Digest.antt =====
-- pkg/registryv2/registry/registry.go: `MembersDigest` and `MembersDelta`.
use fuddle.Rpc.{Member2, MonotonicTimestamp}
use fuddle.StringMap.{StringMap, lookup, insert, erase}
use fuddle.Registry.Repair.{timestamp_of, digest_members, delta_from}
use fuddle.RegistryV2.{Registry}
use fuddle.Prelude.{String, Bool, true, false, List, [], ◌∷◌, ℤ, pos, leb_ℤ, if◌then◌else◌, length}

-- The loops of `MembersDigest` and `MembersDelta` are those of pkg/registry/registry/replicarepair.go.
unfoldable pub digest_priority :
    List String
    → ℤ
    → Registry
    → StringMap MonotonicTimestamp
    → Registry × StringMap MonotonicTimestamp × Bool
unfolding timestamp_of
digest_priority [] max_members r digest = (r, digest, false)
digest_priority (id ∷ ids) max_members r digest =
    let r' = record r { priority_members = erase id r.priority_members } in
    let digest' = insert id (timestamp_of (lookup id r.members)) digest in
    let rest = digest_priority ids max_members r' digest' in
    if leb_ℤ max_members (pos (length digest')) then (r', digest', true) else rest

unfoldable pub digest_rest :
    List String
    → ℤ
    → Registry × StringMap MonotonicTimestamp × Bool
    → Registry × StringMap MonotonicTimestamp
unfolding digest_members
digest_rest shuffled max_members (r, digest, true) = (r, digest)
digest_rest shuffled max_members (r, digest, false) =
    (r, digest_members shuffled max_members r.members digest)

unfoldable pub members_digest :
    Registry → (ids shuffled : List String) → ℤ → Registry × StringMap MonotonicTimestamp
unfolding digest_priority digest_rest
members_digest r ids shuffled max_members =
    digest_rest shuffled max_members (digest_priority ids max_members r [])

unfoldable pub members_delta : Registry → StringMap MonotonicTimestamp → Registry × List Member2
unfolding delta_from
members_delta r digest =
    let (ms, priority) = delta_from r.members digest r.priority_members in
    (record r { priority_members = priority }, ms)
