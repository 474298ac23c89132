-- ===== src/RegistryV2/Agreement.antt =====
-- The updates from other nodes in the two versions of the registry. Their comparisons of versions
-- differ on a tie between owners, 0 against -1, but an entry is kept on both.
use fuddle.Rpc.{Member2, Version2}
use fuddle.StringMap.{lookup}
use fuddle.Metrics.{Runtime}
use fuddle.Registry.Version
use fuddle.Registry.Version.{copy_member}
use fuddle.Registry.State
use fuddle.Registry.Members.{remote_update}
use fuddle.RegistryV2
use fuddle.Prelude.{◌≡◌, ◌≢◌, refl, Option, none, some, arith}

outdated_agree : (o : Option Member2) (v : Version2) → RegistryV2.outdated o v ≡ State.outdated o v
unfolding RegistryV2.outdated State.outdated RegistryV2.compare_versions Version.compare_versions
outdated_agree none v = refl
outdated_agree (some m) v = ground arith

-- An update from another node, of a member other than the local one, without an expiry, leaves the
-- same entries in both versions of the registry, if they had the same entries.
pub remote_upsert_member-remote_update :
    (rt : Runtime) (r : State.Registry) (r' : RegistryV2.Registry) (m : Member2)
    → r'.members ≡ r.members
    → m.state.id ≢ r.local_id
    → m.version.owner_id ≢ r.local_id
    → copy_member m ≡ m
    → (RegistryV2.remote_upsert_member rt r' m).members ≡ (remote_update rt r m).members
unfolding RegistryV2.remote_upsert_member RegistryV2.replace_member remote_update
    State.set_member_locked State.notify_subscribers_locked
remote_upsert_member-remote_update rt r r' m same n o copied =
    ground (arith, outdated_agree (lookup m.state.id r.members) m.version)
