-- ===== src/Tests/SecondVersion.antt =====
-- Runs of the second version of the registry.
use fuddle.Rpc.{up, Member2}
use fuddle.StringMap.{lookup, insert, erase}
use fuddle.Registry.Version.{copy_member}
use fuddle.Registry.Members.{remote_update}
use fuddle.RegistryV2.{
  Registry, Opt, with_local_member, new_registry, owned_member_leave, panics, remote_upsert_member,
}
use fuddle.RegistryV2.Runs.{Op, upsert, leave, remote, run}
use fuddle.RegistryV2.Metered.{IsMetered}
use fuddle.RegistryV2.Known.{Returns, IsAnnounced, announced_run-Returns, owned_member_leave-panics}
use fuddle.RegistryV2.Agreement.{remote_upsert_member-remote_update}
use fuddle.Tests.Data.{plain_runtime, state, registry, entry, version, n2-ne-n1}
use fuddle.Prelude.{String, ◌≡◌, refl, ◌↔◌, inl, inr, none, List, [], ◌∷◌, int64, ne_of_test}

abbrev start : List Opt
start = with_local_member (state "n1") ∷ []

abbrev history : List Op
history =
    upsert (state "m1") (int64 100)
    ∷ remote (entry "m2" up (version "n2" 200 3) 0)
    ∷ leave "m1" (int64 300)
    ∷ leave "m2" (int64 300)
    ∷ leave "n1" (int64 300)
    ∷ []

announced_run-Returns_example :
    Returns
      (IsMetered plain_runtime)
      (run plain_runtime (new_registry plain_runtime "n1" (int64 10) start) history)
unfolding IsAnnounced
announced_run-Returns_example =
    announced_run-Returns plain_runtime "n1" (int64 10) start history
      (inr (inl refl), (inl refl, (inr (inr refl), tt)))

abbrev second : Registry
second = record {
  local_id = "n1";
  members = registry.members;
  priority_members = [];
  last_version = none;
  tombstone_timeout = int64 1800000;
  metrics = record {
    members_count = record { values = [] };
    members_owned = record { values = [] };
  };
}

owned_member_leave-panics_example :
    (owned_member_leave plain_runtime second "m9" (int64 300) ≡ panics)
    ↔ ((¬ (Path String "m9" "n1")) × (lookup "m9" second.members ≡ none))
owned_member_leave-panics_example = owned_member_leave-panics plain_runtime second "m9" (int64 300)

abbrev newer : Member2
newer = entry "m2" up (version "n2" 900 0) 0

remote_upsert_member-remote_update_example :
    (remote_upsert_member plain_runtime second newer).members
    ≡ (remote_update plain_runtime registry newer).members
unfolding copy_member insert erase
remote_upsert_member-remote_update_example =
    remote_upsert_member-remote_update plain_runtime registry second newer refl
      (ne_of_test "m2" "n1" refl) n2-ne-n1 refl
