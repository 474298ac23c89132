-- ===== src/Tests/Runs.antt =====
-- Runs of the registry from its start.
use fuddle.Rpc.{up, down, Member2}
use fuddle.StringMap.{lookup}
use fuddle.Registry.Options.{Opt, with_local_member, with_now_time}
use fuddle.Registry.State.{new_registry}
use fuddle.Registry.Members.{remote_update}
use fuddle.Registry.Runs.{
  Op, run, add_member, member_heartbeat, remove_member, remote_update as remote, on_node_leave,
  update_liveness,
}
use fuddle.Registry.Metered.{IsMetered, run-IsMetered}
use fuddle.Registry.LastSeen.{TracksOwned, run-TracksOwned}
use fuddle.Registry.LocalMember.{run-local_member}
use fuddle.Registry.Versions.{IsSince, run-IsSince}
use fuddle.Client.{apply_updates}
use fuddle.Registry.Convergence.{newest_update-wins}
use fuddle.Registry.State.{outdated}
use fuddle.Registry.Version.{compare_versions}
use fuddle.Registry.Replication.{remote_update_tie}
use fuddle.Tests.Data.{
  plain_runtime, state, registry, worker, stray, entry, version, node, n2-ne-n1,
}
use fuddle.Prelude.{
  ◌≡◌, refl, inl, inr, some, List, [], ◌∷◌, ◌++◌, int64, arith, string_dec, ne_of_test,
}

abbrev start : List Opt
start = with_local_member (state "n1") ∷ with_now_time (int64 10) ∷ []

-- A member is added and later silent; one of another node comes in and its node leaves.
abbrev history : List Op
history =
    add_member (state "m1") [] (int64 100)
    ∷ remote stray
    ∷ member_heartbeat (state "m1") [] (int64 200) (int64 201)
    ∷ on_node_leave "n2" [] (int64 300)
    ∷ update_liveness (("m1", int64 50000) ∷ ("m2", int64 50000) ∷ []) (int64 50000)
    ∷ remove_member "m1" [] (int64 60000) (int64 60000)
    ∷ []

run-IsMetered_example :
    IsMetered plain_runtime
      (run plain_runtime (new_registry plain_runtime "n1" start (int64 0)) history)
run-IsMetered_example = run-IsMetered plain_runtime "n1" start (int64 0) history

run-TracksOwned_example :
    TracksOwned (run plain_runtime (new_registry plain_runtime "n1" start (int64 0)) history)
run-TracksOwned_example = run-TracksOwned plain_runtime "n1" start (int64 0) history

run-local_member_example :
    ((run plain_runtime registry history).local_id ≡ "n1")
    × (lookup "n1" (run plain_runtime registry history).members ≡ some node)
unfolding lookup string_dec
run-local_member_example = run-local_member plain_runtime registry history

abbrev calm : List Op
calm =
    member_heartbeat (state "m1") [] (int64 200) (int64 201)
    ∷ remove_member "m1" [] (int64 300) (int64 300)
    ∷ []

run-IsSince_example : IsSince worker (lookup "m1" (run plain_runtime registry calm).members)
unfolding lookup string_dec
run-IsSince_example =
    run-IsSince plain_runtime registry calm "m1" worker ((λ s. s), ((λ s. s), tt)) refl

abbrev newer_stray : Member2
newer_stray = entry "m2" down (version "n3" 250 0) 9000

abbrev by_n2 : Member2
by_n2 = entry "m3" up (version "n2" 500 0) 0

abbrev by_n3 : Member2
by_n3 = entry "m3" down (version "n3" 500 1) 9000

remote_update_tie_example :
    (lookup "m3"
        (remote_update plain_runtime (remote_update plain_runtime registry by_n2) by_n3).members
      ≡ some by_n2)
    × (lookup "m3"
          (remote_update plain_runtime (remote_update plain_runtime registry by_n3) by_n2).members
        ≡ some by_n3)
unfolding lookup string_dec
remote_update_tie_example =
    remote_update_tie plain_runtime registry by_n2 by_n3 refl (ne_of_test "m3" "n1" refl) n2-ne-n1
      (ne_of_test "n3" "n1" refl) (ne_of_test "n2" "n3" refl) refl refl

-- The newest update of "m2" comes between an older one and one of another member, and then both again.
newest_update-wins_example :
    lookup "m2"
      (apply_updates plain_runtime registry
        ((stray ∷ by_n2 ∷ []) ++ newer_stray ∷ stray ∷ newer_stray ∷ [])).members
    ≡ some newer_stray
unfolding lookup string_dec outdated compare_versions
newest_update-wins_example =
    newest_update-wins plain_runtime newer_stray (stray ∷ by_n2 ∷ []) (stray ∷ newer_stray ∷ [])
      registry refl (inr (inr (inl (omega arith))), (inl (ne_of_test "m3" "m2" refl), tt))
      (inr (inr (inl (omega arith))), (inr (inl refl), tt)) (inr refl)
