-- ===== src/Tests/Rounds.antt =====
-- Rounds of the failure detector over the small registry.
use fuddle.Rpc.{up, down, left, Member2}
use fuddle.StringMap.{lookup}
use fuddle.Registry.Version.{copy_member}
use fuddle.Registry.Members.{remote_update}
use fuddle.Registry.Liveness.{update_liveness}
use fuddle.Registry.Detection.{IsRenewed, claimed_liveness, claimed_expiry}
use fuddle.Registry.Detection.Round.{heard, spared_member_kept, orphan_claimed}
use fuddle.Registry.Detection.Lifecycle.{Tick, tick, entry_after, silent_member-expires}
use fuddle.Registry.Keys.{IsKeyed, IsKeyed-stable, IsKeyed-deletes}
use fuddle.Registry.Runs as Runs
use fuddle.Registry.Runs.{run, step}
use fuddle.Registry.Runs.Sweep.{run-stable}
use fuddle.Registry.State.{Registry}
use fuddle.Registry.Tombstones.{repaired_tombstone_removed}
use fuddle.Registry.State.{outdated}
use fuddle.Tests.Data.{
  plain_runtime, registry, worker, stray, entry, version, registry-IsKeyed, m1-ne-n1, m2-ne-n1,
  n2-ne-n1,
}
use fuddle.Prelude.{
  ℕ, String, ◌≡◌, refl, none, some, List, [], ◌∷◌, ◌++◌, int64, arith, string_dec, ne_of_test,
}

abbrev visit_m2 : List (String × ℕ)
visit_m2 = ("m2", int64 50001) ∷ []

-- Here the member was heard of within the timeout.
spared_member_kept_example :
    lookup "m1"
      (update_liveness plain_runtime registry (("m1", int64 5000) ∷ visit_m2) (int64 5000)).members
    ≡ some worker
unfolding lookup string_dec
spared_member_kept_example =
    spared_member_kept plain_runtime registry "m1" worker [] visit_m2 (int64 5000) 5000
      registry-IsKeyed tt (ne_of_test "m2" "m1" refl, tt) m1-ne-n1 refl
      (heard 100 20000 refl refl refl refl (omega arith) (omega arith) (omega arith) (omega arith))

abbrev visit_m1 : List (String × ℕ)
visit_m1 = ("m1", int64 50000) ∷ []

-- Node n2 left at 300.
orphan_claimed_example :
    IsRenewed stray
      (claimed_liveness up)
      (claimed_expiry up (int64 0) (int64 350000))
      "n1"
      (int64 50001)
      (lookup "m2"
        (update_liveness plain_runtime registry
          (("m1", int64 50000) ∷ visit_m2)
          (int64 50000)).members)
unfolding lookup string_dec
orphan_claimed_example =
    orphan_claimed plain_runtime registry "m2" stray visit_m1 [] (int64 50001) 50000
      registry-IsKeyed (ne_of_test "m1" "m2" refl, tt) tt m2-ne-n1 refl 300 20000 300000 n2-ne-n1
      (λ e. cc) (omega arith) refl refl refl (omega arith) (omega arith) (omega arith) (omega arith)

abbrev tombstone : Member2
tombstone = entry "m3" left (version "n2" 400 0) 9000000

-- The sender keeps the tombstone until 9000000, the receiver removes it at 50000.
repaired_tombstone_removed_example :
    lookup "m3"
      (update_liveness plain_runtime
        (remote_update plain_runtime registry (copy_member tombstone))
        (("m1", int64 50000) ∷ ("m3", int64 50000) ∷ [])
        (int64 50000)).members
    ≡ none
unfolding lookup string_dec outdated
repaired_tombstone_removed_example =
    repaired_tombstone_removed plain_runtime registry tombstone visit_m1 [] (int64 50000) 50000
      registry-IsKeyed (ne_of_test "m1" "m3" refl, tt) tt (ne_of_test "m3" "n1" refl) n2-ne-n1 refl
      refl (omega arith)

-- The rounds of one member: at 50000, 400000 and 2300000.
abbrev at : (clock time : ℕ) → Tick plain_runtime "m1"
at clock time = record {
  before = [];
  after = visit_m2;
  clock = clock;
  time = time;
  skips_before = tt;
  skips_after = (ne_of_test "m2" "m1" refl, tt);
}

tick-IsKeyed :
    (r : Registry) (k : Tick plain_runtime "m1") → IsKeyed r → IsKeyed (tick plain_runtime "m1" r k)
unfolding run step
tick-IsKeyed r k =
    run-stable (IsKeyed-stable plain_runtime) (IsKeyed-deletes plain_runtime) r
      (Runs.update_liveness (k.before ++ ("m1", k.clock) ∷ k.after) (int64 k.time) ∷ [])

abbrev first : Tick plain_runtime "m1"
first = at (int64 50000) 50000

abbrev second : Tick plain_runtime "m1"
second = at (int64 400000) 400000

abbrev last : Tick plain_runtime "m1"
last = at (int64 2300000) 2300000

abbrev on_n1 : Registry → Registry
on_n1 r = record r { local_id = "n1"; tombstone_timeout = int64 1800000 }

abbrev registry' : Registry
registry' = on_n1 (tick plain_runtime "m1" registry first)

registry'-IsKeyed : IsKeyed registry'
registry'-IsKeyed = tick-IsKeyed registry first registry-IsKeyed

abbrev registry'' : Registry
registry'' = on_n1 (tick plain_runtime "m1" registry' second)

silent_member-expires_example :
    IsRenewed worker down
      (int64 350000)
      "n1"
      (int64 50000)
      (entry_after plain_runtime "m1" registry first)
    × IsRenewed worker left
        (int64 2200000)
        "n1"
        (int64 400000)
        (entry_after plain_runtime "m1" registry' second)
    × (entry_after plain_runtime "m1" registry'' last ≡ none)
unfolding lookup string_dec
silent_member-expires_example =
    silent_member-expires plain_runtime "m1" worker registry registry' registry'' first second last
      100 20000 300000 1800000 registry-IsKeyed m1-ne-n1 refl refl refl refl refl refl refl
      (record { keyed = registry'-IsKeyed; entry = refl; local = refl })
      (record {
        keyed = tick-IsKeyed registry' second registry'-IsKeyed;
        entry = refl;
        local = refl;
      })
      (omega arith) (omega arith) (omega arith) (omega arith) (omega arith) (omega arith)
