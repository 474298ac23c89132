-- ===== src/Tests/Repair.antt =====
-- Digests, deltas and the queue of pending updates at concrete inputs.
use mathlib.Core.List.{Mem}
use fuddle.Rpc.{Member2, MonotonicTimestamp}
use fuddle.StringMap.{StringMap, lookup}
use fuddle.Registry.Version.{copy_member}
use fuddle.Registry.Repair.{delta, digest}
use fuddle.Registry.Deltas.{IsSent, IsLater, delta_members}
use fuddle.Registry.Digests.{IsWithin, digest-IsWithin}
use fuddle.Rpc.{Version2}
use fuddle.Registry.State.{Call}
use fuddle.Registry.Subscribe.{subscribe}
use fuddle.Registry.Subscribing.{all_members, IsToldAll, subscribe-IsToldAll}
use fuddle.Tests.Data.{version, registry}
use fuddle.Prelude.{List, ◌++◌, String, ◌≡◌, refl, some, [], ◌∷◌, int64, string_dec, All, pos}

-- The sender has an old entry of m1, the same one of m2, and one of m9 that this node does not know.
abbrev asked : StringMap MonotonicTimestamp
asked =
    ("m1", record { timestamp = int64 50; counter = 7 })
    ∷ ("m2", record { timestamp = int64 200; counter = 3 })
    ∷ ("m9", record { timestamp = int64 1; counter = 0 })
    ∷ []

delta_members_example :
    All (IsSent registry.members asked) (delta registry asked).1
    × ((id : String) (ts : MonotonicTimestamp) (m : Member2)
        → lookup id asked ≡ some ts
        → lookup id registry.members ≡ some m
        → IsLater m.version.timestamp ts
        → Mem (copy_member m) (delta registry asked).1)
unfolding lookup string_dec
delta_members_example = delta_members registry asked (refl, (refl, (refl, tt)))

digest-IsWithin_example :
    IsWithin registry.members (pos 2) (digest registry [] ("m2" ∷ "n1" ∷ "m1" ∷ []) (pos 2)).1
digest-IsWithin_example = digest-IsWithin registry [] ("m2" ∷ "n1" ∷ "m1" ∷ []) (pos 2)

-- The subscriber knows an old version of m1, and m9, which the registry does not have.
abbrev known : StringMap Version2
known = ("m1", version "n1" 50 0) ∷ ("m9", version "n9" 50 0) ∷ []

subscribe-IsToldAll_example :
    let (r, handle) = subscribe registry (some (all_members known)) in
    (new : List Call) × (r.calls ≡ new ++ registry.calls)
    × IsToldAll registry.members known handle new
subscribe-IsToldAll_example = subscribe-IsToldAll registry known
