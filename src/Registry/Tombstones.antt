-- ===== src/Registry/Tombstones.antt =====
-- A tombstone that replica repair carries: Delta sends copies without their expiry.
use fuddle.Rpc.{Member2, left}
use fuddle.StringMap.{lookup}
use fuddle.Metrics.{Runtime}
use fuddle.Registry.Version.{copy_member}
use fuddle.Registry.State.{Registry, outdated}
use fuddle.Registry.Members.{remote_update}
use fuddle.Registry.Liveness.{update_liveness}
use fuddle.Registry.Keys.{IsKeyed, IsKeyed-stable}
use fuddle.Registry.Runs.Kept.{IsStable-IsKept}
use fuddle.Registry.Runs.Stable.{remote_update-stable}
use fuddle.Registry.Replication.{remote_update-lookup, remote_update-local}
use fuddle.Registry.Rounds.{SkipsMember}
use fuddle.Registry.Detection.Round.{left_member_removed}
use fuddle.Prelude.{ℕ, ◌<◌, String, ◌≡◌, ◌≢◌, ◌∙◌, false, none, some, List, ◌∷◌, ◌++◌, int64, arith}

module _ (rt : Runtime) (r : Registry) (m : Member2) where
  accepted :
      m.state.id ≢ r.local_id
      → m.version.owner_id ≢ r.local_id
      → outdated (lookup m.state.id r.members) m.version ≡ false
      → lookup m.state.id (remote_update rt r (copy_member m)).members ≡ some (copy_member m)
  unfolding copy_member
  accepted foreign other fresh = remote_update-lookup rt r (copy_member m) m.state.id ∙ ground arith

  -- A left member that another node sends in answer to a digest, and that is accepted, is removed by
  -- the next round of the failure detector at any positive time, whatever expiry the sender keeps for
  -- it.
  pub repaired_tombstone_removed :
      (before after : List (String × ℕ)) (clock t : ℕ)
      → IsKeyed r
      → SkipsMember rt m.state.id before
      → SkipsMember rt m.state.id after
      → m.state.id ≢ r.local_id
      → m.version.owner_id ≢ r.local_id
      → outdated (lookup m.state.id r.members) m.version ≡ false
      → m.liveness ≡ left
      → 0 < t
      → lookup m.state.id
          (update_liveness rt
            (remote_update rt r (copy_member m))
            (before ++ (m.state.id, clock) ∷ after)
            (int64 t)).members
        ≡ none
  unfolding copy_member
  repaired_tombstone_removed before after clock t keyed b a foreign other fresh is_left positive =
      left_member_removed rt (remote_update rt r (copy_member m)) m.state.id (copy_member m) before
        after clock t
        (remote_update-stable (IsStable-IsKept rt _ (IsKeyed-stable rt)) r (copy_member m) keyed) b
        a (λ p. foreign (p ∙ remote_update-local rt r (copy_member m)))
        (accepted foreign other fresh) is_left (omega arith)
