-- ===== src/RegistryV2/Runs.antt =====
-- The calls that change a registry of the second version, one after the other. A panic ends the run.
use fuddle.Rpc.{Member2, MemberState}
use fuddle.Metrics.{Runtime}
use fuddle.RegistryV2.{
  Registry, Outcome, done, panics, owned_member_upsert, owned_member_leave, remote_upsert_member,
}
use fuddle.Prelude.{ℕ, String, List, [], ◌∷◌}

pub data Op : Type 0 where
  upsert : MemberState → (timestamp : ℕ) → Op
  leave : String → (timestamp : ℕ) → Op
  remote : Member2 → Op

unfoldable pub and_then : Outcome → (Registry → Outcome) → Outcome
and_then (done r) k = k r
and_then panics k = panics

module _ (rt : Runtime) where
  unfoldable pub step : Registry → Op → Outcome
  step r (upsert state timestamp) = done (owned_member_upsert rt r state timestamp)
  step r (leave id timestamp) = owned_member_leave rt r id timestamp
  step r (remote m) = done (remote_upsert_member rt r m)

  unfoldable pub run : Registry → List Op → Outcome
  unfolding and_then step
  run r [] = done r
  run r (op ∷ ops) = and_then (step r op) (λ r'. run r' ops)
