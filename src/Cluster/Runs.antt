-- ===== src/Cluster/Runs.antt =====
-- The events of the cluster, one after the other: its mutex makes each of them atomic.
use fuddle.Rpc.{Member2, MonotonicTimestamp}
use fuddle.StringMap.{StringMap}
use fuddle.Metrics.{Runtime}
use fuddle.Cluster.{Cluster, on_join, on_leave, on_update, replica_repair}
use fuddle.Prelude.{ℕ, String, Bool, Option, List, [], ◌∷◌}

pub data Event : Type 0 where
  join : (id : String) → (dialled : Bool) → Event
  leave : (id : String) → (clock : ℕ) → Event
  updated : Member2 → Event
  repair :
      (ids : List String)
      → (rand : ℕ) → (order shuffled : List String)
      → (String → StringMap MonotonicTimestamp → Option (List Member2))
      → Event

module _ (rt : Runtime) where
  unfoldable pub step : Cluster → Event → Cluster
  step c (join id dialled) = on_join rt c id dialled
  step c (leave id clock) = on_leave rt c id clock
  step c (updated m) = on_update c m
  step c (repair ids rand order shuffled rpc) = replica_repair rt c ids rand order shuffled rpc

  unfoldable pub run : Cluster → List Event → Cluster
  unfolding step
  run c [] = c
  run c (e ∷ es) = run (step c e) es
