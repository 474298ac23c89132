-- ===== src/Fcm/Manager.antt =====
-- pkg/fcm/cluster/clustermanager.go: the clusters, by their ids.
use fuddle.Fcm.World.{Cluster}
use fuddle.Fcm.Cluster.{shutdown}
use fuddle.StringMap.{StringMap, lookup, erase, insert}
use fuddle.Prelude.{String, Bool, true, false, Option, none, some, List, [], ◌∷◌}

-- `running` is the machine's: the ids of the nodes that run.
pub record Manager : Type 0 where
  pub clusters : StringMap Cluster
  pub running : List String

unfoldable pub new_manager : Manager
new_manager = record { clusters = []; running = [] }

unfoldable pub get : String → Manager → Option Cluster
unfolding lookup
get id m = lookup id m.clusters

unfoldable pub add : Cluster → Manager → Manager
unfolding insert erase
add c m = record m { clusters = insert c.id c m.clusters }

unfoldable pub delete : String → Manager → Manager × Bool
unfolding lookup erase shutdown
delete id m = elim (lookup id m.clusters) [
  | none ↦ (m, false)
  | some c ↦ (record m { clusters = erase id m.clusters; running = shutdown c m.running }, true)
]

shutdown_each : StringMap Cluster → List String → List String
unfolding shutdown
shutdown_each [] running = running
shutdown_each ((id, c) ∷ clusters) running = shutdown_each clusters (shutdown c running)

unfoldable pub shutdown_all : Manager → Manager
unfolding shutdown_each
shutdown_all m = record m { running = shutdown_each m.clusters m.running }
