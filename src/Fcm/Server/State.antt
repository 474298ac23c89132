-- ===== src/Fcm/Server/State.antt =====
-- The server of pkg/fcm/server/server.go, and the machine as the methods of a cluster see it.
use fuddle.Fcm.World.{Resource, Cluster, World}
use fuddle.Fcm.Manager.{Manager}
use fuddle.StringMap.{insert, erase}
use fuddle.Prelude.{String, List}

-- `resources`: the listeners of the machine that no node has.
pub record Server : Type 0 where
  pub clusters : Manager
  pub resources : List Resource

-- NewServer takes the manager that it is given, on a machine with these listeners.
unfoldable pub new_server : Manager → List Resource → Server
new_server clusters resources = record { clusters = clusters; resources = resources }

-- The methods of a cluster `c` change the machine of the server.
unfoldable pub world_of : Server → Cluster → World
world_of s c = record { resources = s.resources; running = s.clusters.running; cluster = c }

unfoldable pub after : World → Server → Server
after w s = record { clusters = record s.clusters { running = w.running }; resources = w.resources }

-- The pointer of the map to the receiver sees its changes.
unfoldable pub after_at : String → World → Server → Server
unfolding after insert erase
after_at id w s =
    let t = after w s in
    record t { clusters = record t.clusters { clusters = insert id w.cluster t.clusters.clusters } }
