-- ===== src/Node/Network.antt =====
-- The Update RPCs between two nodes: the send loop of pkg/registry/client/replicaclient.go at one end
-- and ReplicaServer.Update of pkg/registry/server/replicaserver.go at the other.
use fuddle.Rpc.{Member2}
use fuddle.Metrics.{Runtime}
use fuddle.Client.{ReplicaClient, send_loop}
use fuddle.Server.{ReplicaServer, replica_update}
use fuddle.Prelude.{String, Bool, true, false, List, [], ◌∷◌, map, if◌then◌else◌}

-- What becomes of an RPC: it does not arrive, it arrives but its answer does not, or both arrive.
pub data Attempt : Type 0 where
  lost unanswered answered : Attempt

unfoldable pub arrives : Attempt → Bool
arrives lost = false
arrives unanswered = true
arrives answered = true

-- What the client sees.
unfoldable pub succeeds : Attempt → Bool
succeeds lost = false
succeeds unanswered = false
succeeds answered = true

-- The updates that arrive, of those that were sent.
unfoldable pub arrived : List Attempt → List Member2 → List Member2
unfolding arrives
arrived [] us = []
arrived (p ∷ ps) [] = []
arrived (p ∷ ps) (u ∷ us) = let later = arrived ps us in if arrives p then u ∷ later else later

unfoldable pub receive : Runtime → String → ReplicaServer → List Member2 → ReplicaServer
unfolding replica_update
receive rt source s [] = s
receive rt source s (u ∷ us) = receive rt source (replica_update rt s source u) us

-- The send loop of a client of the server, for as many RPCs.
unfoldable pub send_to :
    Runtime → String → ReplicaClient → ReplicaServer → List Attempt → ReplicaClient × ReplicaServer
unfolding succeeds arrived receive
send_to rt source c s rpcs =
    let (c', sent) = send_loop rt c (map succeeds rpcs) in
    (c', receive rt source s (arrived rpcs sent))
