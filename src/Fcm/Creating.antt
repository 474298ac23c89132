-- ===== src/Fcm/Creating.antt =====
-- What createCluster leaves behind, when it succeeds and when it fails.
use fuddle.Fcm.World.{World, FuddleNode, Cluster}
use fuddle.Fcm.Cluster.{Net, Attempts, rounds, empty_cluster, fill_cluster, add_fuddle_node}
use fuddle.Fcm.Manager.{get, add}
use fuddle.Fcm.Options.{default_options, apply, apply_all, cluster_of}
use fuddle.Fcm.Api.{NodesRequest, Response, internal_server_error}
use fuddle.Fcm.Server.{Server, world_of, after, create_cluster, created, described}
use fuddle.Fcm.Steps.{Outcome}
use fuddle.Fcm.Occurrences.{occurrences}
use fuddle.StringMap.{lookup, erase}
use fuddle.Prelude.{
  ℕ, suc, ◌≤◌, ◌<◌, ◌≡◌, refl, Option, none, some, String, arith, length, if_pos, string_dec,
}
use fuddle.Fcm.Sized.{IsSized, Anything, fill_cluster-IsSized}
use fuddle.Fcm.Stranded.{IsOneMore, fill_cluster-IsRunning, fill_cluster-IsOneMore}

-- A failed create: the clusters are as before, and no node that ran has stopped; if the first
-- AddFuddleNode succeeded, its node runs on.
abbrev IsStranded : Net → NodesRequest → Attempts → World → Server → Server × Response → Type 0
IsStranded net req calls w s r =
    (r.1 ≡ internal_server_error)
    × (r.0.clusters.clusters ≡ s.clusters.clusters)
    × ((x : String) → occurrences x s.clusters.running ≤ occurrences x r.0.clusters.running)
    × ((n : ℕ) (node : FuddleNode)
        → rounds req.nodes ≡ suc n
        → (add_fuddle_node net (calls.fuddle 0) w).1 ≡ some node
        → let id = (calls.fuddle 0).node_id in
          occurrences id s.clusters.running < occurrences id r.0.clusters.running)

-- A create that succeeds: the cluster is there under its id, has the nodes that were asked for, and
-- is described.
abbrev IsCreated : Net → String → NodesRequest → Server × Response → Type 0
IsCreated net id req r =
    (c : Cluster) × (get id r.0.clusters ≡ some c)
    × (length c.fuddle_nodes ≡ rounds req.nodes)
    × (length c.member_nodes ≡ rounds req.members)
    × (r.1 ≡ described net c)

-- The answer to a create by the result of NewCluster.
abbrev pub IsAnswered :
    Net
    → String
    → NodesRequest
    → Attempts
    → World
    → Server
    → Option (Unit {0})
    → Server × Response
    → Type 0
IsAnswered net id req calls w s none r = IsStranded net req calls w s r
IsAnswered net id req calls w s (some u) r = IsCreated net id req r

-- createCluster, for a request with a body: if NewCluster succeeds, the cluster is in the map under
-- its id, has as many Fuddle nodes and members as the request asks for, and the response describes
-- it; if NewCluster fails, the answer is an internal server error, the map is as before, no node
-- has stopped, and if the first AddFuddleNode succeeded the node that it started runs on.
pub create_cluster-outcome :
    (net : Net) (id log_dir : String) (req : NodesRequest) (calls : Attempts) (s : Server)
    → let w : World = world_of s (empty_cluster id log_dir) in
      IsAnswered net id req calls w s
        (fill_cluster net req.nodes req.members calls w).1
        (create_cluster net id log_dir (some req) calls s)
unfolding create_cluster default_options apply apply_all cluster_of string_dec empty_cluster
    world_of created after IsOneMore get add
create_cluster-outcome net id log_dir req calls s =
    let w : World = world_of s (empty_cluster id log_dir) in
    let r = fill_cluster net req.nodes req.members calls w in
    ended r.1 r.0
      (λ x.
        fill_cluster-IsRunning net x (occurrences x s.clusters.running) req.nodes req.members calls
          w (omega arith))
      (λ n node h e. fill_cluster-IsOneMore net calls w req.nodes req.members n node h e)
      (fill_cluster-IsSized net id req.nodes req.members calls w (refl, refl, refl))
  where
    w : World
    w = world_of s (empty_cluster id log_dir)

    ended :
        (o : Option (Unit {0})) (v : World)
        → ((x : String) → occurrences x s.clusters.running ≤ occurrences x v.running)
        → ((n : ℕ) (node : FuddleNode)
            → rounds req.nodes ≡ suc n
            → (add_fuddle_node net (calls.fuddle 0) w).1 ≡ some node
            → occurrences (calls.fuddle 0).node_id s.clusters.running
              < occurrences (calls.fuddle 0).node_id v.running)
        → Outcome Anything (λ u. IsSized id (rounds req.nodes) (rounds req.members)) o v
        → IsAnswered net id req calls w s o (created net v o s)
    ended none v g h z = (refl, refl, g, h)
    ended (some u) v g h z = (
      v.cluster,
      if_pos (string_dec v.cluster.id id) z.0 (some v.cluster)
          (lookup id (erase v.cluster.id s.clusters.clusters)),
      z.1,
      z.2,
      refl,
    )
