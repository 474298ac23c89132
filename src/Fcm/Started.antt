-- ===== src/Fcm/Started.antt =====
-- What the start of the server of pkg/fcm leaves.
use fuddle.Fcm.Cluster.{Net, Attempts, rounds, fill_cluster}
use fuddle.Fcm.Manager.{get, add, new_manager}
use fuddle.Fcm.Options as ClusterOptions
use fuddle.Fcm.Options.{cluster_of}
use fuddle.Fcm.Server.{Server, new_server, world_of}
use fuddle.Fcm.Sized.{IsSized, Anything, fill_cluster-IsSized}
use fuddle.Fcm.Start.{
  default_options, default_cluster_option, cluster_log_dir_option, apply, apply_all,
  default_cluster_options, serve_on, with_cluster, new_fcm,
}
use fuddle.Fcm.Steps.{Outcome}
use fuddle.Fcm.World.{World, Cluster}
use fuddle.Sockets.{failed, Outcome as Ended}
use fuddle.StringMap.{lookup, erase}
use fuddle.Prelude.{
  String, Bool, true, false, ◌≡◌, refl, Option, none, some, [], ◌∷◌, pos, length, if_pos,
  string_dec,
}

-- The server and how it starts, by the result of NewCluster.
abbrev pub IsStarted : (listened : Bool) → Option (Unit {0}) → Server × Ended (Unit {0}) → Type 0
IsStarted listened none r = r.1 ≡ failed
IsStarted listened (some u) r =
    (r.1 ≡ serve_on false listened)
    × ((c : Cluster) × (get "default" r.0.clusters ≡ some c)
        × (length c.fuddle_nodes ≡ 3)
        × (length c.member_nodes ≡ 20))

-- A start with the default cluster and no listener of its own: if NewCluster succeeds, the cluster
-- is in the map under "default", with 3 Fuddle nodes and 20 members, and the server starts if it can
-- listen; if NewCluster fails, so does the start.
pub new_fcm-IsStarted :
    (net : Net) (dir uuid temp_dir : String) (calls : Attempts) (listened : Bool)
    → IsStarted listened
        (fill_cluster net (pos 3) (pos 20) calls (
          world_of
            (new_server new_manager [])
            (cluster_of (default_cluster_options dir) uuid temp_dir))).1
        (new_fcm net
          (default_cluster_option true ∷ cluster_log_dir_option dir ∷ [])
          uuid
          temp_dir
          calls
          listened)
unfolding new_fcm default_options apply_all apply default_cluster_options
    ClusterOptions.default_options ClusterOptions.apply_all ClusterOptions.apply cluster_of get add
    with_cluster
new_fcm-IsStarted net dir uuid temp_dir calls listened =
    let w : World =
      world_of (new_server new_manager [])
        (cluster_of (default_cluster_options dir) uuid temp_dir) in
    let r = fill_cluster net (pos 3) (pos 20) calls w in
    started r.1 r.0 (fill_cluster-IsSized net "default" (pos 3) (pos 20) calls w (refl, refl, refl))
  where
    started :
        (o : Option (Unit {0})) (v : World)
        → Outcome Anything (λ u. IsSized "default" (rounds (pos 3)) (rounds (pos 20))) o v
        → IsStarted listened o (with_cluster (serve_on false listened) v o new_manager)
    started none v z = refl
    started (some u) v z = (
      refl,
      (
        v.cluster,
        if_pos (string_dec v.cluster.id "default") z.0 (some v.cluster)
            (lookup "default" (erase v.cluster.id [])),
        z.1,
        z.2,
      ),
    )
