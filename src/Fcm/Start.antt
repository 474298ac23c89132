-- ===== src/Fcm/Start.antt =====
-- pkg/fcm/fcm.go and options.go: the start of the server that manages the clusters.
use fuddle.Fcm.Cluster.{Net, Attempts, fill_cluster}
use fuddle.Fcm.Manager.{Manager, new_manager, add}
use fuddle.Fcm.Options as ClusterOptions
use fuddle.Fcm.Options.{
  with_fuddle_nodes, with_member_nodes, with_default_cluster, with_log_dir, cluster_of,
}
use fuddle.Fcm.World.{World}
use fuddle.Fcm.Server.{Server, new_server, world_of, shut_down}
use fuddle.Sockets.{Outcome, returned, failed, panicked}
use fuddle.Prelude.{
  String, Bool, true, false, Option, none, some, List, [], ◌∷◌, pos, if◌then◌else◌, ◌||◌,
}

-- `listener` tells whether a listener was given.
pub record Options : Type 0 where
  pub default_cluster : Bool
  pub listener : Bool
  pub cluster_log_dir : String

unfoldable pub default_options : Options
default_options = record { default_cluster = false; listener = false; cluster_log_dir = "" }

pub data Opt : Type 0 where
  default_cluster_option : Bool → Opt
  listener_option : Opt
  cluster_log_dir_option : String → Opt

unfoldable pub apply : Opt → Options → Options
apply (default_cluster_option b) o = record o { default_cluster = b }
apply listener_option o = record o { listener = true }
apply (cluster_log_dir_option dir) o = record o { cluster_log_dir = dir }

unfoldable pub apply_all : List Opt → Options → Options
unfolding apply
apply_all [] o = o
apply_all (opt ∷ opts) o = apply_all opts (apply opt o)

-- The options of the default cluster.
unfoldable pub default_cluster_options : (log_dir : String) → ClusterOptions.Options
unfolding ClusterOptions.default_options ClusterOptions.apply_all
default_cluster_options log_dir =
    ClusterOptions.apply_all
      (with_fuddle_nodes (pos 3)
        ∷ with_member_nodes (pos 20)
        ∷ with_default_cluster
        ∷ with_log_dir log_dir
        ∷ [])
      ClusterOptions.default_options

-- The listener of NewServer: if ListenTCP fails, the log line reads the address of a nil listener.
unfoldable pub serve_on : (given listened : Bool) → Outcome (Unit {0})
serve_on given listened = if given || listened then returned tt else panicked

-- After NewCluster: the manager gets the cluster, and NewServer the manager.
unfoldable pub with_cluster :
    Outcome (Unit {0}) → World → Option (Unit {0}) → Manager → Server × Outcome (Unit {0})
unfolding add new_server
with_cluster served w none m = (new_server (record m { running = w.running }) w.resources, failed)
with_cluster served w (some u) m =
    (new_server (add w.cluster (record m { running = w.running })) w.resources, served)

-- NewFCM on a machine where no cluster runs. `listened`: whether ListenTCP succeeds.
unfoldable pub new_fcm :
    Net
    → List Opt
    → (uuid temp_dir : String) → Attempts
    → (listened : Bool) → Server × Outcome (Unit {0})
unfolding default_options apply_all default_cluster_options cluster_of fill_cluster world_of
    with_cluster serve_on new_server new_manager
new_fcm net opts uuid temp_dir calls listened =
    let options = apply_all opts default_options in
    let served = serve_on options.listener listened in
    let cluster_options = default_cluster_options options.cluster_log_dir in
    let (w, o) =
      fill_cluster net cluster_options.fuddle_nodes cluster_options.member_nodes calls
        (world_of (new_server new_manager []) (cluster_of cluster_options uuid temp_dir)) in
    if options.default_cluster
    then with_cluster served w o new_manager
    else (new_server new_manager [], served)

unfoldable shutdown : Server → Server
unfolding shut_down
shutdown s = shut_down s
