-- ===== src/Fcm/Options.antt =====
-- pkg/fcm/cluster/options.go, and the cluster that NewCluster makes of the options before it adds
-- nodes.
use fuddle.Fcm.World.{Cluster}
use fuddle.Fcm.Cluster.{empty_cluster}
use fuddle.Prelude.{
  String, Bool, true, false, List, [], ◌∷◌, ℤ, pos, ite, string_dec, if◌then◌else◌,
}

pub record Options : Type 0 where
  pub fuddle_nodes : ℤ
  pub member_nodes : ℤ
  pub default_cluster : Bool
  pub log_dir : String

unfoldable pub default_options : Options
default_options = record {
  fuddle_nodes = pos 3;
  member_nodes = pos 0;
  default_cluster = false;
  log_dir = "";
}

pub data Opt : Type 0 where
  with_fuddle_nodes with_member_nodes : (nodes : ℤ) → Opt
  with_default_cluster : Opt
  with_log_dir : (dir : String) → Opt

unfoldable pub apply : Opt → Options → Options
apply (with_fuddle_nodes nodes) o = record o { fuddle_nodes = nodes }
apply (with_member_nodes nodes) o = record o { member_nodes = nodes }
apply with_default_cluster o = record o { default_cluster = true }
apply (with_log_dir dir) o = record o { log_dir = dir }

unfoldable pub apply_all : List Opt → Options → Options
unfolding apply
apply_all [] o = o
apply_all (opt ∷ opts) o = apply_all opts (apply opt o)

-- `uuid`: the first eight characters of a fresh one. `temp_dir`: a fresh directory.
unfoldable pub cluster_of : Options → (uuid temp_dir : String) → Cluster
unfolding empty_cluster
cluster_of o uuid temp_dir =
    empty_cluster (if o.default_cluster then "default" else uuid)
      (ite (string_dec o.log_dir "") temp_dir o.log_dir)
