-- ===== src/Fcm/Server.antt =====
-- pkg/fcm/server/server.go: the HTTP handlers. A handler runs alone; its answer is a status and a
-- body. The result of decoding the request, the answer of Healthy and the calls that add nodes are
-- arguments; encoding a response is output.
pub mod State
pub mod Nodes
unfoldable pub use State.*
unfoldable pub use Nodes.*
use Prim.Native.String.{◌++◌ as ◌<>◌}
use fuddle.Fcm.World.{Resource, FuddleNode, MemberNode, Cluster, World}
use fuddle.Fcm.Cluster.{
  Net, Attempts, rounds, log_path, empty_cluster, fill_cluster, add_fuddle_nodes, add_member_nodes,
  remove_fuddle_node, remove_member_node,
}
use fuddle.Fcm.Manager.{Manager, new_manager, get, add, delete, shutdown_all}
use fuddle.Fcm.Options.{
  default_options, with_fuddle_nodes, with_member_nodes, apply_all, cluster_of,
}
use fuddle.Fcm.Api.{
  NodesRequest, NodeResponse, MemberResponse, PromTarget, Response, cluster_response,
  nodes_response, cluster_health, prom_targets, done, bad_request, not_found, internal_server_error,
  Request, create, describe, prom, health, delete_cluster, add_to, remove_from,
}
use fuddle.StringMap.{StringMap, insert, erase}
use fuddle.Prelude.{
  ℕ, zero, suc, String, Bool, Option, none, some, List, [], ◌∷◌, map, ite, string_dec,
  if◌then◌else◌,
}

module _ (net : Net) where
  open net use {itoa}

  unfoldable pub described : Cluster → Response
  unfolding node_response member_response
  described c =
      cluster_response c.id (map (node_response net c) c.fuddle_nodes)
        (map (member_response c) c.member_nodes)

  -- createCluster, once NewCluster has returned.
  unfoldable pub created : World → Option (Unit {0}) → Server → Server × Response
  unfolding after add described
  created w none s = (after w s, internal_server_error)
  created w (some u) s =
      let t = after w s in (record t { clusters = add w.cluster t.clusters }, described w.cluster)

  unfoldable pub create_cluster :
      (id log_dir : String) → Option NodesRequest → Attempts → Server → Server × Response
  unfolding default_options apply_all cluster_of fill_cluster world_of created
  create_cluster id log_dir none calls s = (s, bad_request)
  create_cluster id log_dir (some req) calls s =
      let opts = with_fuddle_nodes req.nodes ∷ with_member_nodes req.members ∷ [] in
      let options = apply_all opts default_options in
      let (w, o) =
        fill_cluster net options.fuddle_nodes options.member_nodes calls
          (world_of s (cluster_of options id log_dir)) in
      created w o s

  unfoldable pub describe_cluster : String → Server → Response
  unfolding get described
  describe_cluster id s = elim (get id s.clusters) [ none ↦ not_found | some c ↦ described c ]

  unfoldable pub health_of : String → Bool → Server → Response
  unfolding get
  health_of id healthy s = elim (get id s.clusters) [
    | none ↦ not_found
    | some c ↦ cluster_health healthy
  ]

  unfoldable pub remove_cluster : String → Server → Server × Response
  unfolding delete
  remove_cluster id s =
      let (m, found) = delete id s.clusters in
      if found then (record s { clusters = m }, done) else (s, done)

  -- The addresses, by the ids of the nodes; a later node of the same id replaces an earlier one.
  addresses : List FuddleNode → StringMap String → StringMap String
  unfolding insert erase
  addresses [] targets = targets
  addresses (n ∷ nodes) targets =
      addresses nodes (insert n.node_id ("fcm:" <> itoa n.admin_port) targets)

  prom_target : String × String → PromTarget
  prom_target (id, addr) = record { targets = addr ∷ []; labels = ("instance", id) ∷ [] }

  unfoldable pub cluster_prom_targets : String → Server → Response
  unfolding get addresses prom_target
  cluster_prom_targets id s = elim (get id s.clusters) [
    | none ↦ not_found
    | some c ↦ prom_targets (map prom_target (addresses c.fuddle_nodes []))
  ]

  unfoldable pub handle : Request → Server → Server × Response
  unfolding create_cluster describe_cluster health_of remove_cluster add_nodes remove_nodes
      cluster_prom_targets
  handle (create id log_dir req calls) s = create_cluster id log_dir req calls s
  handle (describe id) s = (s, describe_cluster id s)
  handle (prom id) s = (s, cluster_prom_targets id s)
  handle (health id healthy) s = (s, health_of id healthy s)
  handle (delete_cluster id) s = remove_cluster id s
  handle (add_to id req calls) s = add_nodes net id req calls s
  handle (remove_from id req fuddle member) s = remove_nodes id req fuddle member s

  unfoldable pub handle_all : List Request → Server → Server
  unfolding handle
  handle_all [] s = s
  handle_all (r ∷ rs) s = handle_all rs (handle r s).0

-- Shutdown, once the HTTP server is down.
unfoldable pub shut_down : Server → Server
unfolding shutdown_all
shut_down s = record s { clusters = shutdown_all s.clusters }
