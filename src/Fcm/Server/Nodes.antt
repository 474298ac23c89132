-- ===== src/Fcm/Server/Nodes.antt =====
-- addNodes and removeNodes of pkg/fcm/server/server.go.
use Prim.Native.String.{◌++◌ as ◌<>◌}
use fuddle.Fcm.World.{FuddleNode, MemberNode, Cluster, World}
use fuddle.Fcm.Cluster.{
  Net, Attempts, rounds, log_path, add_fuddle_nodes, add_member_nodes, remove_fuddle_node,
  remove_member_node,
}
use fuddle.Fcm.Manager.{get}
use fuddle.Fcm.Api.{
  NodesRequest, NodeResponse, MemberResponse, Response, nodes_response, bad_request, not_found,
  internal_server_error,
}
use fuddle.Prelude.{ℕ, zero, suc, String, Option, none, some, List, [], ◌∷◌, map, ite, string_dec}
use fuddle.Fcm.Server.State.{Server, world_of, after_at}

-- The ids that a loop over RemoveFuddleNode or RemoveMemberNode collects in `n` more rounds, from the
-- counter `i`: those that are not empty.
unfoldable pub remove_each : (ℕ → World → World × String) → (i n : ℕ) → World → World × List String
remove_each remove i zero w = (w, [])
remove_each remove i (suc n) w =
    let (w', id) = remove i w in
    let (w'', ids) = remove_each remove (suc i) n w' in (w'', ite (string_dec id "") ids (id ∷ ids))

unfoldable pub remove_fuddle_nodes : (ℕ → ℕ) → (n : ℕ) → World → World × List String
unfolding remove_each remove_fuddle_node
remove_fuddle_nodes picks n w = remove_each (λ i. remove_fuddle_node (picks i)) 0 n w

unfoldable pub remove_member_nodes : (ℕ → ℕ) → (n : ℕ) → World → World × List String
unfolding remove_each remove_member_node
remove_member_nodes picks n w = remove_each (λ i. remove_member_node (picks i)) 0 n w

unfoldable pub member_response : Cluster → MemberNode → MemberResponse
unfolding log_path
member_response c n = record { id = n.id; log_path = log_path c n.id }

pub removed_node : String → NodeResponse
removed_node id = record { id = id; rpc_addr = ""; admin_addr = ""; log_path = "" }

pub removed_member : String → MemberResponse
removed_member id = record { id = id; log_path = "" }

-- removeNodes, once the cluster is looked up.
unfoldable pub remove_found :
    String
    → Option NodesRequest
    → (fuddle member : ℕ → ℕ) → Server
    → Option Cluster
    → Server × Response
unfolding world_of after_at remove_fuddle_nodes remove_member_nodes rounds removed_node
    removed_member
remove_found id req fuddle member s none = (s, not_found)
remove_found id none fuddle member s (some c) = (s, bad_request)
remove_found id (some req) fuddle member s (some c) =
    let (w, nodes) = remove_fuddle_nodes fuddle (rounds req.nodes) (world_of s c) in
    let (w', members) = remove_member_nodes member (rounds req.members) w in
    (after_at id w' s, nodes_response (map removed_node nodes) (map removed_member members))

unfoldable pub remove_nodes :
    String → Option NodesRequest → (fuddle member : ℕ → ℕ) → Server → Server × Response
unfolding get remove_found
remove_nodes id req fuddle member s = remove_found id req fuddle member s (get id s.clusters)

module _ (net : Net) where
  open net use {itoa}

  unfoldable pub node_response : Cluster → FuddleNode → NodeResponse
  unfolding log_path
  node_response c n = record {
    id = n.node_id;
    rpc_addr = "127.0.0.1:" <> itoa n.rpc_adv_port;
    admin_addr = "fcm:" <> itoa n.admin_port;
    log_path = log_path c n.node_id;
  }

  -- addNodes, once the loop over AddMemberNode has ended.
  unfoldable pub added_members :
      String
      → Cluster
      → List FuddleNode
      → World
      → Option (List MemberNode)
      → Server
      → Server × Response
  unfolding after_at node_response member_response
  added_members id c nodes w none s = (after_at id w s, internal_server_error)
  added_members id c nodes w (some members) s = (
    after_at id w s,
    nodes_response (map (node_response c) nodes) (map (member_response c) members),
  )

  -- addNodes, once the loop over AddFuddleNode has ended.
  unfoldable pub added_nodes :
      String
      → Cluster
      → NodesRequest
      → Attempts
      → World
      → Option (List FuddleNode)
      → Server
      → Server × Response
  unfolding after_at added_members add_member_nodes rounds
  added_nodes id c req calls w none s = (after_at id w s, internal_server_error)
  added_nodes id c req calls w (some nodes) s =
      let (w', o) = add_member_nodes net calls.member (rounds req.members) w in
      added_members id c nodes w' o s

  -- addNodes, once the cluster is looked up.
  unfoldable pub add_found :
      String → Option NodesRequest → Attempts → Server → Option Cluster → Server × Response
  unfolding world_of add_fuddle_nodes rounds added_nodes
  add_found id req calls s none = (s, not_found)
  add_found id none calls s (some c) = (s, bad_request)
  add_found id (some req) calls s (some c) =
      let (w, o) = add_fuddle_nodes net calls.fuddle (rounds req.nodes) (world_of s c) in
      added_nodes id c req calls w o s

  unfoldable pub add_nodes : String → Option NodesRequest → Attempts → Server → Server × Response
  unfolding get add_found
  add_nodes id req calls s = add_found id req calls s (get id s.clusters)
