-- ===== src/Fcm/Answers.antt =====
-- The responses to the client's requests, and what its methods make of them.
use native.Mathlib.Decide.{ℕ_discrete}
use fuddle.Fcm.Api.{
  NodesRequest, Response, cluster_response, nodes_response, cluster_health, prom_targets, done,
  bad_request, not_found, internal_server_error,
}
use fuddle.Fcm.Client.{
  ClusterInfo, NodesInfo, bad_status, Result, ok, failed, read_response, cluster_info_of,
  nodes_info, health_info,
}
use fuddle.Fcm.World.{World, FuddleNode, MemberNode, Cluster}
use fuddle.Fcm.Options.{
  default_options, with_fuddle_nodes, with_member_nodes, apply_all, cluster_of,
}
use fuddle.Fcm.Cluster.{Net, Attempts, rounds, fill_cluster, add_fuddle_nodes, add_member_nodes}
use fuddle.Fcm.Rows.{shown_node, shown_member}
use fuddle.Fcm.Decoding.{
  shown_nodes, nodes_info-nodes_fields, cluster_info_of-cluster_fields, health_info-bool_field,
}
use fuddle.Fcm.Manager.{get}
use fuddle.Fcm.Routes.{http_response}
use fuddle.Fcm.Server.{
  Server, world_of, handle, create_cluster, created, described, describe_cluster, health_of,
  add_found, added_nodes, added_members, remove_found,
}
use fuddle.Fcm.Server as Handlers
use fuddle.Fcm.Wire.{Codec, cluster_fields, nodes_fields, bool_field}
use fuddle.Prelude.{ℕ, String, Bool, ◌≡◌, refl, sym, subst, Option, none, some, List, [], ◌∷◌, map}
use fuddle.Fcm.Routing.{Reads, read_response-ok}

-- The response of a handler and what the client's method returns for it.
pub data IsRead {A : Type 0} (Good : Response → A → Type 0) : Response → Result A → Type 0 where
  read : {r : Response} {a : A} → Good r a → IsRead Good r (ok a)
  missing : IsRead Good not_found (failed (bad_status 404))
  broken : IsRead Good internal_server_error (failed (bad_status 500))

abbrev pub IsClusterShown : Response → ClusterInfo → Type 0
IsClusterShown (cluster_response id nodes members) info = info ≡ record {
  id = id;
  fuddle_nodes = map shown_node nodes;
  client_nodes = map shown_member members;
}
IsClusterShown r info = ⊥

abbrev pub IsNodesShown : Response → NodesInfo → Type 0
IsNodesShown (nodes_response nodes members) info = info ≡ shown_nodes nodes members
IsNodesShown r info = ⊥

abbrev pub IsHealthShown : Response → Bool → Type 0
IsHealthShown (cluster_health healthy) b = b ≡ healthy
IsHealthShown r b = ⊥

-- The responses that the handlers give to the client's requests.
abbrev pub IsClusterAnswer : Response → Type 0
IsClusterAnswer (cluster_response id nodes members) = Unit
IsClusterAnswer not_found = Unit
IsClusterAnswer internal_server_error = Unit
IsClusterAnswer r = ⊥

abbrev pub IsNodesAnswer : Response → Type 0
IsNodesAnswer (nodes_response nodes members) = Unit
IsNodesAnswer not_found = Unit
IsNodesAnswer internal_server_error = Unit
IsNodesAnswer r = ⊥

abbrev pub IsHealthAnswer : Response → Type 0
IsHealthAnswer (cluster_health healthy) = Unit
IsHealthAnswer not_found = Unit
IsHealthAnswer r = ⊥

module _ (net : Net) (s : Server) where
  pub create_cluster-IsClusterAnswer :
      (id log_dir : String) (req : NodesRequest) (attempts : Attempts)
      → IsClusterAnswer (create_cluster net id log_dir (some req) attempts s).1
  unfolding create_cluster created described
  create_cluster-IsClusterAnswer id log_dir req attempts =
      let options =
        apply_all (with_fuddle_nodes req.nodes ∷ with_member_nodes req.members ∷ [])
          default_options in
      let r =
        fill_cluster net options.fuddle_nodes options.member_nodes attempts
          (world_of s (cluster_of options id log_dir)) in
      ended r.0 r.1
    where
      ended : (w : World) (o : Option (Unit {0})) → IsClusterAnswer (created net w o s).1
      ended w none = tt
      ended w (some u) = tt

  pub describe_cluster-IsClusterAnswer : (id : String) → IsClusterAnswer (describe_cluster net id s)
  unfolding describe_cluster described
  describe_cluster-IsClusterAnswer id = found (get id s.clusters)
    where
      found :
          (o : Option Cluster)
          → IsClusterAnswer (elim o [ none ↦ not_found | some c ↦ described net c ])
      found none = tt
      found (some c) = tt

  pub health_of-IsHealthAnswer :
      (id : String) (healthy : Bool) → IsHealthAnswer (health_of net id healthy s)
  unfolding health_of
  health_of-IsHealthAnswer id healthy = found (get id s.clusters)
    where
      found :
          (o : Option Cluster)
          → IsHealthAnswer (elim o [ none ↦ not_found | some c ↦ cluster_health healthy ])
      found none = tt
      found (some c) = tt

  pub add_nodes-IsNodesAnswer :
      (id : String) (req : NodesRequest) (attempts : Attempts)
      → IsNodesAnswer (Handlers.add_nodes net id (some req) attempts s).1
  unfolding Handlers.add_nodes add_found added_nodes added_members
  add_nodes-IsNodesAnswer id req attempts = found (get id s.clusters)
    where
      members_end :
          (c : Cluster) (nodes : List FuddleNode) (w : World) (o : Option (List MemberNode))
          → IsNodesAnswer (added_members net id c nodes w o s).1
      members_end c nodes w none = tt
      members_end c nodes w (some members) = tt

      nodes_end :
          (c : Cluster) (w : World) (o : Option (List FuddleNode))
          → IsNodesAnswer (added_nodes net id c req attempts w o s).1
      nodes_end c w none = tt
      nodes_end c w (some nodes) =
          let r = add_member_nodes net attempts.member (rounds req.members) w in
          members_end c nodes r.0 r.1

      found : (o : Option Cluster) → IsNodesAnswer (add_found net id (some req) attempts s o).1
      found none = tt
      found (some c) =
          let r = add_fuddle_nodes net attempts.fuddle (rounds req.nodes) (world_of s c) in
          nodes_end c r.0 r.1

  pub remove_nodes-IsNodesAnswer :
      (id : String) (req : NodesRequest) (fuddle member : ℕ → ℕ)
      → IsNodesAnswer (Handlers.remove_nodes id (some req) fuddle member s).1
  unfolding Handlers.remove_nodes remove_found
  remove_nodes-IsNodesAnswer id req fuddle member = found (get id s.clusters)
    where
      found : (o : Option Cluster) → IsNodesAnswer (remove_found id (some req) fuddle member s o).1
      found none = tt
      found (some c) = tt

module _ {B : Type 0} (codec : Codec B) (h : Reads codec) where
  pub cluster-IsRead :
      (r : Response)
      → IsClusterAnswer r
      → IsRead IsClusterShown r (read_response codec cluster_info_of (some (http_response codec r)))
  unfolding read_response http_response ℕ_discrete
  cluster-IsRead (cluster_response id nodes members) u =
      let e =
        read_response-ok codec h cluster_info_of (cluster_fields id nodes members) _
          (cluster_info_of-cluster_fields id nodes members) in
      subst (IsRead IsClusterShown (cluster_response id nodes members)) (sym e) (read refl)
  cluster-IsRead (nodes_response nodes members) u = absurd u
  cluster-IsRead (cluster_health healthy) u = absurd u
  cluster-IsRead (prom_targets targets) u = absurd u
  cluster-IsRead done u = absurd u
  cluster-IsRead bad_request u = absurd u
  cluster-IsRead not_found u = missing
  cluster-IsRead internal_server_error u = broken

  pub nodes-IsRead :
      (r : Response)
      → IsNodesAnswer r
      → IsRead IsNodesShown r (read_response codec nodes_info (some (http_response codec r)))
  unfolding read_response http_response ℕ_discrete
  nodes-IsRead (nodes_response nodes members) u =
      let e =
        read_response-ok codec h nodes_info (nodes_fields nodes members) _
          (nodes_info-nodes_fields nodes members) in
      subst (IsRead IsNodesShown (nodes_response nodes members)) (sym e) (read refl)
  nodes-IsRead (cluster_response id nodes members) u = absurd u
  nodes-IsRead (cluster_health healthy) u = absurd u
  nodes-IsRead (prom_targets targets) u = absurd u
  nodes-IsRead done u = absurd u
  nodes-IsRead bad_request u = absurd u
  nodes-IsRead not_found u = missing
  nodes-IsRead internal_server_error u = broken

  pub health-IsRead :
      (r : Response)
      → IsHealthAnswer r
      → IsRead IsHealthShown r (read_response codec health_info (some (http_response codec r)))
  unfolding read_response http_response ℕ_discrete
  health-IsRead (cluster_health healthy) u =
      let e =
        read_response-ok codec h health_info (bool_field "healthy" healthy []) healthy
          (health_info-bool_field healthy) in
      subst (IsRead IsHealthShown (cluster_health healthy)) (sym e) (read refl)
  health-IsRead (cluster_response id nodes members) u = absurd u
  health-IsRead (nodes_response nodes members) u = absurd u
  health-IsRead (prom_targets targets) u = absurd u
  health-IsRead done u = absurd u
  health-IsRead bad_request u = absurd u
  health-IsRead not_found u = missing
  health-IsRead internal_server_error u = absurd u
