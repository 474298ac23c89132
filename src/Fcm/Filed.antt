-- ===== src/Fcm/Filed.antt =====
-- The clusters of the server are filed under their ids, and every node of theirs runs.
use fuddle.Fcm.World.{World, FuddleNode, MemberNode, Cluster}
use fuddle.Fcm.Cluster.{
  Net, Attempts, rounds, fuddle_ids, member_ids, empty_cluster, fill_cluster, add_fuddle_nodes,
  add_member_nodes,
}
use fuddle.Fcm.Manager.{get, new_manager}
use fuddle.Fcm.Options.{default_options, apply, apply_all, cluster_of}
use fuddle.Fcm.Api.{
  NodesRequest, Request, create, describe, prom, health, delete_cluster, add_to, remove_from,
}
use fuddle.Fcm.Server.{
  Server, new_server, world_of, remove_fuddle_nodes, remove_member_nodes, remove_nodes,
  remove_found, created, added_members, added_nodes, add_found, create_cluster, add_nodes, handle,
  handle_all,
}
use fuddle.Fcm.Occurrences.{occurrences, node_ids, all_ids}
use fuddle.Fcm.Accounts.{
  IsBalanced, fill_cluster-IsBalanced, add_fuddle_nodes-IsBalanced, add_member_nodes-IsBalanced,
}
use fuddle.Fcm.Removing.{
  IsCovered-of, IsCovered-trans, remove_fuddle_nodes-IsCovered, remove_member_nodes-IsCovered,
}
use fuddle.StringMap.{lookup}
use fuddle.Prelude.{string_dec, ℕ, String, ◌≡◌, refl, Option, none, some, List, [], ◌∷◌, arith}
use fuddle.Fcm.Filing.{
  IsFiled, after_at-IsFiled, after-IsFiled, remove_cluster-IsFiled, add-IsFiled,
}

module _ (net : Net) where
  create_cluster-IsFiled :
      (id log_dir : String) (req : Option NodesRequest) (calls : Attempts) (s : Server)
      → IsFiled s
      → IsFiled (create_cluster net id log_dir req calls s).0
  unfolding create_cluster default_options apply apply_all cluster_of string_dec created
      empty_cluster node_ids fuddle_ids member_ids occurrences
  create_cluster-IsFiled id log_dir none calls s f = f
  create_cluster-IsFiled id log_dir (some req) calls s f =
      let c : Cluster = empty_cluster id log_dir in
      let w = world_of s c in
      let r = fill_cluster net req.nodes req.members calls w in
      ended r.1 r.0
        (fill_cluster-IsBalanced net w req.nodes req.members calls w ((λ x. refl), refl))
    where
      ended :
          (o : Option (Unit {0})) (v : World)
          → IsBalanced (world_of s (empty_cluster id log_dir)) v
          → IsFiled (created net v o s).0
      ended none v b = after-IsFiled s (empty_cluster id log_dir) v f (λ x. refl) b
      ended (some u) v b = add-IsFiled s id log_dir v f b

  remove_nodes-IsFiled :
      (id : String) (req : Option NodesRequest) (fuddle member : ℕ → ℕ) (s : Server)
      → IsFiled s
      → IsFiled (remove_nodes id req fuddle member s).0
  unfolding remove_nodes remove_found
  remove_nodes-IsFiled id req fuddle member s f = found req (get id s.clusters) refl
    where
      found :
          (req : Option NodesRequest) (o : Option Cluster)
          → get id s.clusters ≡ o
          → IsFiled (remove_found id req fuddle member s o).0
      found req none e = f
      found none (some c) e = f
      found (some req) (some c) e =
          let w = world_of s c in
          let v = (remove_fuddle_nodes fuddle (rounds req.nodes) w).0 in
          let v' = (remove_member_nodes member (rounds req.members) v).0 in
          after_at-IsFiled s id c v' e f (
            IsCovered-trans w v v' (remove_fuddle_nodes-IsCovered fuddle (rounds req.nodes) w)
              (remove_member_nodes-IsCovered member (rounds req.members) v))

  add_nodes-IsFiled :
      (id : String) (req : Option NodesRequest) (calls : Attempts) (s : Server)
      → IsFiled s
      → IsFiled (add_nodes net id req calls s).0
  unfolding add_nodes add_found added_nodes added_members
  add_nodes-IsFiled id req calls s f = found req (get id s.clusters) refl
    where
      members_end :
          (c : Cluster) (nodes : List FuddleNode) (o : Option (List MemberNode)) (v : World)
          → get id s.clusters ≡ some c
          → IsBalanced (world_of s c) v
          → IsFiled (added_members net id c nodes v o s).0
      members_end c nodes none v e b =
          after_at-IsFiled s id c v e f (IsCovered-of (world_of s c) v b)
      members_end c nodes (some ms) v e b =
          after_at-IsFiled s id c v e f (IsCovered-of (world_of s c) v b)

      fuddle_end :
          (req : NodesRequest) (c : Cluster) (o : Option (List FuddleNode)) (v : World)
          → get id s.clusters ≡ some c
          → IsBalanced (world_of s c) v
          → IsFiled (added_nodes net id c req calls v o s).0
      fuddle_end req c none v e b = after_at-IsFiled s id c v e f (IsCovered-of (world_of s c) v b)
      fuddle_end req c (some nodes) v e b =
          let r = add_member_nodes net calls.member (rounds req.members) v in
          members_end c nodes r.1 r.0 e
            (add_member_nodes-IsBalanced net (world_of s c) calls.member (rounds req.members) v b)

      found :
          (req : Option NodesRequest) (o : Option Cluster)
          → get id s.clusters ≡ o
          → IsFiled (add_found net id req calls s o).0
      found req none e = f
      found none (some c) e = f
      found (some req) (some c) e =
          let w = world_of s c in
          let r = add_fuddle_nodes net calls.fuddle (rounds req.nodes) w in
          fuddle_end req c r.1 r.0 e (
            add_fuddle_nodes-IsBalanced net w calls.fuddle (rounds req.nodes) w ((λ x. refl), refl))

  handle-IsFiled : (r : Request) (s : Server) → IsFiled s → IsFiled (handle net r s).0
  unfolding handle
  handle-IsFiled (create id log_dir req calls) s f = create_cluster-IsFiled id log_dir req calls s f
  handle-IsFiled (describe id) s f = f
  handle-IsFiled (prom id) s f = f
  handle-IsFiled (health id healthy) s f = f
  handle-IsFiled (delete_cluster id) s f = remove_cluster-IsFiled net id s f
  handle-IsFiled (add_to id req calls) s f = add_nodes-IsFiled id req calls s f
  handle-IsFiled (remove_from id req fuddle member) s f =
      remove_nodes-IsFiled id req fuddle member s f

  -- Whatever requests the server handles from its start, its map has one cluster for each id, under
  -- the cluster's own id, and every node of these clusters runs: an id occurs among their nodes at
  -- most as often as a node of that id runs.
  pub handle_all-IsFiled :
      (rs : List Request) → IsFiled (handle_all net rs (new_server new_manager []))
  unfolding new_server new_manager all_ids occurrences handle_all lookup
  handle_all-IsFiled rs =
      from rs (new_server new_manager [])
        (tt, (λ id c h. absurd (ground (arith, h))), λ x. omega arith)
    where
      from : (rs : List Request) (s : Server) → IsFiled s → IsFiled (handle_all net rs s)
      from [] s f = f
      from (r ∷ rs) s f = from rs (handle net r s).0 (handle-IsFiled r s f)
