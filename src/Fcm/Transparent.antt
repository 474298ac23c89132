-- ===== src/Fcm/Transparent.antt =====
-- The client's methods over the server of the same repository.
use fuddle.Fcm.Api.{NodesRequest, Response}
use fuddle.Fcm.Client.{
  Method, get_method, post_method, HttpRequest, HttpResponse, ClusterInfo, NodesInfo, Failure,
  request_failed, decode_failed, bad_status, Result, ok, failed, decoded, read_response,
  cluster_url, cluster_info_of, nodes_info, health_info, cluster_create, cluster_info, update_nodes,
}
use fuddle.Fcm.Client as Client
use fuddle.Fcm.Cluster.{Net}
use fuddle.Fcm.Routes.{Mux, Calls, http_response, serve}
use fuddle.Fcm.Server.{
  Server, world_of, handle, create_cluster, created, described, describe_cluster, health_of,
  add_found, added_nodes, added_members, remove_found,
}
use fuddle.Fcm.Server as Handlers
use fuddle.Fcm.Wire.{Codec, Fields, request_fields}
use fuddle.Prelude.{String, ◌≡◌, ap, sym, subst, ◌∙◌, Option, some, ℤ}
use fuddle.Fcm.Routing.{
  Routed, Reads, decode_request-request_fields, serve_routed, route_create, route_describe,
  route_health, route_add, route_remove,
}
use fuddle.Fcm.Answers.{
  IsRead, IsClusterShown, IsNodesShown, IsHealthShown, create_cluster-IsClusterAnswer,
  describe_cluster-IsClusterAnswer, health_of-IsHealthAnswer, add_nodes-IsNodesAnswer,
  remove_nodes-IsNodesAnswer, cluster-IsRead, nodes-IsRead, health-IsRead,
}

module _ {B : Type 0} (net : Net) (mux : Mux B) (codec : Codec B) (addr id : String) where
  -- The server as the client's HTTP client meets it.
  abbrev pub transport : Calls → Server → HttpRequest B → Option (HttpResponse B)
  transport calls s r = some (serve net mux codec calls r s).1

  -- The client's five methods, on a server, against the handlers for the same arguments.
  abbrev pub IsTransparent : Calls → Server → Type 0
  IsTransparent calls s =
      ((n m : ℤ)
        → IsRead IsClusterShown
            (create_cluster net calls.id calls.log_dir (some (record { nodes = n; members = m }))
              calls.attempts s).1
            (Client.cluster_create codec (transport calls s) addr n m))
      × IsRead IsClusterShown (describe_cluster net id s)
          (Client.cluster_info codec (transport calls s) addr id)
      × IsRead IsHealthShown (health_of net id calls.healthy s)
          (Client.cluster_health codec (transport calls s) addr id)
      × ((n m : ℤ)
          → IsRead IsNodesShown
              (Handlers.add_nodes net id (some (record { nodes = n; members = m })) calls.attempts
                s).1
              (Client.add_nodes codec (transport calls s) addr id n m))
      × ((n m : ℤ)
          → IsRead IsNodesShown
              (Handlers.remove_nodes id (some (record { nodes = n; members = m })) calls.fuddle
                calls.member s).1
              (Client.remove_nodes codec (transport calls s) addr id n m))

  -- A response that is served may be read in place of the one that was given.
  through :
      {A : Type 0} (Good : Response → A → Type 0) (decode : Fields → Option A) (r : Response)
      (x : HttpResponse B)
      → x ≡ http_response codec r
      → IsRead Good r (read_response codec decode (some (http_response codec r)))
      → IsRead Good r (read_response codec decode (some x))
  through Good decode r x e k =
      subst (λ y. IsRead Good r (read_response codec decode (some y))) (sym e) k

  -- If the JSON codec reads back what it wrote and the router tells the paths of the id apart, each
  -- method of the client returns what the handler of its route answers for the arguments that it was
  -- given: a cluster, the nodes or the health, field by field, or the error with the status not found
  -- or internal server error.
  pub client-IsTransparent :
      (calls : Calls) (s : Server) → Reads codec → Routed mux addr id → IsTransparent calls s
  unfolding Client.cluster_create Client.cluster_info Client.cluster_health Client.add_nodes
      Client.remove_nodes update_nodes handle
  client-IsTransparent calls s h m = (
    (λ n k.
        let req : NodesRequest = record { nodes = n; members = k } in
        let body = some (codec.marshal (request_fields req)) in
        let e =
          ap (λ t. t.1)
            (serve_routed net mux codec calls s _ _
              (route_create mux codec calls addr id m body)) in
        let d =
          ap
            (λ o.
              http_response codec (create_cluster net calls.id calls.log_dir o calls.attempts s).1)
            (decode_request-request_fields codec h req) in
        let r = (create_cluster net calls.id calls.log_dir (some req) calls.attempts s).1 in
        through IsClusterShown cluster_info_of r _ (e ∙ d) (
          cluster-IsRead codec h r
            (create_cluster-IsClusterAnswer net s calls.id calls.log_dir req calls.attempts))),
    (let e =
          ap (λ t. t.1)
            (serve_routed net mux codec calls s _ _ (route_describe mux codec calls addr id m)) in
        let r = describe_cluster net id s in
        through IsClusterShown cluster_info_of r _ e
          (cluster-IsRead codec h r (describe_cluster-IsClusterAnswer net s id))),
    (let e =
          ap (λ t. t.1)
            (serve_routed net mux codec calls s _ _ (route_health mux codec calls addr id m)) in
        let r = health_of net id calls.healthy s in
        through IsHealthShown health_info r _ e
          (health-IsRead codec h r (health_of-IsHealthAnswer net s id calls.healthy))),
    (λ n k.
        let req : NodesRequest = record { nodes = n; members = k } in
        let body = some (codec.marshal (request_fields req)) in
        let e =
          ap (λ t. t.1)
            (serve_routed net mux codec calls s _ _ (route_add mux codec calls addr id m body)) in
        let d =
          ap (λ o. http_response codec (Handlers.add_nodes net id o calls.attempts s).1)
            (decode_request-request_fields codec h req) in
        let r = (Handlers.add_nodes net id (some req) calls.attempts s).1 in
        through IsNodesShown nodes_info r _ (e ∙ d)
          (nodes-IsRead codec h r (add_nodes-IsNodesAnswer net s id req calls.attempts))),
    (λ n k.
        let req : NodesRequest = record { nodes = n; members = k } in
        let body = some (codec.marshal (request_fields req)) in
        let e =
          ap (λ t. t.1)
            (serve_routed net mux codec calls s _ _
              (route_remove mux codec calls addr id m body)) in
        let d =
          ap (λ o. http_response codec (Handlers.remove_nodes id o calls.fuddle calls.member s).1)
            (decode_request-request_fields codec h req) in
        let r = (Handlers.remove_nodes id (some req) calls.fuddle calls.member s).1 in
        through IsNodesShown nodes_info r _ (e ∙ d) (
          nodes-IsRead codec h r
            (remove_nodes-IsNodesAnswer net s id req calls.fuddle calls.member))),
  )
