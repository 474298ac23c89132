-- ===== src/Fcm/Routes.antt =====
-- The routes of NewServer in pkg/fcm/server/server.go, between HTTP requests and the handlers of
-- Fcm.Server.
use mathlib.Core.Option
use fuddle.Fcm.Api.{
  NodesRequest, Request, create, describe, prom, health, delete_cluster, add_to, remove_from,
  Response, cluster_response, nodes_response, cluster_health, prom_targets, done, bad_request,
  not_found, internal_server_error,
}
use fuddle.Fcm.Client.{Method, get_method, post_method, delete_method, HttpRequest, HttpResponse}
use fuddle.Fcm.Cluster.{Net, Attempts}
use fuddle.Fcm.Server.{Server, handle}
use fuddle.Fcm.Wire.{Codec, cluster_fields, nodes_fields, bool_field, request_of}
use fuddle.Prelude.{ℕ, String, Bool, true, false, Option, none, some, List, [], ◌∷◌, if◌then◌else◌}

-- The templates, each with at most the variable `id`.
pub data Template : Type 0 where
  clusters_route cluster_route health_route add_route remove_route prom_route : Template

unfoldable pub template : Template → String
template clusters_route = "/cluster"
template cluster_route = "/cluster/{id}"
template health_route = "/cluster/{id}/health"
template add_route = "/cluster/{id}/nodes/add"
template remove_route = "/cluster/{id}/nodes/remove"
template prom_route = "/cluster/{id}/prometheus/targets"

-- `vars t url`: if the URL matches the template, the value of its variable, or "" if it has none.
pub record Mux (B : Type 0) : Type 0 where
  pub vars : (t url : String) → Option String
  -- The answer to a request without a route.
  pub unrouted : HttpRequest B → HttpResponse B

-- What the handler of a request meets: a fresh id and directory, the results of adding nodes, the nodes
-- that loops over maps meet first, and the answer of Healthy.
pub record Calls : Type 0 where
  pub id : String
  pub log_dir : String
  pub attempts : Attempts
  pub fuddle : ℕ → ℕ
  pub member : ℕ → ℕ
  pub healthy : Bool

-- `json.NewDecoder(r.Body).Decode(&req)`
unfoldable pub decode_request : {B : Type 0} → Codec B → Option B → Option NodesRequest
unfolding request_of
decode_request codec body = Option.bind (Option.bind body codec.unmarshal) request_of

unfoldable pub same_method : Method → Method → Bool
same_method get_method get_method = true
same_method post_method post_method = true
same_method delete_method delete_method = true
same_method m n = false

abbrev pub Route : Type 0
Route = Method × Template × (String → Option NodesRequest → Request)

unfoldable pub routes : Calls → List Route
routes calls =
    (post_method, clusters_route, λ id req. create calls.id calls.log_dir req calls.attempts)
    ∷ (get_method, cluster_route, λ id req. describe id)
    ∷ (get_method, health_route, λ id req. health id calls.healthy)
    ∷ (delete_method, cluster_route, λ id req. delete_cluster id)
    ∷ (post_method, add_route, λ id req. add_to id req calls.attempts)
    ∷ (post_method, remove_route, λ id req. remove_from id req calls.fuddle calls.member)
    ∷ (get_method, prom_route, λ id req. prom id)
    ∷ []

-- The first route of the method whose template matches.
unfoldable pub route : {B : Type 0} → Mux B → Codec B → HttpRequest B → List Route → Option Request
unfolding same_method template decode_request
route mux codec r [] = none
route mux codec r ((m, t, make) ∷ rest) =
    let later = route mux codec r rest in
    if same_method m r.method
    then elim (mux.vars (template t) r.url) [
      | none ↦ later
      | some id ↦ some (make id (decode_request codec r.body))
    ]
    else later

unfoldable pub http_response : {B : Type 0} → Codec B → Response → HttpResponse B
unfolding cluster_fields nodes_fields bool_field
http_response codec (cluster_response id nodes members) = record {
  status = 200;
  body = codec.marshal (cluster_fields id nodes members);
}
http_response codec (nodes_response nodes members) = record {
  status = 200;
  body = codec.marshal (nodes_fields nodes members);
}
http_response codec (cluster_health healthy) = record {
  status = 200;
  body = codec.marshal (bool_field "healthy" healthy []);
}
http_response codec (prom_targets targets) = record {
  status = 200;
  body = codec.marshal_targets targets;
}
http_response codec done = record { status = 200; body = codec.plain "" }
http_response codec bad_request = record { status = 400; body = codec.plain "bad request\n" }
http_response codec not_found = record { status = 404; body = codec.plain "not found\n" }
http_response codec internal_server_error = record {
  status = 500;
  body = codec.plain "internal server error\n";
}

unfoldable pub respond :
    {B : Type 0}
    → Net
    → Mux B
    → Codec B
    → HttpRequest B
    → Server
    → Option Request
    → Server × HttpResponse B
unfolding handle http_response
respond net mux codec r s none = (s, mux.unrouted r)
respond net mux codec r s (some req) =
    let (t, resp) = handle net req s in (t, http_response codec resp)

-- The response to an HTTP request, and the server after it.
unfoldable pub serve :
    {B : Type 0} → Net → Mux B → Codec B → Calls → HttpRequest B → Server → Server × HttpResponse B
unfolding route routes respond
serve net mux codec calls r s = respond net mux codec r s (route mux codec r (routes calls))
