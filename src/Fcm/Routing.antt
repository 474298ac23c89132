-- ===== src/Fcm/Routing.antt =====
-- How the requests of the client reach the handlers of the server.
use mathlib.Core.Option
use Prim.Native.String.{◌++◌ as ◌<>◌}
use native.Mathlib.Decide.{ℕ_discrete}
use fuddle.Fcm.Api.{NodesRequest, Request, create, describe, health, add_to, remove_from}
use fuddle.Fcm.Client.{
  get_method, post_method, HttpRequest, ok, decoded, read_response, cluster_url,
}
use fuddle.Fcm.Cluster.{Net}
use fuddle.Fcm.Decoding.{request_of-request_fields}
use fuddle.Fcm.Routes.{
  Template, clusters_route, cluster_route, health_route, add_route, remove_route, prom_route,
  template, Mux, Calls, decode_request, same_method, routes, route, http_response, respond, serve,
}
use fuddle.Fcm.Server.{Server, handle}
use fuddle.Fcm.Wire.{Codec, Fields, request_of, request_fields}
use fuddle.Prelude.{ℕ, String, ◌≡◌, ap, ◌∙◌, Option, none, some, ite, arith}

-- The path of a template for an id.
abbrev pub path : Template → String → String
path clusters_route id = "/cluster"
path cluster_route id = "/cluster/" <> id
path health_route id = "/cluster/" <> (id <> "/health")
path add_route id = "/cluster/" <> (id <> "/nodes/add")
path remove_route id = "/cluster/" <> (id <> "/nodes/remove")
path prom_route id = "/cluster/" <> (id <> "/prometheus/targets")

abbrev pub variable : Template → String → String
variable clusters_route id = ""
variable t id = id

abbrev pub rank : Template → ℕ
rank clusters_route = 0
rank cluster_route = 1
rank health_route = 2
rank add_route = 3
rank remove_route = 4
rank prom_route = 5

-- What the router does with the paths of an id: each matches its own template only. This is so for an
-- id that is not empty and has no slash.
abbrev pub Routed : {B : Type 0} → Mux B → (addr id : String) → Type 0
Routed mux addr id =
    (t u : Template)
    → mux.vars (template t) ("http://" <> (addr <> path u id))
      ≡ ite (ℕ_discrete (rank t) (rank u)) (some (variable t id)) none

-- encoding/json reads back the fields that it wrote.
abbrev pub Reads : {B : Type 0} → Codec B → Type 0
Reads codec = (o : Fields) → codec.unmarshal (codec.marshal o) ≡ some o

module _ {B : Type 0} (codec : Codec B) (h : Reads codec) where
  pub decode_request-request_fields :
      (req : NodesRequest)
      → decode_request codec (some (codec.marshal (request_fields req))) ≡ some req
  unfolding decode_request Option.bind
  decode_request-request_fields req =
      ap (λ o. Option.bind o request_of) (h (request_fields req)) ∙ request_of-request_fields req

  -- A response with status OK is decoded.
  pub read_response-ok :
      {A : Type 0} (decode : Fields → Option A) (o : Fields) (a : A)
      → decode o ≡ some a
      → read_response codec decode (some (record { status = 200; body = codec.marshal o })) ≡ ok a
  unfolding read_response decoded ℕ_discrete Option.bind
  read_response-ok decode o a e = ap decoded (ap (λ f. Option.bind f decode) (h o) ∙ e)

module _ {B : Type 0} (net : Net) (mux : Mux B) (codec : Codec B) (calls : Calls) (s : Server) where
  pub serve_routed :
      (r : HttpRequest B) (req : Request)
      → route mux codec r (routes calls) ≡ some req
      → serve net mux codec calls r s
        ≡ ((handle net req s).0, http_response codec (handle net req s).1)
  unfolding serve respond
  serve_routed r req e = ap (respond net mux codec r s) e

module _ {B : Type 0} (mux : Mux B) (codec : Codec B) (calls : Calls) (addr id : String)
    (m : Routed mux addr id) where
  pub route_create :
      (body : Option B)
      → let r : HttpRequest B = record {
        method = post_method;
        url = cluster_url addr "/cluster";
        body = body;
      } in
        route mux codec r (routes calls)
        ≡ some (create calls.id calls.log_dir (decode_request codec body) calls.attempts)
  unfolding route routes same_method cluster_url
  route_create body = ground (arith, m clusters_route clusters_route)

  pub route_describe :
      let r : HttpRequest B = record {
        method = get_method;
        url = cluster_url addr ("/cluster/" <> id);
        body = none;
      } in
      route mux codec r (routes calls) ≡ some (describe id)
  unfolding route routes same_method cluster_url
  route_describe = ground (arith, m cluster_route cluster_route)

  pub route_health :
      let r : HttpRequest B = record {
        method = get_method;
        url = cluster_url addr ("/cluster/" <> (id <> "/health"));
        body = none;
      } in
      route mux codec r (routes calls) ≡ some (health id calls.healthy)
  unfolding route routes same_method cluster_url
  route_health = ground (arith, m cluster_route health_route, m health_route health_route)

  pub route_add :
      (body : Option B)
      → let r : HttpRequest B = record {
        method = post_method;
        url = cluster_url addr ("/cluster/" <> (id <> "/nodes/add"));
        body = body;
      } in
        route mux codec r (routes calls)
        ≡ some (add_to id (decode_request codec body) calls.attempts)
  unfolding route routes same_method cluster_url
  route_add body = ground (arith, m clusters_route add_route, m add_route add_route)

  pub route_remove :
      (body : Option B)
      → let r : HttpRequest B = record {
        method = post_method;
        url = cluster_url addr ("/cluster/" <> (id <> "/nodes/remove"));
        body = body;
      } in
        route mux codec r (routes calls)
        ≡ some (remove_from id (decode_request codec body) calls.fuddle calls.member)
  unfolding route routes same_method cluster_url
  route_remove body =
      ground (
        arith,
        m clusters_route remove_route,
        m add_route remove_route,
        m remove_route remove_route,
      )
