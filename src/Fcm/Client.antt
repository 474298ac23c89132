-- ===== src/Fcm/Client.antt =====
-- pkg/fcm/client/client.go. What the HTTP client returns for a request is an argument, with the error
-- for a URL that cannot be parsed among its errors.
use mathlib.Core.Option
use Prim.Native.String.{◌++◌ as ◌<>◌}
use native.Mathlib.Decide.{ℕ_discrete}
use fuddle.Fcm.Api.{NodesRequest}
use fuddle.Fcm.Wire.{Codec, Fields, as_text, as_bool, as_rows, get_text, request_fields}
use fuddle.StringMap.{StringMap, lookup}
use fuddle.Prelude.{ℕ, String, Bool, Option, none, some, List, map, ℤ, ite}

pub data Method : Type 0 where
  get_method post_method delete_method : Method

pub record HttpRequest (B : Type 0) : Type 0 where
  pub method : Method
  pub url : String
  pub body : Option B

pub record HttpResponse (B : Type 0) : Type 0 where
  pub status : ℕ
  pub body : B

pub record FuddleNodeInfo : Type 0 where
  pub id : String
  pub rpc_addr : String
  pub admin_addr : String
  pub log_path : String

pub record ClientNodeInfo : Type 0 where
  pub id : String
  pub log_path : String

pub record ClusterInfo : Type 0 where
  pub id : String
  pub fuddle_nodes : List FuddleNodeInfo
  pub client_nodes : List ClientNodeInfo

pub record NodesInfo : Type 0 where
  pub fuddle_nodes : List FuddleNodeInfo
  pub client_nodes : List ClientNodeInfo

-- An error: of the request, of its status, or of the body of the response.
pub data Failure : Type 0 where
  request_failed decode_failed : Failure
  bad_status : ℕ → Failure

pub data Result {ℓ} (A : Type ℓ) : Type ℓ where
  ok : A → Result A
  failed : Failure → Result A

-- The decoded structs of the responses.
unfoldable pub node_info : StringMap String → FuddleNodeInfo
unfolding get_text
node_info row = record {
  id = get_text "id" row;
  rpc_addr = get_text "rpc_addr" row;
  admin_addr = get_text "admin_addr" row;
  log_path = get_text "log_path" row;
}

unfoldable pub member_info : StringMap String → ClientNodeInfo
unfolding get_text
member_info row = record { id = get_text "id" row; log_path = get_text "log_path" row }

unfoldable pub nodes_info : Fields → Option NodesInfo
unfolding lookup node_info member_info
nodes_info o = Option.bind (as_rows (lookup "nodes" o)) (λ nodes.
    Option.map
      (λ members. record {
        fuddle_nodes = map node_info nodes;
        client_nodes = map member_info members;
      })
      (as_rows (lookup "members" o)))

unfoldable pub cluster_info_of : Fields → Option ClusterInfo
unfolding lookup nodes_info
cluster_info_of o = Option.bind (as_text (lookup "id" o)) (λ id.
    Option.map
      (λ n. record { id = id; fuddle_nodes = n.fuddle_nodes; client_nodes = n.client_nodes })
      (nodes_info o))

unfoldable pub health_info : Fields → Option Bool
unfolding lookup
health_info o = as_bool (lookup "healthy" o)

unfoldable pub decoded {ℓ} : {A : Type ℓ} → Option A → Result A
decoded none = failed decode_failed
decoded (some info) = ok info

-- The end of each method: the status and the body.
unfoldable pub read_response {ℓ} :
    {B : Type 0} {A : Type ℓ} → Codec B → (Fields → Option A) → Option (HttpResponse B) → Result A
unfolding decoded
read_response codec decode none = failed request_failed
read_response codec decode (some resp) =
    ite (ℕ_discrete resp.status 200) (decoded (Option.bind (codec.unmarshal resp.body) decode))
      (failed (bad_status resp.status))

unfoldable pub cluster_url : (addr path : String) → String
cluster_url addr path = "http://" <> (addr <> path)

module _ {B : Type 0} (codec : Codec B) (do_request : HttpRequest B → Option (HttpResponse B))
    (addr : String) where
  unfoldable pub cluster_create : (fuddle_nodes client_nodes : ℤ) → Result ClusterInfo
  unfolding read_response cluster_url request_fields cluster_info_of
  cluster_create fuddle_nodes client_nodes = read_response codec cluster_info_of (
      do_request (record {
        method = post_method;
        url = cluster_url addr "/cluster";
        body = some (
            codec.marshal
              (request_fields (record { nodes = fuddle_nodes; members = client_nodes })));
      }))

  unfoldable pub cluster_info : (id : String) → Result ClusterInfo
  unfolding read_response cluster_url cluster_info_of
  cluster_info id = read_response codec cluster_info_of (
      do_request
        (record { method = get_method; url = cluster_url addr ("/cluster/" <> id); body = none }))

  unfoldable pub cluster_health : (id : String) → Result Bool
  unfolding read_response cluster_url health_info
  cluster_health id = read_response codec health_info (
      do_request (record {
        method = get_method;
        url = cluster_url addr ("/cluster/" <> (id <> "/health"));
        body = none;
      }))

  unfoldable pub update_nodes : (url : String) → NodesRequest → Result NodesInfo
  unfolding read_response request_fields nodes_info
  update_nodes url nodes_req = read_response codec nodes_info (
      do_request (record {
        method = post_method;
        url = url;
        body = some (codec.marshal (request_fields nodes_req));
      }))

  unfoldable pub add_nodes :
      (cluster_id : String) → (fuddle_nodes client_nodes : ℤ) → Result NodesInfo
  unfolding update_nodes cluster_url
  add_nodes cluster_id fuddle_nodes client_nodes =
      update_nodes (cluster_url addr ("/cluster/" <> (cluster_id <> "/nodes/add")))
        (record { nodes = fuddle_nodes; members = client_nodes })

  unfoldable pub remove_nodes :
      (cluster_id : String) → (fuddle_nodes client_nodes : ℤ) → Result NodesInfo
  unfolding update_nodes cluster_url
  remove_nodes cluster_id fuddle_nodes client_nodes =
      update_nodes (cluster_url addr ("/cluster/" <> (cluster_id <> "/nodes/remove")))
        (record { nodes = fuddle_nodes; members = client_nodes })
