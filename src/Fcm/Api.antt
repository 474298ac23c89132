-- ===== src/Fcm/Api.antt =====
-- The requests and responses of pkg/fcm/server/server.go.
use fuddle.Fcm.Cluster.{Attempts}
use fuddle.StringMap.{StringMap}
use fuddle.Prelude.{ℕ, String, Bool, Option, List, ℤ}

-- clusterRequest and nodesRequest, which have the same fields.
pub record NodesRequest : Type 0 where
  pub nodes : ℤ
  pub members : ℤ

pub record NodeResponse : Type 0 where
  pub id : String
  pub rpc_addr : String
  pub admin_addr : String
  pub log_path : String

pub record MemberResponse : Type 0 where
  pub id : String
  pub log_path : String

pub record PromTarget : Type 0 where
  pub targets : List String
  pub labels : StringMap String

-- The bodies, and for an error its status. `done` is the empty answer.
pub data Response : Type 0 where
  cluster_response : String → List NodeResponse → List MemberResponse → Response
  nodes_response : List NodeResponse → List MemberResponse → Response
  cluster_health : Bool → Response
  prom_targets : List PromTarget → Response
  done bad_request not_found internal_server_error : Response

-- A request, its decoded body if it has one, and the results of the calls that its handler makes.
pub data Request : Type 0 where
  create : (id log_dir : String) → Option NodesRequest → Attempts → Request
  describe prom : (id : String) → Request
  health : (id : String) → (healthy : Bool) → Request
  delete_cluster : (id : String) → Request
  add_to : (id : String) → Option NodesRequest → Attempts → Request
  remove_from : (id : String) → Option NodesRequest → (fuddle member : ℕ → ℕ) → Request
