-- ===== src/Fcm/Missing.antt =====
-- The requests about a cluster that the server does not have.
use fuddle.Fcm.Cluster.{Net}
use fuddle.Fcm.Manager.{get, delete}
use fuddle.Fcm.Api.{
  Request, create, describe, prom, health, delete_cluster, add_to, remove_from, Response, done,
  not_found,
}
use fuddle.Fcm.Server.{
  Server, handle, describe_cluster, cluster_prom_targets, health_of, remove_cluster, add_nodes,
  add_found, remove_nodes, remove_found,
}
use fuddle.Prelude.{String, ◌≡◌, ap, ◌∙◌, arith, Option, none, some}

-- The id in the path of a request, none for the one that makes a cluster.
abbrev pub target : Request → Option String
target (create id log_dir req calls) = none
target (describe id) = some id
target (prom id) = some id
target (health id healthy) = some id
target (delete_cluster id) = some id
target (add_to id req calls) = some id
target (remove_from id req fuddle member) = some id

-- A delete is answered as if it had found the cluster.
abbrev missing_answer : Request → Response
missing_answer (delete_cluster id) = done
missing_answer r = not_found

some_inj : {a b : String} → some a ≡ some b → a ≡ b
some_inj {a} e = ap (λ o. elim o as (λ x. String) [ none ↦ a | some x ↦ x ]) e

module _ (net : Net) (s : Server) where
  -- A request about an id that the server does not have changes nothing; a delete is answered with
  -- the empty response of success, as if the cluster was there, and any other with not found, whether
  -- or not its body is well-formed.
  pub handle-missing :
      (r : Request) (id : String)
      → target r ≡ some id
      → get id s.clusters ≡ none
      → handle net r s ≡ (s, missing_answer r)
  unfolding handle describe_cluster cluster_prom_targets health_of remove_cluster add_nodes
      add_found remove_nodes remove_found get delete
  handle-missing (create id log_dir req calls) j t h = absurd (ground (arith, t))
  handle-missing (describe id) j t h = ground (arith, t, h)
  handle-missing (prom id) j t h = ground (arith, t, h)
  handle-missing (health id healthy) j t h = ground (arith, t, h)
  handle-missing (delete_cluster id) j t h = ground (arith, t, h)
  handle-missing (add_to id req calls) j t h =
      ap (add_found net id req calls s) (ap (λ i. get i s.clusters) (some_inj t) ∙ h)
  handle-missing (remove_from id req fuddle member) j t h =
      ap (remove_found id req fuddle member s) (ap (λ i. get i s.clusters) (some_inj t) ∙ h)
