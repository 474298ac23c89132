-- ===== src/Fcm/Decoding.antt =====
-- What the client decodes is what the server encoded, and the other way round.
use mathlib.Core.Option
use mathlib.Core.Path.{ap₂}
use fuddle.Fcm.Api.{NodesRequest, NodeResponse, MemberResponse}
use fuddle.Fcm.Client.{
  ClusterInfo, NodesInfo, node_info, member_info, nodes_info, cluster_info_of, health_info,
}
use fuddle.Fcm.Wire.{
  Fields, node_row, member_row, string_field, int_field, bool_field, rows_field, request_fields,
  nodes_fields, cluster_fields, as_rows, as_text, request_of,
}
use fuddle.StringMap.{lookup}
use fuddle.Prelude.{
  zero, suc, String, Bool, true, false, ◌≡◌, ◌≢◌, refl, ap, ◌∙◌, Option, none, some, List, [], ◌∷◌,
  map, ℤ, pos, negsuc, string_dec, arith, ne_of_test,
}
use fuddle.Fcm.Rows.{shown_node, shown_member, node_info-node_row, member_info-member_row}

-- What the client sees of nodes and members.
abbrev pub shown_nodes : List NodeResponse → List MemberResponse → NodesInfo
shown_nodes nodes members = record {
  fuddle_nodes = map shown_node nodes;
  client_nodes = map shown_member members;
}

map-rows : (nodes : List NodeResponse) → map node_info (map node_row nodes) ≡ map shown_node nodes
map-rows [] = refl
map-rows (n ∷ nodes) = ap₂ ◌∷◌ (node_info-node_row n) (map-rows nodes)

map-member_rows :
    (members : List MemberResponse)
    → map member_info (map member_row members) ≡ map shown_member members
map-member_rows [] = refl
map-member_rows (m ∷ members) = ap₂ ◌∷◌ (member_info-member_row m) (map-member_rows members)

pub nodes_info-nodes_fields :
    (nodes : List NodeResponse) (members : List MemberResponse)
    → nodes_info (nodes_fields nodes members) ≡ some (shown_nodes nodes members)
unfolding nodes_info nodes_fields rows_field lookup string_dec Option.bind
nodes_info-nodes_fields nodes members =
    read nodes members
    ∙ ap some
        (λ i. record { fuddle_nodes = map-rows nodes i; client_nodes = map-member_rows members i })
  where
    read :
        (nodes : List NodeResponse) (members : List MemberResponse)
        → nodes_info (nodes_fields nodes members)
          ≡ some (record {
            fuddle_nodes = map node_info (map node_row nodes);
            client_nodes = map member_info (map member_row members);
          })
    read [] [] = refl
    read [] (m ∷ members) = refl
    read (n ∷ nodes) [] = refl
    read (n ∷ nodes) (m ∷ members) = refl

string_field-hit :
    (id : String) (o : Fields)
    → lookup "id" o ≡ none
    → as_text (lookup "id" (string_field "id" id o)) ≡ some id
unfolding string_field lookup
string_field-hit id o h = ground (arith, h)

string_field-miss :
    (key id : String) (o : Fields) → "id" ≢ key → lookup key (string_field "id" id o) ≡ lookup key o
unfolding string_field lookup
string_field-miss key id o h = ground (arith, h)

no_id :
    (nodes : List NodeResponse) (members : List MemberResponse)
    → lookup "id" (nodes_fields nodes members) ≡ none
unfolding nodes_fields rows_field lookup string_dec
no_id [] [] = refl
no_id [] (m ∷ members) = refl
no_id (n ∷ nodes) [] = refl
no_id (n ∷ nodes) (m ∷ members) = refl

pub cluster_info_of-cluster_fields :
    (id : String) (nodes : List NodeResponse) (members : List MemberResponse)
    → cluster_info_of (cluster_fields id nodes members)
      ≡ some (record {
        id = id;
        fuddle_nodes = map shown_node nodes;
        client_nodes = map shown_member members;
      })
unfolding cluster_info_of cluster_fields nodes_info Option.bind
cluster_info_of-cluster_fields id nodes members =
    ap₂ both id_read (skipped ∙ nodes_info-nodes_fields nodes members)
  where
    rest : Fields
    rest = nodes_fields nodes members

    both : Option String → Option NodesInfo → Option ClusterInfo
    both t n = Option.bind t (λ id.
        Option.map
          (λ k. record { id = id; fuddle_nodes = k.fuddle_nodes; client_nodes = k.client_nodes }) n)

    id_read : as_text (lookup "id" (string_field "id" id rest)) ≡ some id
    id_read = string_field-hit id rest (no_id nodes members)

    skipped : nodes_info (string_field "id" id rest) ≡ nodes_info rest
    skipped =
        ap₂
          (λ ns ms. Option.bind (as_rows ns) (λ nodes'.
            Option.map
              (λ members'. record {
                fuddle_nodes = map node_info nodes';
                client_nodes = map member_info members';
              })
              (as_rows ms)))
          (string_field-miss "nodes" id rest (ne_of_test "id" "nodes" refl))
          (string_field-miss "members" id rest (ne_of_test "id" "members" refl))

pub health_info-bool_field :
    (healthy : Bool) → health_info (bool_field "healthy" healthy []) ≡ some healthy
unfolding health_info bool_field lookup string_dec
health_info-bool_field true = refl
health_info-bool_field false = refl

pub request_of-request_fields : (req : NodesRequest) → request_of (request_fields req) ≡ some req
unfolding request_of request_fields int_field lookup string_dec Option.bind
request_of-request_fields req = go req.nodes req.members
  where
    go :
        (n m : ℤ)
        → request_of (int_field "nodes" n (int_field "members" m []))
          ≡ some (record { nodes = n; members = m })
    go (pos zero) (pos zero) = refl
    go (pos zero) (pos (suc m)) = refl
    go (pos zero) (negsuc m) = refl
    go (pos (suc n)) (pos zero) = refl
    go (pos (suc n)) (pos (suc m)) = refl
    go (pos (suc n)) (negsuc m) = refl
    go (negsuc n) (pos zero) = refl
    go (negsuc n) (pos (suc m)) = refl
    go (negsuc n) (negsuc m) = refl
