-- ===== src/Fcm/Wire.antt =====
-- The JSON objects of pkg/fcm/server/server.go and pkg/fcm/client/client.go: the names of the fields
-- are the struct tags, and `omitempty` leaves out a zero value. The bytes of a body are a
-- type `B`, and the bytes of an object are encoding/json's, both parameters.
use fuddle.Fcm.Api.{NodesRequest, NodeResponse, MemberResponse, PromTarget}
use mathlib.Core.Option
use fuddle.StringMap.{StringMap, lookup}
use fuddle.Prelude.{
  zero, suc, String, Bool, true, false, Option, none, some, List, [], ◌∷◌, map, ℤ, pos, negsuc, ite,
  string_dec,
}

-- A field of an object; `rows` is an array of objects all of whose fields are texts.
pub data Value : Type 0 where
  text : String → Value
  number : ℤ → Value
  flag : Bool → Value
  rows : List (StringMap String) → Value

abbrev pub Fields : Type 0
Fields = StringMap Value

pub record Codec (B : Type 0) : Type 0 where
  pub marshal : Fields → B
  pub unmarshal : B → Option Fields
  -- Of the answer that the client does not ask for.
  pub marshal_targets : List PromTarget → B
  pub plain : String → B

-- A text field of a row, before the fields that follow it.
unfoldable pub text_field : String → String → StringMap String → StringMap String
text_field key s row = ite (string_dec s "") row ((key, s) ∷ row)

-- What is read back.
unfoldable pub get_text : String → StringMap String → String
unfolding lookup
get_text key row = elim (lookup key row) [ none ↦ "" | some s ↦ s ]

unfoldable pub node_row : NodeResponse → StringMap String
unfolding text_field
node_row n = text_field "id" n.id (
    text_field "rpc_addr" n.rpc_addr
      (text_field "admin_addr" n.admin_addr (text_field "log_path" n.log_path [])))

unfoldable pub member_row : MemberResponse → StringMap String
unfolding text_field
member_row m = text_field "id" m.id (text_field "log_path" m.log_path [])

-- The fields of a message, before those that follow.
unfoldable pub string_field : String → String → Fields → Fields
string_field key s o = ite (string_dec s "") o ((key, text s) ∷ o)

unfoldable pub int_field : String → ℤ → Fields → Fields
int_field key (pos zero) o = o
int_field key (pos (suc n)) o = (key, number (pos (suc n))) ∷ o
int_field key (negsuc n) o = (key, number (negsuc n)) ∷ o

unfoldable pub bool_field : String → Bool → Fields → Fields
bool_field key true o = (key, flag true) ∷ o
bool_field key false o = o

unfoldable pub rows_field : String → List (StringMap String) → Fields → Fields
rows_field key [] o = o
rows_field key (row ∷ more) o = (key, rows (row ∷ more)) ∷ o

unfoldable pub request_fields : NodesRequest → Fields
unfolding int_field
request_fields req = int_field "nodes" req.nodes (int_field "members" req.members [])

unfoldable pub nodes_fields : List NodeResponse → List MemberResponse → Fields
unfolding rows_field node_row member_row
nodes_fields nodes members =
    rows_field "nodes" (map node_row nodes) (rows_field "members" (map member_row members) [])

unfoldable pub cluster_fields : String → List NodeResponse → List MemberResponse → Fields
unfolding string_field nodes_fields
cluster_fields id nodes members = string_field "id" id (nodes_fields nodes members)

-- What the decoder puts into a field: the zero value if the object has none; another kind of value
-- is an error.
abbrev pub as_text : Option Value → Option String
as_text none = some ""
as_text (some (text s)) = some s
as_text (some (number n)) = none
as_text (some (flag b)) = none
as_text (some (rows r)) = none

abbrev pub as_int : Option Value → Option ℤ
as_int none = some (pos 0)
as_int (some (text s)) = none
as_int (some (number n)) = some n
as_int (some (flag b)) = none
as_int (some (rows r)) = none

abbrev pub as_bool : Option Value → Option Bool
as_bool none = some false
as_bool (some (text s)) = none
as_bool (some (number n)) = none
as_bool (some (flag b)) = some b
as_bool (some (rows r)) = none

abbrev pub as_rows : Option Value → Option (List (StringMap String))
as_rows none = some []
as_rows (some (text s)) = none
as_rows (some (number n)) = none
as_rows (some (flag b)) = none
as_rows (some (rows r)) = some r

-- The decoded body of a request.
unfoldable pub request_of : Fields → Option NodesRequest
unfolding lookup
request_of o = Option.bind (as_int (lookup "nodes" o)) (λ nodes.
    Option.map (λ members. record { nodes = nodes; members = members })
      (as_int (lookup "members" o)))
