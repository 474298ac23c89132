-- ===== src/Fcm/Rows.antt =====
-- What the client decodes of one node or member is what the server encoded.
use fuddle.Fcm.Api.{NodeResponse, MemberResponse}
use fuddle.Fcm.Client.{FuddleNodeInfo, ClientNodeInfo, node_info, member_info}
use fuddle.Fcm.Wire.{text_field, get_text, node_row, member_row}
use fuddle.StringMap.{StringMap, lookup}
use fuddle.Prelude.{String, ◌≡◌, ◌≢◌, refl, ◌∙◌, [], arith, ne_of_test}

-- The client's view of a node and of a member.
abbrev pub shown_node : NodeResponse → FuddleNodeInfo
shown_node n = record {
  id = n.id;
  rpc_addr = n.rpc_addr;
  admin_addr = n.admin_addr;
  log_path = n.log_path;
}

abbrev pub shown_member : MemberResponse → ClientNodeInfo
shown_member m = record { id = m.id; log_path = m.log_path }

get_text-hit :
    (key s : String) (row : StringMap String)
    → get_text key row ≡ ""
    → get_text key (text_field key s row) ≡ s
unfolding get_text text_field lookup
get_text-hit key s row h = ground (arith, h)

get_text-miss :
    (key j s : String) (row : StringMap String)
    → j ≢ key
    → get_text key (text_field j s row) ≡ get_text key row
unfolding get_text text_field lookup
get_text-miss key j s row h = ground (arith, h)

-- The rows end with the path of the log; before it there may be one more text.
log_path_read : (s : String) → get_text "log_path" (text_field "log_path" s []) ≡ s
unfolding get_text lookup
log_path_read s = get_text-hit "log_path" s [] refl

log_path_unread :
    (key s : String) → "log_path" ≢ key → get_text key (text_field "log_path" s []) ≡ ""
unfolding get_text lookup
log_path_unread key s h = get_text-miss key "log_path" s [] h

pub node_info-node_row : (n : NodeResponse) → node_info (node_row n) ≡ shown_node n
unfolding node_info node_row
node_info-node_row n = λ i. record {
  id = id i;
  rpc_addr = rpc_addr i;
  admin_addr = admin_addr i;
  log_path = log_path i;
}
  where
    last : StringMap String
    last = text_field "log_path" n.log_path []

    third : StringMap String
    third = text_field "admin_addr" n.admin_addr last

    second : StringMap String
    second = text_field "rpc_addr" n.rpc_addr third

    id : get_text "id" (text_field "id" n.id second) ≡ n.id
    id = get_text-hit "id" n.id second (
        get_text-miss "id" "rpc_addr" n.rpc_addr third (ne_of_test "rpc_addr" "id" refl)
        ∙ get_text-miss "id" "admin_addr" n.admin_addr last (ne_of_test "admin_addr" "id" refl)
        ∙ log_path_unread "id" n.log_path (ne_of_test "log_path" "id" refl))

    rpc_addr : get_text "rpc_addr" (text_field "id" n.id second) ≡ n.rpc_addr
    rpc_addr =
        get_text-miss "rpc_addr" "id" n.id second (ne_of_test "id" "rpc_addr" refl)
        ∙ get_text-hit "rpc_addr" n.rpc_addr third (
            get_text-miss "rpc_addr" "admin_addr" n.admin_addr last
              (ne_of_test "admin_addr" "rpc_addr" refl)
            ∙ log_path_unread "rpc_addr" n.log_path (ne_of_test "log_path" "rpc_addr" refl))

    admin_addr : get_text "admin_addr" (text_field "id" n.id second) ≡ n.admin_addr
    admin_addr =
        get_text-miss "admin_addr" "id" n.id second (ne_of_test "id" "admin_addr" refl)
        ∙ get_text-miss "admin_addr" "rpc_addr" n.rpc_addr third
            (ne_of_test "rpc_addr" "admin_addr" refl)
        ∙ get_text-hit "admin_addr" n.admin_addr last
            (log_path_unread "admin_addr" n.log_path (ne_of_test "log_path" "admin_addr" refl))

    log_path : get_text "log_path" (text_field "id" n.id second) ≡ n.log_path
    log_path =
        get_text-miss "log_path" "id" n.id second (ne_of_test "id" "log_path" refl)
        ∙ get_text-miss "log_path" "rpc_addr" n.rpc_addr third
            (ne_of_test "rpc_addr" "log_path" refl)
        ∙ get_text-miss "log_path" "admin_addr" n.admin_addr last
            (ne_of_test "admin_addr" "log_path" refl)
        ∙ log_path_read n.log_path

pub member_info-member_row : (m : MemberResponse) → member_info (member_row m) ≡ shown_member m
unfolding member_info member_row
member_info-member_row m = λ i. record { id = id i; log_path = log_path i }
  where
    last : StringMap String
    last = text_field "log_path" m.log_path []

    id : get_text "id" (text_field "id" m.id last) ≡ m.id
    id =
        get_text-hit "id" m.id last
          (log_path_unread "id" m.log_path (ne_of_test "log_path" "id" refl))

    log_path : get_text "log_path" (text_field "id" m.id last) ≡ m.log_path
    log_path =
        get_text-miss "log_path" "id" m.id last (ne_of_test "id" "log_path" refl)
        ∙ log_path_read m.log_path
