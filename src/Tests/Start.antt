-- ===== src/Tests/Start.antt =====
-- A node that starts and ends, and one whose RPC listener cannot be opened.
use fuddle.Config.{Config, default_config}
use fuddle.Gossip.{called}
use fuddle.Node.Abandoned.{start_node-holds_admin}
use fuddle.Node.Released.{IsReleased, start_node-IsReleased}
use fuddle.Node.Start.{
  StartOpt, with_rpc_listener, default_options, apply_all, Calls, Running, start_node,
}
use fuddle.Node.Wired.{IsWired, start_node-IsWired}
use fuddle.Sockets.{has, Outcome, Returns}
use fuddle.Tests.Data.{plain_runtime}
use fuddle.Prelude.{ℕ, String, Bool, true, Option, none, some, List, [], ◌∷◌, ℤ, ◌≡◌, refl, int64}

abbrev itoa : ℤ → String
itoa n = "8110"

abbrev dial : String → Bool
dial addr = true

abbrev conf : Config
conf = default_config "a1b2c3d4"

-- The listeners of gossip are 11 and 12, and the client of a node that it tells of has 14.
abbrev calls : Option ℕ → Calls
calls rpc = record {
  logger = true;
  admin_listen = some 10;
  gossip = record {
    new_transport = λ tcp udp. called (11, 12);
    create = called tt;
    join = called tt;
  };
  dialled = 14 ∷ [];
  rpc_listen = rpc;
}

-- Another program's socket is 3.
abbrev start : List StartOpt → Option ℕ → Outcome Running × List ℕ
start opts rpc =
    start_node plain_runtime itoa dial conf opts (calls rpc) (int64 5) (int64 6) (3 ∷ [])

start_node-IsReleased_example :
    Returns (IsReleased (3 ∷ [])) (start (with_rpc_listener 13 ∷ []) none)
start_node-IsReleased_example =
    start_node-IsReleased plain_runtime itoa dial conf (with_rpc_listener 13 ∷ []) (calls none)
      (int64 5) (int64 6) (3 ∷ [])

start_node-holds_admin_example : has 10 (start [] none).1 ≡ true
unfolding default_options apply_all
start_node-holds_admin_example =
    start_node-holds_admin 10 plain_runtime itoa dial conf [] (calls none) (int64 5) (int64 6)
      (3 ∷ []) refl refl refl (λ tcp udp. tt) tt tt

start_node-IsWired_example :
    Returns (λ n now. IsWired plain_runtime itoa dial conf n.gossip) (start [] (some 13))
start_node-IsWired_example =
    start_node-IsWired plain_runtime itoa dial conf [] (calls (some 13)) (int64 5) (int64 6)
      (3 ∷ [])
