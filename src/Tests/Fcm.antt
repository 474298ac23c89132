-- ===== src/Tests/Fcm.antt =====
-- The test clusters at concrete inputs.
use native.Mathlib.Decide.{ℕ_discrete}
use fuddle.Fcm.World.{World, FuddleNode, Cluster}
use fuddle.Fcm.Cluster.{
  take_at, Net, Attempt, Attempts, rounds, add_fuddle_node, fill_cluster, empty_cluster, fuddle_ids,
  member_ids,
}
use fuddle.Fcm.Manager.{get, new_manager}
use fuddle.Fcm.Api.{create, add_to, delete_cluster, NodesRequest, done}
use fuddle.Fcm.Server.{
  Server, new_server, world_of, create_cluster, remove_nodes, handle, handle_all,
}
use fuddle.Fcm.Steps.{Outcome}
use fuddle.Fcm.Adding.{IsLeaked, IsAdded, add_fuddle_node-outcome}
use fuddle.Fcm.Filing.{IsFiled}
use fuddle.Fcm.Filed.{handle_all-IsFiled}
use fuddle.Fcm.Removed.{IsEmptied, remove_nodes-IsEmptied}
use fuddle.Fcm.Missing.{handle-missing}
use fuddle.Fcm.Creating.{IsAnswered, create_cluster-outcome}
use fuddle.Fcm.Health.{
  Proto, Polls, healthy, timed_out, panics, wait_for_healthy, wait_for_node_discovery,
  wait_for_node, known_nodes_match, all_of, is_known, wait_for_registry_discovery, registries_equal,
  members_equal,
}
use fuddle.Fcm.Rounds.{counter, word, counter-rounds}
use fuddle.Fcm.Occurrences.{occurrences}
use fuddle.StringMap.{lookup}
use fuddle.Prelude.{
  ℕ, zero, suc, ◌<◌, true, ◌≡◌, ◌≢◌, refl, Option, none, some, [], ◌∷◌, pos, negsuc, arith,
  string_dec,
}

-- Every port is 7000.
abbrev pub net : Net
net = record {
  split_host_port = λ a. some ("127.0.0.1", "7000");
  atoi = λ a. some (pos 7000);
  itoa = λ n. "7000";
}

-- The admin listener fails.
abbrev failing : Attempt
failing = record {
  gossip_tcp = some "127.0.0.1:7000";
  gossip_udp = true;
  rpc = some "127.0.0.1:7000";
  rpc_proxy = some "127.0.0.1:7000";
  admin = none;
  node_id = "fuddle-2";
  started = true;
}

abbrev working : Attempt
working = record failing { admin = some "127.0.0.1:7000"; node_id = "fuddle-1" }

-- The first node starts, and the second one fails.
abbrev pub calls : Attempts
calls = record {
  fuddle = elim [ zero ↦ working | suc i ↦ failing ];
  member = λ i. record { uuid = "0a1b2c3d"; connected = true };
}

abbrev two : NodesRequest
two = record { nodes = pos 2; members = pos 1 }

abbrev one : NodesRequest
one = record { nodes = pos 1; members = pos 1 }

abbrev small : Cluster
small = record {
  id = "c1";
  fuddle_nodes =
      record {
        node_id = "fuddle-1";
        gossip_port = pos 7000;
        rpc_bind_port = pos 7000;
        rpc_adv_port = pos 7000;
        admin_port = pos 7000;
        seeds = [];
      }
      ∷ [];
  member_nodes = record { id = "member-0a1b2c3d"; fuddle_addrs = [] } ∷ [];
  log_dir = "/tmp";
}

abbrev pub server : Server
server = record {
  clusters = record {
    clusters = ("c1", small) ∷ [];
    running = "fuddle-1" ∷ "member-0a1b2c3d" ∷ [];
  };
  resources = [];
}

add_fuddle_node-outcome_example :
    let w : World = world_of server small in
    let r : World × Option FuddleNode = add_fuddle_node net failing w in
    Outcome (IsLeaked failing w) (IsAdded net failing w) r.1 r.0
add_fuddle_node-outcome_example = add_fuddle_node-outcome net failing (world_of server small)

create_cluster-outcome_example :
    let w : World = world_of server (empty_cluster "c2" "/tmp") in
    IsAnswered net "c2" two calls w server
      (fill_cluster net (pos 2) (pos 1) calls w).1
      (create_cluster net "c2" "/tmp" (some two) calls server)
create_cluster-outcome_example = create_cluster-outcome net "c2" "/tmp" two calls server

handle_all-IsFiled_example : IsFiled (
    handle_all net
      (create "c1" "/tmp" (some one) calls
        ∷ add_to "c1" (some two) calls
        ∷ delete_cluster "c1"
        ∷ [])
      (new_server new_manager []))
handle_all-IsFiled_example =
    handle_all-IsFiled net (
      create "c1" "/tmp" (some one) calls ∷ add_to "c1" (some two) calls ∷ delete_cluster "c1" ∷ [])

remove_nodes-IsEmptied_example :
    IsEmptied "c1" small two (remove_nodes "c1" (some two) (λ i. 0) (λ i. 0) server)
unfolding get lookup string_dec occurrences fuddle_ids member_ids
remove_nodes-IsEmptied_example =
    remove_nodes-IsEmptied "c1" small two (λ i. 0) (λ i. 0) server refl refl refl

handle-missing_example : handle net (delete_cluster "c9") server ≡ (server, done)
unfolding get lookup string_dec
handle-missing_example = handle-missing net server (delete_cluster "c9") "c9" refl refl

counter-rounds_example :
    ((r : ℕ) → r < rounds (negsuc 0) → counter r ≢ word (negsuc 0))
    × (counter (rounds (negsuc 0)) ≡ word (negsuc 0))
counter-rounds_example = counter-rounds (negsuc 0) (omega arith)

-- From the second poll on the node knows itself; it has no members.
abbrev polls : Polls
polls = record {
  known = elim [ zero ↦ (λ n. []) | suc t ↦ (λ n. ("fuddle-1", tt) ∷ []) ];
  members = λ t n. [];
  pick = λ t. 0;
}

abbrev proto : Proto
proto = record { sort = λ ms. ms; equal = λ l r. true }

small_is_healthy : wait_for_healthy proto small polls 1 ≡ healthy
unfolding wait_for_healthy wait_for_node_discovery wait_for_node known_nodes_match all_of is_known
    fuddle_ids lookup string_dec wait_for_registry_discovery registries_equal take_at members_equal
    ℕ_discrete
small_is_healthy = refl

small_times_out : wait_for_healthy proto small polls 0 ≡ timed_out
unfolding wait_for_healthy wait_for_node_discovery wait_for_node known_nodes_match all_of ℕ_discrete
small_times_out = refl

no_nodes_panic : wait_for_healthy proto (empty_cluster "c3" "/tmp") polls 9 ≡ panics
unfolding wait_for_healthy wait_for_node_discovery wait_for_registry_discovery registries_equal
    empty_cluster take_at
no_nodes_panic = refl
