-- ===== src/Fcm/Cluster.antt =====
-- pkg/fcm/cluster/cluster.go and member.go: the nodes of one cluster. What the sockets, NewNode and
-- Connect return, the random ids and the node that a loop over a map meets first are arguments.
use Prim.Native.String.{◌++◌ as ◌<>◌}
use fuddle.Fcm.World.{
  World, tcp, proxy, udp, FuddleNode, MemberNode, Cluster, Step, ◌>>=◌, ◌>>◌, return, attempt,
  opening, start_fuddle, start_member, current, repeat,
}
use fuddle.Prelude.{
  ℕ, zero, suc, ◌+◌, ◌-◌, ◌^◌, String, Bool, true, false, Option, none, some, List, [], ◌∷◌, map, ℤ,
  pos, negsuc, ite, string_dec,
}

-- `net.SplitHostPort`, `strconv.Atoi` and the `%d` of `fmt.Sprintf`.
pub record Net : Type 0 where
  pub split_host_port : String → Option (String × String)
  pub atoi : String → Option ℤ
  pub itoa : ℤ → String

-- The results of the calls of one AddFuddleNode: a listener's address, none on an error. `started`
-- tells whether NewNode succeeds.
pub record Attempt : Type 0 where
  pub gossip_tcp : Option String
  pub gossip_udp : Bool
  pub rpc : Option String
  pub rpc_proxy : Option String
  pub admin : Option String
  pub node_id : String
  pub started : Bool

-- Of one AddMemberNode: the first eight characters of the UUID, and whether the member connects.
pub record MemberAttempt : Type 0 where
  pub uuid : String
  pub connected : Bool

-- The attempts of a loop, by its counter.
pub record Attempts : Type 0 where
  pub fuddle : ℕ → Attempt
  pub member : ℕ → MemberAttempt

abbrev pub when_true : Bool → Option (Unit {0})
when_true true = some tt
when_true false = none

-- How often `for i := 0; i != n; i++` runs its body: `i` wraps from the largest int to the smallest.
unfoldable pub rounds : ℤ → ℕ
rounds (pos n) = n
rounds (negsuc k) = 2 ^ 64 - (k + 1)

unfoldable pub log_path : Cluster → String → String
log_path c id = c.log_dir <> ("/" <> (id <> ".log"))

unfoldable pub fuddle_ids : Cluster → List String
fuddle_ids c = map (λ n. n.node_id) c.fuddle_nodes

unfoldable pub member_ids : Cluster → List String
member_ids c = map (λ n. n.id) c.member_nodes

module _ (net : Net) where
  open net use {split_host_port, atoi, itoa}

  port_of : Option (String × String) → Option ℤ
  port_of none = none
  port_of (some (host, port)) = atoi port

  pub parse_addr_port : String → Option ℤ
  unfolding port_of
  parse_addr_port addr = port_of (split_host_port addr)

  pub gossip_addrs : Cluster → List String
  gossip_addrs c = map (λ n. "127.0.0.1:" <> itoa n.gossip_port) c.fuddle_nodes

  rpc_addrs : Cluster → List String
  rpc_addrs c = map (λ n. "127.0.0.1:" <> itoa n.rpc_adv_port) c.fuddle_nodes

  -- AddFuddleNode once its first listener is open; `before` is what was there then.
  unfoldable pub add_listening :
      (before : World) → Attempt → (gossip_tcp : String) → Step FuddleNode
  unfolding parse_addr_port gossip_addrs start_fuddle
  add_listening before a gossip_tcp = do
    gossip_port ← attempt (parse_addr_port gossip_tcp)
    opening (λ (u : Unit {0}). udp gossip_port) (when_true a.gossip_udp)
    rpc ← opening tcp a.rpc
    rpc_port ← attempt (parse_addr_port rpc)
    rpc_proxy ← opening proxy a.rpc_proxy
    rpc_proxy_port ← attempt (parse_addr_port rpc_proxy)
    admin ← opening tcp a.admin
    admin_port ← attempt (parse_addr_port admin)
    attempt (when_true a.started)
    let node : FuddleNode = record {
      node_id = a.node_id;
      gossip_port = gossip_port;
      rpc_bind_port = rpc_port;
      rpc_adv_port = rpc_proxy_port;
      admin_port = admin_port;
      seeds = gossip_addrs before.cluster;
    }
    start_fuddle (tcp rpc ∷ tcp admin ∷ tcp gossip_tcp ∷ udp gossip_port ∷ proxy rpc_proxy ∷ [])
        node
    return node

  unfoldable pub add_fuddle_node : Attempt → Step FuddleNode
  unfolding add_listening
  add_fuddle_node a = do
    before ← current
    gossip_tcp ← opening tcp a.gossip_tcp
    add_listening before a gossip_tcp

  -- AddMemberNode once the member is connected.
  unfoldable pub add_connected : MemberAttempt → Step MemberNode
  unfolding rpc_addrs
  add_connected a = do
    before ← current
    let node : MemberNode = record {
      id = "member-" <> a.uuid;
      fuddle_addrs = rpc_addrs before.cluster;
    }
    start_member node
    return node

  unfoldable pub add_member_node : MemberAttempt → Step MemberNode
  unfolding add_connected
  add_member_node a = do attempt (when_true a.connected); add_connected a

  -- `n` rounds of the loop over AddFuddleNode, with the nodes that they add.
  unfoldable pub add_fuddle_nodes : (ℕ → Attempt) → (n : ℕ) → Step (List FuddleNode)
  unfolding add_fuddle_node repeat
  add_fuddle_nodes calls n = repeat (λ i. add_fuddle_node (calls i)) 0 n

  unfoldable pub add_member_nodes : (ℕ → MemberAttempt) → (n : ℕ) → Step (List MemberNode)
  unfolding add_member_node repeat
  add_member_nodes calls n = repeat (λ i. add_member_node (calls i)) 0 n

  -- The nodes that NewCluster adds to the new cluster, which is the receiver.
  unfoldable pub fill_cluster : (fuddle_count member_count : ℤ) → Attempts → Step (Unit {0})
  unfolding rounds add_fuddle_nodes add_member_nodes
  fill_cluster fuddle_count member_count calls = do
    nodes ← add_fuddle_nodes calls.fuddle (rounds fuddle_count)
    members ← add_member_nodes calls.member (rounds member_count)
    return tt

unfoldable pub empty_cluster : (id log_dir : String) → Cluster
empty_cluster id log_dir = record {
  id = id;
  fuddle_nodes = [];
  member_nodes = [];
  log_dir = log_dir;
}

-- The process of one node ends.
unfoldable pub stop : String → List String → List String
stop id [] = []
stop id (x ∷ xs) = let rest = stop id xs in ite (string_dec x id) xs (x ∷ rest)

unfoldable pub stop_all : List String → List String → List String
unfolding stop
stop_all [] running = running
stop_all (id ∷ ids) running = stop_all ids (stop id running)

-- Any one element of a list, and the others.
unfoldable pub take_at {ℓ} : {A : Type ℓ} → ℕ → List A → Option (A × List A)
take_at i [] = none
take_at zero (x ∷ xs) = some (x, xs)
take_at (suc i) (x ∷ xs) = elim (take_at i xs) [
  | none ↦ some (x, xs)
  | some (y, ys) ↦ some (y, x ∷ ys)
]

unfoldable pub remove_fuddle_node : (pick : ℕ) → World → World × String
unfolding take_at stop
remove_fuddle_node pick w = elim (take_at pick w.cluster.fuddle_nodes) [
  | none ↦ (w, "")
  | some (node, others) ↦ (
    record w {
      running = stop node.node_id w.running;
      cluster = record w.cluster { fuddle_nodes = others };
    },
    node.node_id,
  )
]

unfoldable pub remove_member_node : (pick : ℕ) → World → World × String
unfolding take_at stop
remove_member_node pick w = elim (take_at pick w.cluster.member_nodes) [
  | none ↦ (w, "")
  | some (node, others) ↦ (
    record w {
      running = stop node.id w.running;
      cluster = record w.cluster { member_nodes = others };
    },
    node.id,
  )
]

-- The ids of the running nodes once every node of the cluster is shut down.
unfoldable pub shutdown : Cluster → List String → List String
unfolding stop_all fuddle_ids member_ids
shutdown c running = stop_all (fuddle_ids c) (stop_all (member_ids c) running)
