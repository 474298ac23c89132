-- ===== src/Node/Start.antt =====
-- The start of a node and its end: NewNode and Shutdown of pkg/node/node.go with its options, and
-- NewServer, Serve and Shutdown of pkg/server/server.go and pkg/admin/server/server.go. The results of
-- library calls are arguments, and a socket is a number. The nodes that gossip tells of while it starts
-- are the node's first events; of those a start has the connections that their clients open.
use Prim.Native.Nat.{◌/◌}
use fuddle.Metrics.{Runtime}
use fuddle.Cluster.{Cluster, on_join, on_leave}
use fuddle.Config.{Config}
use fuddle.Gossip as Gossip
use fuddle.Gossip.{MemberlistConfig, Opt, with_on_join, with_on_leave}
use fuddle.Logger.{Level, info_level}
use fuddle.Node as Node
use fuddle.Node.{Node, new_node}
use fuddle.Sockets.{close_sockets, Outcome, returned, failed, panicked, after, listen}
use fuddle.Prelude.{
  ℕ, suc, ◌-◌, ◌^◌, String, Bool, true, false, Option, none, some, List, [], ◌∷◌, ◌++◌, ℤ, pos,
  negsuc, int64, ite, string_dec, if◌then◌else◌,
}

pub record Options : Type 0 where
  pub gossip_tcp_listener : Option ℕ
  pub gossip_udp_listener : Option ℕ
  pub rpc_listener : Option ℕ
  pub admin_listener : Option ℕ
  pub log_level : Level
  pub log_path : String

unfoldable pub default_options : Options
default_options = record {
  gossip_tcp_listener = none;
  gossip_udp_listener = none;
  rpc_listener = none;
  admin_listener = none;
  log_level = info_level;
  log_path = "";
}

pub data StartOpt : Type 0 where
  with_gossip_tcp_listener with_gossip_udp_listener : (ln : ℕ) → StartOpt
  with_rpc_listener with_admin_listener : (ln : ℕ) → StartOpt
  with_log_level : Level → StartOpt
  with_log_path : String → StartOpt

unfoldable pub apply : StartOpt → Options → Options
apply (with_gossip_tcp_listener ln) o = record o { gossip_tcp_listener = some ln }
apply (with_gossip_udp_listener ln) o = record o { gossip_udp_listener = some ln }
apply (with_rpc_listener ln) o = record o { rpc_listener = some ln }
apply (with_admin_listener ln) o = record o { admin_listener = some ln }
apply (with_log_level level) o = record o { log_level = level }
apply (with_log_path path) o = record o { log_path = path }

unfoldable pub apply_all : List StartOpt → Options → Options
unfolding apply
apply_all [] o = o
apply_all (opt ∷ opts) o = apply_all opts (apply opt o)

-- `Duration.Milliseconds`, an int64.
unfoldable pub milliseconds : ℤ → ℕ
milliseconds (pos d) = int64 (d / 1000000)
milliseconds (negsuc d) = 2 ^ 63 - suc d / 1000000

unfoldable pub registry_config : Config → Node.Config
unfolding milliseconds
registry_config conf = record {
  node_id = conf.node_id;
  heartbeat_timeout = milliseconds conf.registry.heartbeat_timeout;
  reconnect_timeout = milliseconds conf.registry.reconnect_timeout;
  tombstone_timeout = milliseconds conf.registry.tombstone_timeout;
}

-- A node that runs, with its servers' sockets, the connections of the clients that OnJoin dialled
-- while it started, and whether `done` is closed.
pub record Running : Type 0 where
  pub config : Config
  pub node : Node
  pub gossip : MemberlistConfig Cluster
  pub rpc_server : ℕ
  pub admin_server : ℕ
  pub client_conns : List ℕ
  pub done : Bool

-- The results of the library calls of a start: making the logger, `net.ListenTCP` for the two
-- servers, those of gossip, and the connections that OnJoin dials for the nodes that gossip tells of
-- while it starts.
pub record Calls : Type 0 where
  pub logger : Bool
  pub admin_listen : Option ℕ
  pub gossip : Gossip.Calls
  pub dialled : List ℕ
  pub rpc_listen : Option ℕ

unfoldable pub given : (ℕ → Opt Cluster) → Option ℕ → List (Opt Cluster)
given with_listener none = []
given with_listener (some ln) = with_listener ln ∷ []

-- The callbacks open their connections before the call returns, whether it fails or not.
unfoldable pub opening {ℓ} : {A : Type ℓ} → List ℕ → Outcome A × List ℕ → Outcome A × List ℕ
opening conns (o, opened) = (o, conns ++ opened)

module _ (rt : Runtime) (itoa : ℤ → String) (dial : String → Bool) where
  -- The callbacks leave the node itself out.
  unfoldable pub gossip_options : Config → Options → List (Opt Cluster)
  unfolding given
  gossip_options conf options =
      given Gossip.with_tcp_listener options.gossip_tcp_listener
      ++ given Gossip.with_udp_listener options.gossip_udp_listener
      ++ with_on_join (λ node clock c.
        ite (string_dec node.id conf.node_id) c (on_join rt c node.id (dial node.rpc_addr)))
        ∷ with_on_leave
            (λ node clock c. ite (string_dec node.id conf.node_id) c (on_leave rt c node.id clock))
        ∷ []

  -- After the logger: the admin server, gossip and the RPC server.
  unfoldable pub start_servers :
      Config → Options → Calls → (started clock : ℕ) → List ℕ → Outcome Running × List ℕ
  unfolding after listen opening gossip_options registry_config
  start_servers conf options calls started clock opened =
      after (listen options.admin_listener calls.admin_listen opened) λ admin opened.
        after
          (opening calls.dialled
            (Gossip.new_gossip itoa conf (gossip_options conf options) calls.gossip opened))
          λ gossip opened. after (listen options.rpc_listener calls.rpc_listen opened) λ ln opened.
            (
              returned (record {
                config = conf;
                node = new_node rt (registry_config conf) started clock;
                gossip = gossip;
                rpc_server = ln;
                admin_server = admin;
                client_conns = calls.dialled;
                done = false;
              }),
              opened,
            )

  unfoldable pub start_node :
      Config → List StartOpt → Calls → (started clock : ℕ) → List ℕ → Outcome Running × List ℕ
  unfolding default_options apply_all start_servers
  start_node conf opts calls started clock opened =
      if calls.logger
      then start_servers conf (apply_all opts default_options) calls started clock opened
      else (failed, opened)

-- The calls close `done`, which panics the second time, then what the servers and gossip listen on;
-- the clients of the cluster are not closed.
unfoldable pub shutdown : Running → List ℕ → Outcome Running × List ℕ
unfolding close_sockets
shutdown n opened = if n.done then (panicked, opened) else (
  returned (record n { done = true }),
  close_sockets (n.admin_server ∷ [])
      (Gossip.shutdown n.gossip (close_sockets (n.rpc_server ∷ []) opened)),
)
