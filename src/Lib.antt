-- ===== src/Lib.antt =====
-- Fuddle: a model of the registry and of how it is replicated.
--
-- Fuddle is a service registry. Each node keeps a registry of members (pkg/registry/registry): its
-- clients add members and send heartbeats over streams (pkg/registry/server), and the node that a
-- member's stream is connected to owns the member. A failure detector marks silent members down, then
-- left, and removes left ones. The owner forwards each update to the clients of the other nodes
-- (pkg/cluster, pkg/registry/client), and nodes repair missed updates by digests and deltas. Gossip
-- tells a node which other nodes join and leave. pkg/registryv2 is a second version in progress.
--
-- The files and what they model:
--   Prelude, StringMap   numbers, int64 words, Go's map[string]V as an association list
--   Rpc                  the messages of the fuddle-rpc package, with the fields that the code uses
--   Metrics              pkg/metrics/metrics.go: gauges and counters
--   Registry.Version     compareVersions, compareTimestamps, copyMember (registry.go, replicarepair.go)
--   Registry.Options     pkg/registry/registry/options.go
--   Registry.State       the Registry struct, NewRegistry, updateMemberLocked, setMemberLocked, ...
--   Registry.Members     AddMember, MemberHeartbeat, RemoveMember, RemoteUpdate, OnNodeJoin, OnNodeLeave
--                        and the reads
--   Registry.Subscribe   Subscribe, SubscribeLocal and the updates that a subscriber has missed
--   Registry.Liveness    pkg/registry/registry/failuredetector.go
--   Registry.Repair      pkg/registry/registry/replicarepair.go
--   Registry.Shuffle     shuffleStrings of replicarepair.go
--   Registry.Runs        any sequence of calls; Kept, Stable and Sweep are the rule for
--                        invariants
--   Registry.Metered, LastSeen, LocalMember, Keys, Versions, Replication, Rounds, Detection, Digests,
--   Deltas, Tombstones, Subscribing, Forwarding, Delivered, Visits, Convergence   theorems about the
--                        registry
--   Client, Client.Pending  pkg/registry/client/replicaclient.go and options.go; Client.CatchUp is about
--                        a Sync from end to end, Client.Sending about the send loop
--   Server               pkg/registry/server
--   Cluster              pkg/cluster/cluster.go
--   Cluster.Runs, Cluster.Nodes  any sequence of its events, and what they keep; Cluster.Membership is
--                        about the nodes it has, by the joins and leaves, and Cluster.Bootstrap about
--                        what a node that joins is sent
--   RegistryV2           pkg/registryv2/registry; Digest has its repair, Runs its runs, Metered, Known and
--                        Agreement theorems about it
--   Logger               pkg/logger: the zap core that counts warnings and errors
--   Config, Sockets, Gossip  pkg/config; the listeners of pkg/server and pkg/admin/server; pkg/gossip
--   Node                 pkg/node/node.go: a registry and a cluster put together; Consistent, Membership,
--                        Forwarding, Delivered and Queued are theorems about it. Network has the Update
--                        RPCs between two nodes, and Replicated and Bootstrapped are about members from
--                        end to end; Start has NewNode and Shutdown with the servers and gossip, and
--                        Released, Abandoned and Wired are about it
--   Cli                  pkg/cli/start: the flags of a node and its run
--   Fcm                  pkg/fcm, which runs clusters of nodes on one machine for tests. World has the
--                        data of a cluster and what a step changes, Options options.go, Cluster
--                        cluster.go and member.go, Health its WaitForHealthy, Manager
--                        clustermanager.go, Proxy proxy.go, Faults the methods of a cluster that call
--                        proxies, Api the messages of server/server.go, Server its handlers and Routes
--                        its routes; Client is client/client.go, Wire has the JSON objects between it
--                        and the server, and Start is fcm.go and options.go; Steps and Occurrences are
--                        rules for chains of steps and for counting ids, the others theorems
--   Tests                the theorems at concrete inputs
--
-- A method that changes its receiver is a function to the new record. The mutex of a registry makes
-- each call atomic, so concurrent callers are a sequence of calls. Log lines and the Prometheus
-- vectors are output and are left out.
--
-- Numbers: an int64 of value v is the number v + 2^63, so the signed order is the order of the
-- numbers, and sums and differences wrap (Prelude.Word). A counter of versions is a uint64. A float64
-- that only counts is an integer.
--
-- Arguments of the model: what the clock reads at each call of time.Now, the order in which Go visits
-- a map, what shuffleStrings returns, what an RPC returns, the messages of a stream, the library
-- functions of the record Metrics.Runtime, what the memberlist library and the transport return,
-- whether a dial or a listen succeeds and the connections that are dialled, and in Fcm the sockets, NewNode, Connect, the answers of the
-- nodes, and the library functions of the records Net, Proto, Mux and Codec. The theorems hold for all
-- of them, but for what Fcm.Transparent supposes of the router and of the codec and Node.Abandoned of
-- what gossip closes.
--
-- No loop needs fuel: each runs over a list, or as many rounds as Fcm.Rounds shows for the loops up
-- to an int.
--
-- Not modelled: the memberlist library and, in pkg/gossip/transport.go, a copy of its net transport;
-- serving HTTP and gRPC; the commands other than start, which print; and the demos.
pub mod Prelude
pub mod StringMap
pub mod Rpc
pub mod Metrics
pub mod Registry
pub mod Client
pub mod Server
pub mod Cluster
pub mod RegistryV2
pub mod Logger
pub mod Node
pub mod Sockets
pub mod Config
pub mod Gossip
pub mod Cli
pub mod Fcm
pub mod Tests
