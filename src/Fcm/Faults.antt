-- ===== src/Fcm/Faults.antt =====
-- The faults that pkg/fcm/cluster/cluster.go makes: DropActiveConns and BlockActiveConns on the proxies
-- of a cluster's nodes, which are kept by the id of their node.
use fuddle.Fcm.Proxy.{Proxy, drop, block_active_conns as block}
use fuddle.Fcm.World.{FuddleNode, Cluster}
use fuddle.StringMap.{StringMap, lookup, insert}
use fuddle.Prelude.{Option, none, some, List, [], ◌∷◌}

with_proxy : (Proxy → Proxy) → FuddleNode → Option Proxy → StringMap Proxy → StringMap Proxy
unfolding insert
with_proxy f n none proxies = proxies
with_proxy f n (some p) proxies = insert n.node_id (f p) proxies

on_proxies : (Proxy → Proxy) → List FuddleNode → StringMap Proxy → StringMap Proxy
unfolding with_proxy lookup
on_proxies f [] proxies = proxies
on_proxies f (n ∷ ns) proxies = on_proxies f ns (with_proxy f n (lookup n.node_id proxies) proxies)

unfoldable drop_active_conns : Cluster → StringMap Proxy → StringMap Proxy
unfolding on_proxies drop
drop_active_conns c proxies = on_proxies drop c.fuddle_nodes proxies

unfoldable block_active_conns : Cluster → StringMap Proxy → StringMap Proxy
unfolding on_proxies block
block_active_conns c proxies = on_proxies block c.fuddle_nodes proxies
