-- ===== src/Fcm/Proxy.antt =====
-- pkg/fcm/cluster/proxy.go: the TCP forwarder before a node's RPC listener. Its goroutines are a
-- sequence of events, one for each point at which another one may run between; an event that does not
-- fit the state changes nothing.
use fuddle.Prelude.{
  ℕ, zero, suc, String, Bool, true, false, List, [], ◌∷◌, ◌++◌, map, if◌then◌else◌,
}

-- Where the loop of `forward` is: before a Read, between the Read of a chunk and the test of the flag,
-- before the Write of one; or it has returned, after a Write or a Read that failed.
pub data Phase : Type 0 where
  reading ended : Phase
  checking writing failed : (chunk : String) → Phase

-- One `forward`, with the chunks that it has read and those that it has written, oldest first.
pub record Direction : Type 0 where
  pub phase : Phase
  pub taken : List String
  pub written : List String

pub data Move : Type 0 where
  read : (chunk : String) → Move
  read_fails check write write_fails : Move

unfoldable pub start_forward : Direction
start_forward = record { phase = reading; taken = []; written = [] }

unfoldable pub after_read : (closed : Bool) → String → Direction → Direction
after_read true chunk d = record d { phase = ended }
after_read false chunk d = record d { phase = checking chunk; taken = d.taken ++ (chunk ∷ []) }

unfoldable pub after_write : (closed : Bool) → String → Direction → Direction
after_write true chunk d = record d { phase = failed chunk }
after_write false chunk d = record d { phase = reading; written = d.written ++ (chunk ∷ []) }

unfoldable pub forward_at : Phase → (blocked closed : Bool) → Move → Direction → Direction
unfolding after_read after_write
forward_at reading blocked closed (read chunk) d = after_read closed chunk d
forward_at reading blocked closed read_fails d = record d { phase = ended }
forward_at (checking chunk) blocked closed check d = record d {
  phase = if blocked then reading else writing chunk;
}
forward_at (writing chunk) blocked closed write d = after_write closed chunk d
forward_at (writing chunk) blocked closed write_fails d = record d { phase = failed chunk }
forward_at phase blocked closed move d = d

unfoldable pub forward : (blocked closed : Bool) → Move → Direction → Direction
unfolding forward_at
forward blocked closed move d = forward_at d.phase blocked closed move d

-- The two directions share the flag and the sockets.
pub record ProxyConn : Type 0 where
  pub to_downstream : Direction
  pub to_upstream : Direction
  pub blocked : Bool
  pub closed : Bool

pub data Side : Type 0 where
  downstream upstream : Side

unfoldable pub new_proxy_conn : ProxyConn
unfolding start_forward
new_proxy_conn = record {
  to_downstream = start_forward;
  to_upstream = start_forward;
  blocked = false;
  closed = false;
}

unfoldable pub set_block : Bool → ProxyConn → ProxyConn
set_block blocked c = record c { blocked = blocked }

unfoldable pub close_conn : ProxyConn → ProxyConn
close_conn c = record c { closed = true }

unfoldable pub conn_step : Side → Move → ProxyConn → ProxyConn
unfolding forward
conn_step downstream move c = record c {
  to_downstream = forward c.blocked c.closed move c.to_downstream;
}
conn_step upstream move c = record c { to_upstream = forward c.blocked c.closed move c.to_upstream }

-- Where `acceptLoop` is: at Accept, at Dial, before it takes the lock to put its new connection, which
-- forwards already, into the map, or it has returned.
pub data Accepting : Type 0 where
  accepting dialing stopped : Accepting
  joining : ProxyConn → Accepting

-- `conns`: those of the map. `dropped`: those that Drop took out of it.
pub record Proxy : Type 0 where
  pub conns : List ProxyConn
  pub dropped : List ProxyConn
  pub loop : Accepting
  pub listening : Bool

unfoldable pub new_proxy : Proxy
new_proxy = record { conns = []; dropped = []; loop = accepting; listening = true }

unfoldable pub drop : Proxy → Proxy
unfolding close_conn
drop p = record p { conns = []; dropped = map close_conn p.conns ++ p.dropped }

unfoldable pub block_active_conns : Proxy → Proxy
unfolding set_block
block_active_conns p = record p { conns = map (set_block true) p.conns }

unfoldable pub close : Proxy → Proxy
unfolding close_conn
close p = record p { conns = map close_conn p.conns; listening = false }

-- What the accept loop does next: the results of Accept and of Dial are events.
pub data AcceptEvent : Type 0 where
  accept accept_fails dial dial_fails join : AcceptEvent

unfoldable pub accept_step : Accepting → AcceptEvent → Proxy → Proxy
unfolding new_proxy_conn
accept_step accepting accept p = record p { loop = if p.listening then dialing else stopped }
accept_step accepting accept_fails p = record p { loop = stopped }
accept_step dialing dial p = record p { loop = joining new_proxy_conn }
accept_step dialing dial_fails p = record p { loop = stopped }
accept_step (joining c) join p = record p { conns = c ∷ p.conns; loop = accepting }
accept_step loop e p = p

unfoldable pub move_at : ℕ → Side → Move → List ProxyConn → List ProxyConn
unfolding conn_step
move_at i side move [] = []
move_at zero side move (c ∷ cs) = conn_step side move c ∷ cs
move_at (suc i) side move (c ∷ cs) = c ∷ move_at i side move cs

unfoldable pub move_joining : Side → Move → Accepting → Accepting
unfolding conn_step
move_joining side move (joining c) = joining (conn_step side move c)
move_joining side move loop = loop

pub data Event : Type 0 where
  drop_all block_all close_all : Event
  loop_event : AcceptEvent → Event
  moves_conn moves_dropped : (i : ℕ) → Side → Move → Event
  moves_joining : Side → Move → Event

unfoldable pub proxy_step : Event → Proxy → Proxy
unfolding drop block_active_conns close accept_step move_at move_joining
proxy_step drop_all p = drop p
proxy_step block_all p = block_active_conns p
proxy_step close_all p = close p
proxy_step (loop_event e) p = accept_step p.loop e p
proxy_step (moves_conn i side move) p = record p { conns = move_at i side move p.conns }
proxy_step (moves_dropped i side move) p = record p { dropped = move_at i side move p.dropped }
proxy_step (moves_joining side move) p = record p { loop = move_joining side move p.loop }

unfoldable pub run_proxy : List Event → Proxy → Proxy
unfolding proxy_step
run_proxy [] p = p
run_proxy (e ∷ es) p = run_proxy es (proxy_step e p)
