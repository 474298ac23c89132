-- ===== src/Fcm/Proxied.antt =====
-- What holds of all connections of a proxy, whatever happens.
use fuddle.Fcm.Proxy.{
  Move, ProxyConn, Side, downstream, upstream, set_block, close_conn, conn_step, Accepting,
  accepting, dialing, stopped, joining, Proxy, new_proxy, drop, block_active_conns, close,
  AcceptEvent, accept, accept_fails, dial, dial_fails, join, accept_step, move_at, move_joining,
  Event, drop_all, block_all, close_all, loop_event, moves_conn, moves_dropped, moves_joining,
  proxy_step, run_proxy,
}
use fuddle.Prelude.{
  ℕ, zero, suc, Bool, true, false, ◌≡◌, refl, subst, List, [], ◌∷◌, map, All, All-append, All-map,
  if◌then◌else◌,
}
use fuddle.Fcm.Forwarded.{
  IsFaithfulConn, IsFaithful-blocked, conn_step-IsFaithfulConn, new_proxy_conn-IsFaithfulConn,
}

All-move_at :
    (P : ProxyConn → Type 0) (i : ℕ) (side : Side) (move : Move) (cs : List ProxyConn)
    → ((c : ProxyConn) → P c → P (conn_step side move c))
    → All P cs
    → All P (move_at i side move cs)
unfolding move_at
All-move_at P i side move [] h p = tt
All-move_at P zero side move (c ∷ cs) h p = (h c p.0, p.1)
All-move_at P (suc i) side move (c ∷ cs) h p = (p.0, All-move_at P i side move cs h p.1)

-- A connection that Drop took out of the map.
abbrev IsDropped : ProxyConn → Type 0
IsDropped c = IsFaithfulConn c × (c.closed ≡ true)

abbrev IsJoined : Accepting → Type 0
IsJoined accepting = Unit
IsJoined dialing = Unit
IsJoined stopped = Unit
IsJoined (joining c) = IsFaithfulConn c

-- In the map, out of it, and before it is put into it, in both directions.
abbrev pub IsForwarding : Proxy → Type 0
IsForwarding p = All IsFaithfulConn p.conns × All IsDropped p.dropped × IsJoined p.loop

close_conn-IsDropped : (c : ProxyConn) → IsFaithfulConn c → IsDropped (close_conn c)
unfolding close_conn
close_conn-IsDropped c f = (f, refl)

conn_step-IsDropped :
    (side : Side) (move : Move) (c : ProxyConn) → IsDropped c → IsDropped (conn_step side move c)
unfolding conn_step
conn_step-IsDropped downstream move c f = (conn_step-IsFaithfulConn downstream move c f.0, f.1)
conn_step-IsDropped upstream move c f = (conn_step-IsFaithfulConn upstream move c f.0, f.1)

module _ (p : Proxy) (f : IsForwarding p) where
  accept_step-IsForwarding :
      (loop : Accepting) (e : AcceptEvent) → p.loop ≡ loop → IsForwarding (accept_step loop e p)
  unfolding accept_step
  accept_step-IsForwarding accepting accept q = heard p.listening
    where
      heard : (b : Bool) → IsForwarding (record p { loop = if b then dialing else stopped })
      heard true = (f.0, f.1, tt)
      heard false = (f.0, f.1, tt)
  accept_step-IsForwarding accepting accept_fails q = (f.0, f.1, tt)
  accept_step-IsForwarding dialing dial q = (f.0, f.1, new_proxy_conn-IsFaithfulConn)
  accept_step-IsForwarding dialing dial_fails q = (f.0, f.1, tt)
  accept_step-IsForwarding (joining c) join q = ((subst IsJoined q f.2, f.0), f.1, tt)
  accept_step-IsForwarding loop e q = f

  proxy_step-IsForwarding : (e : Event) → IsForwarding (proxy_step e p)
  unfolding proxy_step drop block_active_conns close close_conn set_block
  proxy_step-IsForwarding drop_all = (
    tt,
    All-append IsDropped (map close_conn p.conns) p.dropped
        (All-map IsFaithfulConn IsDropped close_conn p.conns close_conn-IsDropped f.0) f.1,
    f.2,
  )
  proxy_step-IsForwarding block_all = (
    All-map IsFaithfulConn IsFaithfulConn (set_block true) p.conns
        (λ c k. (
          IsFaithful-blocked c.blocked c.to_downstream k.0,
          IsFaithful-blocked c.blocked c.to_upstream k.1,
        ))
        f.0,
    f.1,
    f.2,
  )
  proxy_step-IsForwarding close_all =
      (All-map IsFaithfulConn IsFaithfulConn close_conn p.conns (λ c k. k) f.0, f.1, f.2)
  proxy_step-IsForwarding (loop_event e) = accept_step-IsForwarding p.loop e refl
  proxy_step-IsForwarding (moves_conn i side move) = (
    All-move_at IsFaithfulConn i side move p.conns (conn_step-IsFaithfulConn side move) f.0,
    f.1,
    f.2,
  )
  proxy_step-IsForwarding (moves_dropped i side move) =
      (f.0, All-move_at IsDropped i side move p.dropped (conn_step-IsDropped side move) f.1, f.2)
  proxy_step-IsForwarding (moves_joining side move) = (f.0, f.1, moved p.loop f.2)
    where
      moved : (loop : Accepting) → IsJoined loop → IsJoined (move_joining side move loop)
      moved accepting k = k
      moved dialing k = k
      moved stopped k = k
      moved (joining c) k = conn_step-IsFaithfulConn side move c k

run_proxy-from : (es : List Event) (p : Proxy) → IsForwarding p → IsForwarding (run_proxy es p)
unfolding run_proxy
run_proxy-from [] p f = f
run_proxy-from (e ∷ es) p f = run_proxy-from es (proxy_step e p) (proxy_step-IsForwarding p f e)

-- Whatever happens to a proxy from its start, in both directions of each connection the chunks that
-- were written, with the one that the loop holds if any, are those that were read, in their order, with
-- some left out; none is left out unless the connection was blocked; and a connection that Drop took
-- out of the map is closed.
pub run_proxy-IsForwarding : (es : List Event) → IsForwarding (run_proxy es new_proxy)
unfolding new_proxy
run_proxy-IsForwarding es = run_proxy-from es new_proxy (tt, tt, tt)
