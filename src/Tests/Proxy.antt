-- ===== src/Tests/Proxy.antt =====
-- The proxy of the test clusters at concrete inputs.
use fuddle.Fcm.Cut.{
  ConnEvent, moves, run_conn, IsSilenced, IsSevered, IsDeaf, run_conn-IsCut, run_proxy-IsDeaf,
}
use fuddle.Fcm.Proxied.{IsForwarding, run_proxy-IsForwarding}
use fuddle.Fcm.Proxy.{
  read, check, write, forward, downstream, upstream, new_proxy_conn, set_block, close_conn, dialing,
  Proxy, new_proxy, accept, dial, dial_fails, join, Event, drop_all, block_all, loop_event,
  moves_conn, proxy_step, run_proxy, conn_step, forward_at, after_read, after_write, move_at,
  accept_step, start_forward, block_active_conns,
}
use fuddle.Prelude.{◌≡◌, refl, List, [], ◌∷◌, map, true}

-- A connection is made; it forwards a chunk, reads another one, and is blocked before the test.
abbrev events : List Event
events =
    loop_event accept
    ∷ loop_event dial
    ∷ loop_event join
    ∷ moves_conn 0 downstream (read "ping")
    ∷ moves_conn 0 downstream check
    ∷ moves_conn 0 downstream write
    ∷ moves_conn 0 downstream (read "pong")
    ∷ block_all
    ∷ moves_conn 0 downstream check
    ∷ []

one_is_written :
    map (λ c. c.to_downstream.written) (run_proxy events new_proxy).conns ≡ ("ping" ∷ []) ∷ []
unfolding run_proxy proxy_step accept_step new_proxy new_proxy_conn start_forward move_at conn_step
    forward forward_at after_read after_write block_active_conns set_block
one_is_written = refl

run_proxy-IsForwarding_example : IsForwarding (run_proxy (drop_all ∷ events) new_proxy)
run_proxy-IsForwarding_example = run_proxy-IsForwarding (drop_all ∷ events)

abbrev chunks : List ConnEvent
chunks = moves upstream (read "ping") ∷ moves upstream check ∷ moves upstream write ∷ []

run_conn-IsCut_example :
    IsSilenced new_proxy_conn (run_conn chunks (set_block true new_proxy_conn))
    × IsSevered new_proxy_conn (run_conn chunks (close_conn new_proxy_conn))
run_conn-IsCut_example = run_conn-IsCut chunks new_proxy_conn

abbrev at_dial : Proxy
at_dial = record { conns = []; dropped = []; loop = dialing; listening = true }

run_proxy-IsDeaf_example :
    IsDeaf at_dial (run_proxy events (proxy_step (loop_event dial_fails) at_dial))
    × ((proxy_step (loop_event dial_fails) at_dial).listening ≡ true)
run_proxy-IsDeaf_example = run_proxy-IsDeaf events at_dial refl
