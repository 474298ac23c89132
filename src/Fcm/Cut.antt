-- ===== src/Fcm/Cut.antt =====
-- What no longer happens: to a connection that is blocked or closed, and to a proxy that failed to dial.
use mathlib.Core.List.{append-nil}
use fuddle.Fcm.Proxy.{
  Phase, reading, ended, checking, writing, failed, Direction, Move, read, read_fails, check, write,
  write_fails, after_read, after_write, forward_at, forward, ProxyConn, Side, downstream, upstream,
  set_block, close_conn, conn_step, dialing, stopped, Proxy, drop, block_active_conns, close,
  dial_fails, accept_step, move_at, move_joining, Event, drop_all, block_all, close_all, loop_event,
  moves_conn, moves_dropped, moves_joining, proxy_step, run_proxy,
}
use fuddle.Prelude.{
  ℕ, zero, suc, String, Bool, true, false, ◌≡◌, refl, sym, subst, ap, ◌∙◌, List, [], ◌∷◌, ◌++◌, map,
  arith, length, length-append, length-map, ◌+◌,
}

-- What may still happen to one connection; the flag is only ever set.
pub data ConnEvent : Type 0 where
  moves : Side → Move → ConnEvent
  blocks closes : ConnEvent

unfoldable pub run_conn : List ConnEvent → ProxyConn → ProxyConn
unfolding conn_step set_block close_conn
run_conn [] c = c
run_conn (moves side move ∷ es) c = run_conn es (conn_step side move c)
run_conn (blocks ∷ es) c = run_conn es (set_block true c)
run_conn (closes ∷ es) c = run_conn es (close_conn c)

-- The chunk that has passed the test of the flag.
abbrev held : Phase → List String
held reading = []
held ended = []
held (checking chunk) = []
held (writing chunk) = chunk ∷ []
held (failed chunk) = chunk ∷ []

-- The chunks that have passed the test of the flag: those written, and the one that is next.
abbrev pub passed : Direction → List String
passed d = d.written ++ held d.phase

abbrev pub IsSilenced : ProxyConn → ProxyConn → Type 0
IsSilenced c e =
    (passed e.to_downstream ≡ passed c.to_downstream)
    × (passed e.to_upstream ≡ passed c.to_upstream)

abbrev pub IsSevered : ProxyConn → ProxyConn → Type 0
IsSevered c e =
    (e.to_downstream.written ≡ c.to_downstream.written)
    × (e.to_downstream.taken ≡ c.to_downstream.taken)
    × (e.to_upstream.written ≡ c.to_upstream.written)
    × (e.to_upstream.taken ≡ c.to_upstream.taken)

module _ (d : Direction) where
  passed-forward_at :
      (phase : Phase) (closed : Bool) (move : Move)
      → d.phase ≡ phase
      → passed (forward_at phase true closed move d) ≡ passed d
  unfolding forward_at after_read after_write
  passed-forward_at reading true (read chunk) e = ap (λ p. d.written ++ held p) (sym e)
  passed-forward_at reading false (read chunk) e = ap (λ p. d.written ++ held p) (sym e)
  passed-forward_at reading closed read_fails e = ap (λ p. d.written ++ held p) (sym e)
  passed-forward_at (checking chunk) closed check e = ap (λ p. d.written ++ held p) (sym e)
  passed-forward_at (writing chunk) true write e = ap (λ p. d.written ++ held p) (sym e)
  passed-forward_at (writing chunk) false write e =
      append-nil (d.written ++ (chunk ∷ [])) ∙ ap (λ p. d.written ++ held p) (sym e)
  passed-forward_at (writing chunk) closed write_fails e = ap (λ p. d.written ++ held p) (sym e)
  passed-forward_at phase closed move e = refl

  written-forward_at :
      (phase : Phase) (blocked : Bool) (move : Move)
      → ((forward_at phase blocked true move d).written ≡ d.written)
        × ((forward_at phase blocked true move d).taken ≡ d.taken)
  unfolding forward_at after_read after_write
  written-forward_at reading blocked (read chunk) = (refl, refl)
  written-forward_at reading blocked read_fails = (refl, refl)
  written-forward_at (checking chunk) blocked check = (refl, refl)
  written-forward_at (writing chunk) blocked write = (refl, refl)
  written-forward_at (writing chunk) blocked write_fails = (refl, refl)
  written-forward_at phase blocked move = (refl, refl)

run_conn-IsSilenced :
    (es : List ConnEvent) (c : ProxyConn) → c.blocked ≡ true → IsSilenced c (run_conn es c)
unfolding run_conn conn_step forward set_block close_conn
run_conn-IsSilenced [] c b = (refl, refl)
run_conn-IsSilenced (moves downstream move ∷ es) c b =
    let rest = run_conn-IsSilenced es (conn_step downstream move c) b in
    let d = c.to_downstream in
    (
      rest.0
          ∙ ap (λ x. passed (forward_at d.phase x c.closed move d)) b
          ∙ passed-forward_at d d.phase c.closed move refl,
      rest.1,
    )
run_conn-IsSilenced (moves upstream move ∷ es) c b =
    let rest = run_conn-IsSilenced es (conn_step upstream move c) b in
    let d = c.to_upstream in
    (
      rest.0,
      rest.1
          ∙ ap (λ x. passed (forward_at d.phase x c.closed move d)) b
          ∙ passed-forward_at d d.phase c.closed move refl,
    )
run_conn-IsSilenced (blocks ∷ es) c b = run_conn-IsSilenced es (set_block true c) refl
run_conn-IsSilenced (closes ∷ es) c b = run_conn-IsSilenced es (close_conn c) b

run_conn-IsSevered :
    (es : List ConnEvent) (c : ProxyConn) → c.closed ≡ true → IsSevered c (run_conn es c)
unfolding run_conn conn_step forward set_block close_conn
run_conn-IsSevered [] c b = (refl, refl, refl, refl)
run_conn-IsSevered (moves downstream move ∷ es) c b =
    let rest = run_conn-IsSevered es (conn_step downstream move c) b in
    let d = c.to_downstream in
    let k = written-forward_at d d.phase c.blocked move in
    let s : (x : Bool) → Direction = λ x. forward_at d.phase c.blocked x move d in
    (
      rest.0 ∙ ap (λ x. (s x).written) b ∙ k.0,
      rest.1 ∙ ap (λ x. (s x).taken) b ∙ k.1,
      rest.2,
      rest.3,
    )
run_conn-IsSevered (moves upstream move ∷ es) c b =
    let rest = run_conn-IsSevered es (conn_step upstream move c) b in
    let d = c.to_upstream in
    let k = written-forward_at d d.phase c.blocked move in
    let s : (x : Bool) → Direction = λ x. forward_at d.phase c.blocked x move d in
    (
      rest.0,
      rest.1,
      rest.2 ∙ ap (λ x. (s x).written) b ∙ k.0,
      rest.3 ∙ ap (λ x. (s x).taken) b ∙ k.1,
    )
run_conn-IsSevered (blocks ∷ es) c b = run_conn-IsSevered es (set_block true c) b
run_conn-IsSevered (closes ∷ es) c b = run_conn-IsSevered es (close_conn c) refl

-- Whatever happens to a connection after it is blocked, no further chunk passes the test of the flag:
-- in either direction it writes at most the one that had passed it. After it is closed, it reads and
-- writes no further chunk.
pub run_conn-IsCut :
    (es : List ConnEvent) (c : ProxyConn)
    → IsSilenced c (run_conn es (set_block true c)) × IsSevered c (run_conn es (close_conn c))
unfolding set_block close_conn
run_conn-IsCut es c =
    (run_conn-IsSilenced es (set_block true c) refl, run_conn-IsSevered es (close_conn c) refl)

abbrev pub total : Proxy → ℕ
total p = length p.conns + length p.dropped

-- No further connection is made.
abbrev pub IsDeaf : Proxy → Proxy → Type 0
IsDeaf p q = (q.loop ≡ stopped) × (total q ≡ total p)

length-move_at :
    (i : ℕ) (side : Side) (move : Move) (cs : List ProxyConn)
    → length (move_at i side move cs) ≡ length cs
unfolding move_at
length-move_at i side move [] = refl
length-move_at zero side move (c ∷ cs) = refl
length-move_at (suc i) side move (c ∷ cs) = ap suc (length-move_at i side move cs)

proxy_step-IsDeaf : (e : Event) (p : Proxy) → p.loop ≡ stopped → IsDeaf p (proxy_step e p)
unfolding proxy_step drop block_active_conns close accept_step move_joining
proxy_step-IsDeaf drop_all p h = (
  h,
  (let a = length-append (map close_conn p.conns) p.dropped in
      let b = length-map close_conn p.conns in omega (arith, a, b)),
)
proxy_step-IsDeaf block_all p h =
    (h, let b = length-map (set_block true) p.conns in omega (arith, b))
proxy_step-IsDeaf close_all p h = (h, let b = length-map close_conn p.conns in omega (arith, b))
proxy_step-IsDeaf (loop_event e) p h = subst (λ l. IsDeaf p (accept_step l e p)) (sym h) (h, refl)
proxy_step-IsDeaf (moves_conn i side move) p h =
    (h, let b = length-move_at i side move p.conns in omega (arith, b))
proxy_step-IsDeaf (moves_dropped i side move) p h =
    (h, let b = length-move_at i side move p.dropped in omega (arith, b))
proxy_step-IsDeaf (moves_joining side move) p h = (ap (move_joining side move) h, refl)

run_proxy-stopped : (es : List Event) (p : Proxy) → p.loop ≡ stopped → IsDeaf p (run_proxy es p)
unfolding run_proxy
run_proxy-stopped [] p h = (h, refl)
run_proxy-stopped (e ∷ es) p h =
    let k = proxy_step-IsDeaf e p h in
    let rest = run_proxy-stopped es (proxy_step e p) k.0 in (rest.0, rest.1 ∙ k.1)

-- Once a Dial of the accept loop fails, the proxy makes no further connection, whatever happens, and
-- its listener stays as it was.
pub run_proxy-IsDeaf :
    (es : List Event) (p : Proxy)
    → p.loop ≡ dialing
    → IsDeaf p (run_proxy es (proxy_step (loop_event dial_fails) p))
      × ((proxy_step (loop_event dial_fails) p).listening ≡ p.listening)
unfolding proxy_step accept_step
run_proxy-IsDeaf es p h =
    subst
      (λ l.
        IsDeaf p (run_proxy es (accept_step l dial_fails p))
        × ((accept_step l dial_fails p).listening ≡ p.listening))
      (sym h) (run_proxy-stopped es (record p { loop = stopped }) refl, refl)
