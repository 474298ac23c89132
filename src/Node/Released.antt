-- ===== src/Node/Released.antt =====
-- Which sockets a node holds from its start to its end.
use fuddle.Metrics.{Runtime}
use fuddle.Cluster.{Cluster}
use fuddle.Config.{Config}
use fuddle.Gossip.{
  MemberlistConfig, Called, called, fails, Callback, new_gossip, after_transport, after_create,
  after_join, memberlist_config,
}
use fuddle.Gossip as Gossip
use fuddle.Node.Start.{
  Options, StartOpt, default_options, apply_all, Running, Calls, start_servers, start_node,
  shutdown, opening,
}
use fuddle.Sockets.{
  has, close_sockets, has-close_sockets, has-append, returned, failed, panicked, listen, Returns,
  after-Returns,
}
use fuddle.Prelude.{
  ℕ, String, Bool, true, false, not, ◌&&◌, ◌||◌, ◌++◌, sym, ap, ◌∙◌, Option, none, some, List, [],
  ◌∷◌, ℤ, ◌≡◌, refl, arith, if_intro,
}

-- The same sockets are open, but for some.
abbrev SameBut : List ℕ → List ℕ → List ℕ → Type 0
SameBut but opened now = (s : ℕ) → has s but ≡ false → has s now ≡ has s opened

listen-SameBut :
    (given listened : Option ℕ) (opened : List ℕ)
    → Returns (λ ln. SameBut (ln ∷ []) opened) (listen given listened opened)
unfolding listen has
listen-SameBut (some ln) listened opened = λ s e. refl
listen-SameBut none (some ln) opened = λ s e. ground (arith, e)
listen-SameBut none none opened = tt

abbrev sockets_of : ℕ × ℕ → List ℕ
sockets_of (tcp, udp) = tcp ∷ udp ∷ []

module _ {S : Type 0} (opened : List ℕ) where
  abbrev Kept : MemberlistConfig S → List ℕ → Type 0
  Kept g = SameBut (sockets_of g.transport) opened

  after_create-SameBut :
      (x : Called (Unit {0})) (calls : Gossip.Calls) (seeds : List String) (g : MemberlistConfig S)
      (now : List ℕ)
      → Kept g now
      → Returns Kept (after_create x calls seeds g now)
  unfolding after_create after_join
  after_create-SameBut (fails closed) calls seeds g now k = tt
  after_create-SameBut (called u) calls [] g now k = k
  after_create-SameBut (called u) calls (seed ∷ seeds) g now k = joined calls.join
    where
      joined : (x : Called (Unit {0})) → Returns Kept (after_join g x now)
      joined (fails closed) = tt
      joined (called u) = k

  new_gossip-SameBut :
      (itoa : ℤ → String) (conf : Config) (opts : List (Gossip.Opt S)) (calls : Gossip.Calls)
      → Returns Kept (new_gossip itoa conf opts calls opened)
  unfolding new_gossip after_transport has memberlist_config
  new_gossip-SameBut itoa conf opts calls =
      let options = Gossip.apply_all opts Gossip.default_options in
      transported options (calls.new_transport options.tcp_listener options.udp_listener)
    where
      transported :
          (options : Gossip.Options S) (x : Called (ℕ × ℕ))
          → Returns Kept (after_transport itoa conf options calls x opened)
      transported options (fails closed) = tt
      transported options (called (tcp, udp)) =
          after_create-SameBut calls.create calls conf.gossip.seeds
            (memberlist_config itoa conf options (tcp, udp)) (tcp ∷ udp ∷ opened)
            (λ s e. ground (arith, e))

-- The sockets of a node that runs.
abbrev pub sockets : Running → List ℕ
sockets n = n.rpc_server ∷ n.admin_server ∷ sockets_of n.gossip.transport

-- Shutdown of a node leaves what was open `before` its start and the connections of its clients, less
-- what its servers and its gossip listen on.
abbrev pub IsReleased : (before : List ℕ) → Running → List ℕ → Type 0
IsReleased before n now =
    ((shutdown n now).0 ≡ returned (record n { done = true }))
    × ((s : ℕ)
        → has s (shutdown n now).1
          ≡ (has s before || has s n.client_conns) && not (has s (sockets n)))

shutdown-IsReleased :
    (before : List ℕ) (n : Running) (now : List ℕ)
    → n.done ≡ false
    → SameBut (sockets n) (n.client_conns ++ before) now
    → IsReleased before n now
unfolding shutdown Gossip.shutdown has
shutdown-IsReleased before n now running k =
    let (tcp, udp) = n.gossip.transport in
    let without_rpc = close_sockets (n.rpc_server ∷ []) now in
    let without_gossip = close_sockets (tcp ∷ udp ∷ []) without_rpc in
    (
      rw running refl,
      λ s. rw running (
          let rpc = has-close_sockets s (n.rpc_server ∷ []) now in
          let gossip = has-close_sockets s (tcp ∷ udp ∷ []) without_rpc in
          let admin = has-close_sockets s (n.admin_server ∷ []) without_gossip in
          let same = k s in
          let both = has-append s n.client_conns before in
          ground (arith, rpc, gossip, admin, same, both)),
    )

opening-SameBut :
    (conns at_admin : List ℕ) (x : _)
    → Returns (λ (g : MemberlistConfig Cluster). SameBut (sockets_of g.transport) at_admin) x
    → Returns
        (λ (g : MemberlistConfig Cluster). SameBut (sockets_of g.transport) (conns ++ at_admin))
        (opening conns x)
unfolding opening
opening-SameBut conns at_admin (returned g, now) k = λ s e.
    has-append s conns now ∙ ap (λ b. has s conns || b) (k s e) ∙ sym (has-append s conns at_admin)
opening-SameBut conns at_admin (failed, now) k = tt
opening-SameBut conns at_admin (panicked, now) k = tt

module _ (rt : Runtime) (itoa : ℤ → String) (dial : String → Bool) (conf : Config)
    (opts : List StartOpt) (calls : Calls) (started clock : ℕ) (opened : List ℕ) where
  servers-IsReleased :
      (options : Options)
      → Returns
          (IsReleased opened)
          (start_servers rt itoa dial conf options calls started clock opened)
  unfolding start_servers has
  servers-IsReleased options =
      after-Returns (λ admin. SameBut (admin ∷ []) opened) (IsReleased opened) _ _
        (listen-SameBut options.admin_listener calls.admin_listen opened)
        (λ admin at_admin a.
          after-Returns (λ g. SameBut (sockets_of g.transport) (calls.dialled ++ at_admin))
            (IsReleased opened) _ _
            (opening-SameBut calls.dialled at_admin _
              (new_gossip-SameBut at_admin itoa conf _ calls.gossip))
            (λ g at_gossip b.
              after-Returns (λ ln. SameBut (ln ∷ []) at_gossip) (IsReleased opened) _ _
                (listen-SameBut options.rpc_listener calls.rpc_listen at_gossip)
                (λ ln now c. shutdown-IsReleased opened _ now refl (λ s e. ground (
                  arith,
                  a s,
                  b s,
                  c s,
                  e,
                  has-append s calls.dialled at_admin,
                  has-append s calls.dialled opened,
                )))))

  -- Where a start returns a node, Shutdown returns and leaves open exactly the sockets that were open
  -- before the start and the connections that OnJoin dialled during it, less those that the node's
  -- servers and its gossip listen on: the connections of the clients are not closed.
  pub start_node-IsReleased :
      Returns (IsReleased opened) (start_node rt itoa dial conf opts calls started clock opened)
  unfolding start_node
  start_node-IsReleased =
      if_intro (Returns (IsReleased opened)) calls.logger
        (λ _. servers-IsReleased (apply_all opts default_options)) (λ _. tt)
