-- ===== src/Node/Wired.antt =====
-- The gossip of a node that has started: what it tells others, and what it does when others join and
-- leave.
use fuddle.Metrics.{Runtime}
use fuddle.Cluster.{Cluster}
use fuddle.Config.{Config, join_addr}
use fuddle.Gossip.{
  MemberlistConfig, Peer, Called, called, fails, Callback, new_delegate, node_meta, notify,
  new_gossip, after_transport, after_create, after_join, memberlist_config,
}
use fuddle.Gossip as Gossip
use fuddle.Node.{cluster_step, joined, left}
use fuddle.Node.Start.{
  Options, StartOpt, default_options, apply_all, Calls, given, gossip_options, start_servers,
  start_node, opening,
}
use fuddle.Sockets.{Outcome, returned, failed, panicked, listen, Returns, after-Returns}
use fuddle.Prelude.{
  ℕ, String, Bool, Option, none, some, List, [], ◌∷◌, ℤ, ◌≡◌, refl, sym, subst, if_intro,
}

opening-Returns :
    {A : Type 0} (P : A → Type 0) (conns : List ℕ) (x : Outcome A × List ℕ)
    → Returns (λ a now. P a) x
    → Returns (λ a now. P a) (opening conns x)
unfolding opening
opening-Returns P conns (returned a, now) h = h
opening-Returns P conns (failed, now) h = tt
opening-Returns P conns (panicked, now) h = tt

module _ {S : Type 0} (itoa : ℤ → String) (conf : Config) where
  IsConfigured : Gossip.Options S → MemberlistConfig S → List ℕ → Type 0
  IsConfigured options g opened = g ≡ memberlist_config itoa conf options g.transport

  after_create-IsConfigured :
      (options : Gossip.Options S) (x : Called (Unit {0})) (calls : Gossip.Calls)
      (seeds : List String) (transport : ℕ × ℕ) (opened : List ℕ)
      → Returns
          (IsConfigured options)
          (after_create x calls seeds (memberlist_config itoa conf options transport) opened)
  unfolding after_create after_join IsConfigured memberlist_config
  after_create-IsConfigured options (fails closed) calls seeds transport opened = tt
  after_create-IsConfigured options (called u) calls [] transport opened = refl
  after_create-IsConfigured options (called u) calls (seed ∷ seeds) transport opened =
      joins calls.join
    where
      joins :
          (x : Called (Unit {0}))
          → Returns
              (IsConfigured options)
              (after_join (memberlist_config itoa conf options transport) x opened)
      joins (fails closed) = tt
      joins (called u) = refl

  new_gossip-IsConfigured :
      (opts : List (Gossip.Opt S)) (calls : Gossip.Calls) (opened : List ℕ)
      → Returns
          (IsConfigured (Gossip.apply_all opts Gossip.default_options))
          (new_gossip itoa conf opts calls opened)
  unfolding new_gossip after_transport
  new_gossip-IsConfigured opts calls opened =
      let options = Gossip.apply_all opts Gossip.default_options in
      made options (calls.new_transport options.tcp_listener options.udp_listener)
    where
      made :
          (options : Gossip.Options S) (x : Called (ℕ × ℕ))
          → Returns (IsConfigured options) (after_transport itoa conf options calls x opened)
      made options (fails closed) = tt
      made options (called (tcp, udp)) =
          after_create-IsConfigured options calls.create calls conf.gossip.seeds (tcp, udp)
            (tcp ∷ udp ∷ opened)

module _ (rt : Runtime) (itoa : ℤ → String) (dial : String → Bool) (conf : Config) where
  -- The name and the metadata that the node gives to the library, and what it does when the library
  -- tells it of another node.
  abbrev pub IsWired : MemberlistConfig Cluster → Type 0
  IsWired g =
      (g.name ≡ conf.node_id)
      × ((limit : ℕ)
          → node_meta g.delegate limit ≡ join_addr itoa conf.rpc.adv_addr conf.rpc.adv_port)
      × ((peer : Peer) (clock : ℕ) (c : Cluster)
          → notify g.on_join peer clock c
            ≡ cluster_step rt conf.node_id c (joined peer.name (dial peer.meta)))
      × ((peer : Peer) (clock : ℕ) (c : Cluster)
          → notify g.on_leave peer clock c ≡ cluster_step rt conf.node_id c (left peer.name clock))

  configured-IsWired :
      (options : Options) (transport : ℕ × ℕ)
      → IsWired (
          memberlist_config itoa conf
            (Gossip.apply_all (gossip_options rt itoa dial conf options) Gossip.default_options)
            transport)
  unfolding gossip_options given Gossip.apply_all Gossip.apply memberlist_config notify node_meta
      cluster_step
  configured-IsWired options transport =
      wired options.gossip_tcp_listener options.gossip_udp_listener
    where
      wired :
          (tcp udp : Option ℕ)
          → let with_listeners : Options = record options {
            gossip_tcp_listener = tcp;
            gossip_udp_listener = udp;
          } in
            IsWired (
              memberlist_config itoa conf
                (Gossip.apply_all
                  (gossip_options rt itoa dial conf with_listeners)
                  Gossip.default_options)
                transport)
      wired none none = (refl, λ limit. refl, λ peer clock c. refl, λ peer clock c. refl)
      wired none (some udp) = (refl, λ limit. refl, λ peer clock c. refl, λ peer clock c. refl)
      wired (some tcp) none = (refl, λ limit. refl, λ peer clock c. refl, λ peer clock c. refl)
      wired (some tcp) (some udp) =
          (refl, λ limit. refl, λ peer clock c. refl, λ peer clock c. refl)

  -- Where a start returns a node, the memberlist is given the node's id, and as its metadata the
  -- advertised RPC address; when it tells of a node that joins or leaves, the cluster makes the step of
  -- the event of that node, and dials, for one that joins, the address in its metadata.
  pub start_node-IsWired :
      (opts : List StartOpt) (calls : Calls) (started clock : ℕ) (opened : List ℕ)
      → Returns
          (λ n now. IsWired n.gossip)
          (start_node rt itoa dial conf opts calls started clock opened)
  unfolding start_node start_servers IsConfigured
  start_node-IsWired opts calls started clock opened =
      if_intro (Returns (λ n now. IsWired n.gossip)) calls.logger
        (λ _.
          after-Returns (λ admin now. Unit {0}) (λ n now. IsWired n.gossip) _ _
            (any (listen options.admin_listener calls.admin_listen opened))
            (λ admin now u.
              after-Returns (λ g now. IsWired g) (λ n now. IsWired n.gossip) _ _
                (opening-Returns IsWired calls.dialled (new_gossip itoa conf opts' calls.gossip now)
                  (wired (new_gossip itoa conf opts' calls.gossip now)
                    (new_gossip-IsConfigured itoa conf opts' calls.gossip now)))
                (λ g last w.
                  after-Returns (λ ln now. Unit {0}) (λ n now. IsWired n.gossip) _ _
                    (any (listen options.rpc_listener calls.rpc_listen last)) (λ ln end u. w))))
        (λ _. tt)
    where
      options : Options
      options = apply_all opts default_options

      opts' : List (Gossip.Opt Cluster)
      opts' = gossip_options rt itoa dial conf options

      any : (x : Outcome ℕ × List ℕ) → Returns (λ ln now. Unit {0}) x
      any (returned ln, now) = tt
      any (failed, now) = tt
      any (panicked, now) = tt

      wired :
          (x : Outcome (MemberlistConfig Cluster) × List ℕ)
          → Returns (IsConfigured itoa conf (Gossip.apply_all opts' Gossip.default_options)) x
          → Returns (λ g now. IsWired g) x
      wired (returned g, now) e = subst IsWired (sym e) (configured-IsWired options g.transport)
      wired (failed, now) e = tt
      wired (panicked, now) e = tt
