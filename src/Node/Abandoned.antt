-- ===== src/Node/Abandoned.antt =====
-- What a start leaves open where it fails.
use fuddle.Metrics.{Runtime}
use fuddle.Config.{Config}
use fuddle.Gossip.{
  MemberlistConfig, Called, called, fails, new_gossip, after_transport, after_create, after_join,
}
use fuddle.Gossip as Gossip
use fuddle.Node.Start.{
  StartOpt, default_options, apply_all, Calls, gossip_options, start_servers, start_node, opening,
}
use fuddle.Sockets.{
  has, close_sockets, has-close_sockets, has-append, Outcome, returned, failed, panicked, after,
  listen,
}
use fuddle.Prelude.{ℕ, String, Bool, true, false, Option, none, some, List, [], ◌∷◌, ℤ, ◌≡◌, arith}

-- A call of the library does not close the socket as it fails.
abbrev pub Spares : {A : Type 0} → ℕ → Called A → Type 0
Spares a (called x) = Unit
Spares a (fails closed) = has a closed ≡ false

module _ (a : ℕ) where
  after-holds {ℓ κ} :
      {A : Type ℓ} {B : Type κ} (x : Outcome A × List ℕ) (next : A → List ℕ → Outcome B × List ℕ)
      → has a x.1 ≡ true
      → ((b : A) (opened : List ℕ) → has a opened ≡ true → has a (next b opened).1 ≡ true)
      → has a (after x next).1 ≡ true
  unfolding after
  after-holds (returned b, opened) next h k = k b opened h
  after-holds (failed, opened) next h k = h
  after-holds (panicked, opened) next h k = h

  listen-holds :
      (given listened : Option ℕ) (opened : List ℕ)
      → has a opened ≡ true
      → has a (listen given listened opened).1 ≡ true
  unfolding listen has
  listen-holds (some ln) listened opened h = h
  listen-holds none (some ln) opened h = ground (arith, h)
  listen-holds none none opened h = h

  spared :
      (closed opened : List ℕ)
      → has a closed ≡ false
      → has a opened ≡ true
      → has a (close_sockets closed opened) ≡ true
  spared closed opened e h = ground (arith, has-close_sockets a closed opened, e, h)

  module _ {S : Type 0} where
    after_join-holds :
        (g : MemberlistConfig S) (x : Called (Unit {0})) (opened : List ℕ)
        → Spares a x
        → has a opened ≡ true
        → has a (after_join g x opened).1 ≡ true
    unfolding after_join
    after_join-holds g (called u) opened sp h = h
    after_join-holds g (fails closed) opened sp h = spared closed opened sp h

    after_create-holds :
        (x : Called (Unit {0})) (calls : Gossip.Calls) (seeds : List String)
        (g : MemberlistConfig S) (opened : List ℕ)
        → Spares a x
        → Spares a calls.join
        → has a opened ≡ true
        → has a (after_create x calls seeds g opened).1 ≡ true
    unfolding after_create
    after_create-holds (fails closed) calls seeds g opened sp j h = spared closed opened sp h
    after_create-holds (called u) calls [] g opened sp j h = h
    after_create-holds (called u) calls (seed ∷ seeds) g opened sp j h =
        after_join-holds g calls.join opened j h

    after_transport-holds :
        (itoa : ℤ → String) (conf : Config) (options : Gossip.Options S) (calls : Gossip.Calls)
        (x : Called (ℕ × ℕ)) (opened : List ℕ)
        → Spares a x
        → Spares a calls.create
        → Spares a calls.join
        → has a opened ≡ true
        → has a (after_transport itoa conf options calls x opened).1 ≡ true
    unfolding after_transport has
    after_transport-holds itoa conf options calls (fails closed) opened sp c j h =
        spared closed opened sp h
    after_transport-holds itoa conf options calls (called (tcp, udp)) opened sp c j h =
        after_create-holds calls.create calls conf.gossip.seeds _ (tcp ∷ udp ∷ opened) c j
          (ground (arith, h))

  opening-holds {ℓ} :
      {A : Type ℓ} (conns : List ℕ) (x : Outcome A × List ℕ)
      → has a x.1 ≡ true
      → has a (opening conns x).1 ≡ true
  unfolding opening
  opening-holds conns x h = ground (arith, has-append a conns x.1, h)

  -- A start that has the admin server listen on a socket leaves the socket open, also where a later
  -- step fails or panics and no node is returned: no step of the program closes it, so it stays open
  -- unless the gossip library closes it.
  pub start_node-holds_admin :
      (rt : Runtime) (itoa : ℤ → String) (dial : String → Bool) (conf : Config)
      (opts : List StartOpt) (calls : Calls) (started clock : ℕ) (opened : List ℕ)
      → calls.logger ≡ true
      → (apply_all opts default_options).admin_listener ≡ none
      → calls.admin_listen ≡ some a
      → ((tcp udp : Option ℕ) → Spares a (calls.gossip.new_transport tcp udp))
      → Spares a calls.gossip.create
      → Spares a calls.gossip.join
      → has a (start_node rt itoa dial conf opts calls started clock opened).1 ≡ true
  unfolding start_node start_servers new_gossip listen has after
  start_node-holds_admin rt itoa dial conf opts calls started clock opened l n s t c j =
      let options = apply_all opts default_options in
      let opts' = gossip_options rt itoa dial conf options in
      rw (l, n, s)
        (after-holds (opening calls.dialled (new_gossip itoa conf opts' calls.gossip (a ∷ opened)))
          _
          (opening-holds calls.dialled (new_gossip itoa conf opts' calls.gossip (a ∷ opened)) (
            after_transport-holds itoa conf (Gossip.apply_all opts' Gossip.default_options)
              calls.gossip _ (a ∷ opened) (t _ _) c j (ground arith)))
          (λ g now h.
            after-holds (listen options.rpc_listener calls.rpc_listen now) _
              (listen-holds options.rpc_listener calls.rpc_listen now h) (λ ln last k. k)))
