-- ===== src/Fcm/Adding.antt =====
-- What AddFuddleNode leaves behind.
use fuddle.Fcm.World.{
  World, FuddleNode, Cluster, Step, ◌>>=◌, ◌>>◌, return, attempt, opening, start_fuddle, tcp, udp,
  proxy, Resource, same, without, take_over,
}
use fuddle.Fcm.Cluster.{
  Net, Attempt, add_fuddle_node, add_listening, gossip_addrs, parse_addr_port, when_true,
}
use fuddle.Fcm.Steps.{Outcome, Leads}
use fuddle.Prelude.{
  length-append, ◌∙◌, ◌++◌, [], true, false, List, pos, negsuc, ◌<◌, ◌≡◌, ◌≢◌, refl, ap, Option,
  none, some, ◌∷◌, length, ℤ, arith, String,
}

-- After a failure the cluster and the running nodes are those of `w`, and listeners were left open
-- if the first one opened.
abbrev pub IsLeaked : Attempt → World → World → Type 0
IsLeaked a w v =
    (v.cluster ≡ w.cluster)
    × (v.running ≡ w.running)
    × (a.gossip_tcp ≢ none → length w.resources < length v.resources)

-- After a success the node is the latest one of the cluster, it runs, its seeds are the nodes before
-- it, and no listener is left open.
abbrev pub IsAdded : Net → Attempt → World → FuddleNode → World → Type 0
IsAdded net a w node v =
    (v.cluster ≡ record w.cluster { fuddle_nodes = node ∷ w.cluster.fuddle_nodes })
    × (v.running ≡ a.node_id ∷ w.running)
    × (v.resources ≡ w.resources)
    × (node.node_id ≡ a.node_id)
    × (node.seeds ≡ gossip_addrs net w.cluster)

-- What holds before the start of the node, once the listeners `l` were opened for it.
abbrev IsOpening : List Resource → World → World → Type 0
IsOpening l w v =
    (v.cluster ≡ w.cluster) × (v.running ≡ w.running) × (v.resources ≡ l ++ w.resources)

-- `without` finds the listener: at the head, or further on.
without-head : (r : Resource) (rs : List Resource) → same r r ≡ true → without r (r ∷ rs) ≡ rs
unfolding without
without-head r rs e = rw e refl

without-next :
    (r s : Resource) (rs : List Resource) → same r s ≡ false → without r (s ∷ rs) ≡ s ∷ without r rs
unfolding without
without-next r s rs e = rw e refl

tcp-same : (a : String) → same (tcp a) (tcp a) ≡ true
tcp-same a = ground arith

udp-same : (p : ℤ) → same (udp p) (udp p) ≡ true
udp-same (pos n) = ground arith
udp-same (negsuc n) = ground arith

-- The five listeners of a node, in the order of the options, are taken off those that were opened.
take_over-all :
    (gossip rpc rpc_proxy admin : String) (port : ℤ) (l : List Resource)
    → take_over
        (tcp rpc ∷ tcp admin ∷ tcp gossip ∷ udp port ∷ proxy rpc_proxy ∷ [])
        (tcp admin ∷ proxy rpc_proxy ∷ tcp rpc ∷ udp port ∷ tcp gossip ∷ l)
      ≡ l
unfolding take_over without
take_over-all gossip rpc rpc_proxy admin port l = grind (arith, tcp-same, udp-same port)

module _ (net : Net) (a : Attempt) (w : World) where
  node_with : (gossip rpc adv admin : ℤ) → FuddleNode
  node_with gossip rpc adv admin = record {
    node_id = a.node_id;
    gossip_port = gossip;
    rpc_bind_port = rpc;
    rpc_adv_port = adv;
    admin_port = admin;
    seeds = gossip_addrs net w.cluster;
  }

  -- From a world where `l` are opened, at least one, the step adds the node or leaks.
  Finishes : List Resource → Step FuddleNode → Type 0
  Finishes l = Leads (IsOpening l w) (IsLeaked a w) (IsAdded net a w)

  leaking : (r : Resource) (l : List Resource) (v : World) → IsOpening (r ∷ l) w v → IsLeaked a w v
  leaking r l v p = (p.0, p.1, λ n. rw p.2 (longer (r ∷ l) (omega arith)))
    where
      longer : (k : List Resource) → 0 < length k → length w.resources < length (k ++ w.resources)
      longer k h = rw length-append (omega (arith, h))

  asked {ℓ} :
      {A : Type ℓ} (x : Resource) (l : List Resource) (o : Option A) (f : A → Step FuddleNode)
      → ((r : A) → Finishes (x ∷ l) (f r))
      → Finishes (x ∷ l) (attempt o >>= f)
  unfolding Finishes
  asked x l none f e v p = leaking x l v p
  asked x l (some r) f e v p = e r v p

  opened {ℓ} :
      {A : Type ℓ} (x : Resource) (l : List Resource) (resource : A → Resource) (o : Option A)
      (f : A → Step FuddleNode)
      → ((r : A) → Finishes (resource r ∷ x ∷ l) (f r))
      → Finishes (x ∷ l) (opening resource o >>= f)
  unfolding Finishes
  opened x l resource none f e v p = leaking x l v p
  opened x l resource (some r) f e v p = e r _ (p.0, p.1, ap (λ rs. resource r ∷ rs) p.2)

  given : (gossip rpc rpc_proxy admin : String) (port : ℤ) → List Resource
  given gossip rpc rpc_proxy admin port =
      tcp rpc ∷ tcp admin ∷ tcp gossip ∷ udp port ∷ proxy rpc_proxy ∷ []

  started :
      (gossip rpc rpc_proxy admin : String) (port rpc_port adv admin_port : ℤ)
      → Finishes (tcp admin ∷ proxy rpc_proxy ∷ tcp rpc ∷ udp port ∷ tcp gossip ∷ []) (
          start_fuddle
            (given gossip rpc rpc_proxy admin port)
            (node_with port rpc_port adv admin_port)
          >> return (node_with port rpc_port adv admin_port))
  unfolding node_with Finishes given start_fuddle
  started gossip rpc rpc_proxy admin port rpc_port adv admin_port v p =
      let node = node_with port rpc_port adv admin_port in
      let put : Cluster → Cluster = λ c. record c { fuddle_nodes = node ∷ c.fuddle_nodes } in
      (
        ap put p.0,
        ap (λ l. a.node_id ∷ l) p.1,
        ap (take_over (given gossip rpc rpc_proxy admin port)) p.2
            ∙ take_over-all gossip rpc rpc_proxy admin port w.resources,
        refl,
        refl,
      )

  add_listening-outcome : (addr : String) → Finishes (tcp addr ∷ []) (add_listening net w a addr)
  unfolding add_listening node_with given
  add_listening-outcome addr = asked _ _ (parse_addr_port net addr) _ (λ gossip_port.
      opened _ _ (λ (u : Unit {0}). udp gossip_port) (when_true a.gossip_udp) _
        (λ u. opened _ _ tcp a.rpc _ (λ rpc. asked _ _ (parse_addr_port net rpc) _ (λ rpc_port.
          opened _ _ proxy a.rpc_proxy _ (λ rpc_proxy.
            asked _ _ (parse_addr_port net rpc_proxy) _ (λ rpc_proxy_port.
              opened _ _ tcp a.admin _ (λ admin.
                asked _ _ (parse_addr_port net admin) _ (λ admin_port.
                  asked _ _ (when_true a.started) _ (λ u.
                    started addr rpc rpc_proxy admin gossip_port rpc_port rpc_proxy_port
                      admin_port)))))))))

  first :
      (o : Option String)
      → a.gossip_tcp ≡ o
      → let r : World × Option FuddleNode = (opening tcp o >>= add_listening net w a) w in
        Outcome (IsLeaked a w) (IsAdded net a w) r.1 r.0
  unfolding Finishes
  first none e = (refl, refl, λ n. absurd (n e))
  first (some addr) e = add_listening-outcome addr _ (refl, refl, refl)

  -- When AddFuddleNode fails, the cluster and the running nodes are as before, and if its first
  -- listener was opened more listeners are open than before; when it succeeds, the node is in the
  -- cluster and runs, its seeds are the gossip addresses of the nodes before it, and no listener is
  -- left over.
  pub add_fuddle_node-outcome :
      let r : World × Option FuddleNode = add_fuddle_node net a w in
      Outcome (IsLeaked a w) (IsAdded net a w) r.1 r.0
  unfolding add_fuddle_node
  add_fuddle_node-outcome = first a.gossip_tcp refl
