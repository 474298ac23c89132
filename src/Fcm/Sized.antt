-- ===== src/Fcm/Sized.antt =====
-- How many nodes NewCluster adds.
use fuddle.Fcm.World.{World, FuddleNode, ◌>>=◌, return, attempt}
use fuddle.Fcm.Cluster.{
  Net, Attempt, Attempts, MemberAttempt, rounds, fill_cluster, add_fuddle_node, add_member_node,
  add_connected, add_fuddle_nodes, add_member_nodes, when_true,
}
use fuddle.Fcm.Steps.{Outcome, Leads, Leads-bind, Leads-repeat}
use fuddle.Fcm.Adding.{IsLeaked, IsAdded, add_fuddle_node-outcome}
use fuddle.Prelude.{ℕ, suc, ◌+◌, ◌≡◌, ap, ◌∙◌, Option, none, some, String, ℤ, arith, length}

-- The id of the cluster, and how many nodes of either kind it has.
abbrev pub IsSized : String → (nodes members : ℕ) → World → Type 0
IsSized id nodes members v =
    (v.cluster.id ≡ id)
    × (length v.cluster.fuddle_nodes ≡ nodes)
    × (length v.cluster.member_nodes ≡ members)

abbrev pub Anything : World → Type 0
Anything v = Unit

module _ (net : Net) (id : String) where
  add_fuddle_node-IsSized :
      (a : Attempt) (n m : ℕ)
      → Leads (IsSized id n m) Anything (λ node. IsSized id (suc n) m) (add_fuddle_node net a)
  add_fuddle_node-IsSized a n m w p =
      sized (add_fuddle_node net a w).1 (add_fuddle_node net a w).0
        (add_fuddle_node-outcome net a w)
    where
      sized :
          (o : Option FuddleNode) (v : World)
          → Outcome (IsLeaked a w) (IsAdded net a w) o v
          → Outcome Anything (λ node. IsSized id (suc n) m) o v
      sized none v q = tt
      sized (some node) v q = (
        ap (λ c. c.id) q.0 ∙ p.0,
        ap (λ c. length c.fuddle_nodes) q.0 ∙ ap suc p.1,
        ap (λ c. length c.member_nodes) q.0 ∙ p.2,
      )

  add_member_node-IsSized :
      (a : MemberAttempt) (n m : ℕ)
      → Leads (IsSized id n m) Anything (λ node. IsSized id n (suc m)) (add_member_node net a)
  unfolding add_member_node add_connected
  add_member_node-IsSized a n m =
      Leads-bind (IsSized id n m) Anything (λ u. IsSized id n m) (λ node. IsSized id n (suc m))
        (attempt (when_true a.connected)) (λ u. add_connected net a)
        (λ w p. asked (when_true a.connected) w p) (λ u w p. (p.0, p.1, ap suc p.2))
    where
      asked :
          (o : Option (Unit {0})) (w : World)
          → IsSized id n m w
          → Outcome Anything (λ u. IsSized id n m) o w
      asked none w p = tt
      asked (some u) w p = p

  pub fill_cluster-IsSized :
      (nodes members : ℤ) (calls : Attempts)
      → Leads
          (IsSized id 0 0)
          Anything
          (λ u. IsSized id (rounds nodes) (rounds members))
          (fill_cluster net nodes members calls)
  unfolding fill_cluster add_fuddle_nodes add_member_nodes
  fill_cluster-IsSized nodes members calls =
      let n = rounds nodes in
      let m = rounds members in
      let add_members = add_member_nodes net calls.member m in
      Leads-bind (IsSized id 0 0) Anything (λ ns. IsSized id (0 + n) 0) (λ u. IsSized id n m)
        (add_fuddle_nodes net calls.fuddle n) (λ ns. add_members >>= λ ms. return tt)
        (Leads-repeat (λ k. IsSized id k 0) Anything (λ i. add_fuddle_node net (calls.fuddle i)) 0 n
          0 (λ j c. add_fuddle_node-IsSized (calls.fuddle j) c 0))
        (λ ns.
          Leads-bind (IsSized id (0 + n) 0) Anything (λ ms. IsSized id (0 + n) (0 + m))
            (λ u. IsSized id n m) add_members (λ ms. return tt)
            (Leads-repeat (λ k. IsSized id (0 + n) k) Anything
              (λ i. add_member_node net (calls.member i)) 0 m 0
              (λ j c. add_member_node-IsSized (calls.member j) (0 + n) c))
            (λ ms w p. (p.0, p.1 ∙ omega arith, p.2 ∙ omega arith)))
