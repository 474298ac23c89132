-- ===== src/Fcm/Stranded.antt =====
-- The nodes that run once NewCluster has returned, whether it fails or not.
use Prim.Native.String.{◌++◌ as ◌<>◌}
use fuddle.Fcm.World.{World, FuddleNode, Step, ◌>>=◌, return, attempt, repeat}
use fuddle.Fcm.Cluster.{
  Net, Attempt, Attempts, MemberAttempt, rounds, fill_cluster, add_fuddle_node, add_member_node,
  add_connected, add_fuddle_nodes, add_member_nodes, when_true,
}
use fuddle.Fcm.Steps.{Outcome, Keeps, after-bind, Keeps-bind, Keeps-repeat}
use fuddle.Fcm.Adding.{IsLeaked, IsAdded, add_fuddle_node-outcome}
use fuddle.Fcm.Occurrences.{occurrences, occurrences-cons}
use fuddle.Prelude.{ℕ, suc, ◌≤◌, ◌≡◌, sym, subst, Option, none, some, ◌∷◌, String, ℤ, arith}

-- At least `k` nodes of the id `x` run.
abbrev IsRunning : String → ℕ → World → Type 0
IsRunning x k v = k ≤ occurrences x v.running

module _ (net : Net) (x : String) (k : ℕ) where
  add_fuddle_node-IsRunning : (a : Attempt) → Keeps (IsRunning x k) (add_fuddle_node net a)
  add_fuddle_node-IsRunning a w p =
      kept (add_fuddle_node net a w).1 (add_fuddle_node net a w).0 (add_fuddle_node-outcome net a w)
    where
      kept :
          (o : Option FuddleNode) (v : World)
          → Outcome (IsLeaked a w) (IsAdded net a w) o v
          → IsRunning x k v
      kept none v q = subst (λ l. k ≤ occurrences x l) (sym q.1) p
      kept (some node) v q =
          subst (λ l. k ≤ occurrences x l) (sym q.1)
            (let c = occurrences-cons x a.node_id w.running in omega (arith, p, c))

  add_member_node-IsRunning : (a : MemberAttempt) → Keeps (IsRunning x k) (add_member_node net a)
  unfolding add_member_node add_connected
  add_member_node-IsRunning a =
      Keeps-bind (IsRunning x k) (attempt (when_true a.connected)) (λ u. add_connected net a)
        (λ w p. p)
        (λ u w p. let c = occurrences-cons x ("member-" <> a.uuid) w.running in omega (arith, p, c))

  repeat_fuddle-IsRunning :
      (calls : ℕ → Attempt) (i n : ℕ)
      → Keeps (IsRunning x k) (repeat (λ j. add_fuddle_node net (calls j)) i n)
  repeat_fuddle-IsRunning calls i n =
      Keeps-repeat (IsRunning x k) (λ j. add_fuddle_node net (calls j)) i n
        (λ j. add_fuddle_node-IsRunning (calls j))

  add_member_nodes-IsRunning :
      (calls : ℕ → MemberAttempt) (n : ℕ) → Keeps (IsRunning x k) (add_member_nodes net calls n)
  unfolding add_member_nodes
  add_member_nodes-IsRunning calls n =
      Keeps-repeat (IsRunning x k) (λ j. add_member_node net (calls j)) 0 n
        (λ j. add_member_node-IsRunning (calls j))

  pub fill_cluster-IsRunning :
      (nodes members : ℤ) (calls : Attempts)
      → Keeps (IsRunning x k) (fill_cluster net nodes members calls)
  unfolding fill_cluster add_fuddle_nodes
  fill_cluster-IsRunning nodes members calls =
      let add_members = add_member_nodes net calls.member (rounds members) in
      Keeps-bind (IsRunning x k) (add_fuddle_nodes net calls.fuddle (rounds nodes))
        (λ ns. add_members >>= λ ms. return tt)
        (repeat_fuddle-IsRunning calls.fuddle 0 (rounds nodes))
        (λ ns.
          Keeps-bind (IsRunning x k) add_members (λ ms. return tt)
            (add_member_nodes-IsRunning calls.member (rounds members)) (λ ms w p. p))

module _ (net : Net) (calls : Attempts) (w : World) where
  -- The number of nodes of the first node's id, once it is started.
  unfoldable pub IsOneMore : World → Type 0
  IsOneMore =
      IsRunning (calls.fuddle 0).node_id (suc (occurrences (calls.fuddle 0).node_id w.running))

  first-IsOneMore :
      (node : FuddleNode)
      → (add_fuddle_node net (calls.fuddle 0) w).1 ≡ some node
      → IsOneMore (add_fuddle_node net (calls.fuddle 0) w).0
  unfolding IsOneMore occurrences
  first-IsOneMore node e =
      let v = (add_fuddle_node net (calls.fuddle 0) w).0 in
      let id = (calls.fuddle 0).node_id in
      let q : IsAdded net (calls.fuddle 0) w node v =
        subst (λ o. Outcome (IsLeaked (calls.fuddle 0) w) (IsAdded net (calls.fuddle 0) w) o v) e
          (add_fuddle_node-outcome net (calls.fuddle 0) w) in
      subst (λ l. suc (occurrences id w.running) ≤ occurrences id l) (sym q.1) (ground arith)

  pub fill_cluster-IsOneMore :
      (nodes members : ℤ) (n : ℕ) (node : FuddleNode)
      → rounds nodes ≡ suc n
      → (add_fuddle_node net (calls.fuddle 0) w).1 ≡ some node
      → IsOneMore (fill_cluster net nodes members calls w).0
  unfolding fill_cluster add_fuddle_nodes repeat IsOneMore
  fill_cluster-IsOneMore nodes members n node h e =
      let id = (calls.fuddle 0).node_id in
      let k = suc (occurrences id w.running) in
      let P = IsRunning id k in
      let add_members = add_member_nodes net calls.member (rounds members) in
      let body : ℕ → Step FuddleNode = λ j. add_fuddle_node net (calls.fuddle j) in
      let loop =
        subst (λ c. P (repeat body 0 c w).0) (sym h)
          (after-bind P (body 0) (λ x. repeat body 1 n >>= λ xs. return (x ∷ xs)) w
            (first-IsOneMore node e)
            (λ x.
              Keeps-bind P (repeat body 1 n) (λ xs. return (x ∷ xs))
                (repeat_fuddle-IsRunning net id k calls.fuddle 1 n) (λ xs v p. p))) in
      after-bind P (repeat body 0 (rounds nodes)) (λ ns. add_members >>= λ ms. return tt) w loop
        (λ ns.
          Keeps-bind P add_members (λ ms. return tt)
            (add_member_nodes-IsRunning net id k calls.member (rounds members)) (λ ms v p. p))
