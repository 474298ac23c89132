-- ===== src/Fcm/Accounts.antt =====
-- Every node of a cluster runs: what the steps of a cluster do to its ids and to the running ones.
use Prim.Native.String.{◌++◌ as ◌<>◌}
use fuddle.Fcm.World.{World, FuddleNode, MemberNode, Cluster, ◌>>=◌, return, attempt}
use fuddle.Fcm.Cluster.{
  Net, Attempt, Attempts, MemberAttempt, rounds, fuddle_ids, member_ids, add_fuddle_node,
  add_member_node, add_connected, add_fuddle_nodes, add_member_nodes, fill_cluster, when_true,
}
use fuddle.Fcm.Steps.{Outcome, Keeps, Keeps-bind, Keeps-repeat}
use fuddle.Fcm.Adding.{IsLeaked, IsAdded, add_fuddle_node-outcome}
use fuddle.Fcm.Occurrences.{occurrences, occurrences-append, node_ids}
use fuddle.Prelude.{
  ℕ, ◌+◌, ◌≡◌, refl, sym, ap, ◌∙◌, Option, none, some, List, ◌∷◌, ◌++◌, String, ℤ, arith,
}

-- From `w` to `v` an id is added to the running ones exactly as often as to the nodes of the cluster,
-- which keeps its id.
abbrev pub IsBalanced : World → World → Type 0
IsBalanced w v =
    ((x : String)
      → occurrences x (node_ids v.cluster) + occurrences x w.running
        ≡ occurrences x (node_ids w.cluster) + occurrences x v.running)
    × (v.cluster.id ≡ w.cluster.id)

IsBalanced-trans : (u v w : World) → IsBalanced u v → IsBalanced v w → IsBalanced u w
IsBalanced-trans u v w p q =
    ((λ x. let a = p.0 x in let b = q.0 x in omega (arith, a, b)), q.1 ∙ p.1)

-- The first part of a list grows by an id as often as that id occurs.
cons-balanced :
    (x y : String) (ys zs rs : List String)
    → occurrences x ((y ∷ ys) ++ zs) + occurrences x rs
      ≡ occurrences x (ys ++ zs) + occurrences x (y ∷ rs)
unfolding occurrences
cons-balanced x y ys zs rs = ground arith

append-balanced :
    (x y : String) (ys zs rs : List String)
    → occurrences x (ys ++ (y ∷ zs)) + occurrences x rs
      ≡ occurrences x (ys ++ zs) + occurrences x (y ∷ rs)
unfolding occurrences
append-balanced x y ys zs rs =
    ground (arith, occurrences-append x ys (y ∷ zs), occurrences-append x ys zs)

IsBalanced-at :
    (w v : World) (c : Cluster) (running : List String)
    → v.cluster ≡ c
    → v.running ≡ running
    → ((x : String)
        → occurrences x (node_ids c) + occurrences x w.running
          ≡ occurrences x (node_ids w.cluster) + occurrences x running)
    → c.id ≡ w.cluster.id
    → IsBalanced w v
IsBalanced-at w v c running e r h i = (
  (λ x.
      ap (λ d. occurrences x (node_ids d) + occurrences x w.running) e
      ∙ h x
      ∙ ap (λ l. occurrences x (node_ids w.cluster) + occurrences x l) (sym r)),
  ap (λ d. d.id) e ∙ i,
)

module _ (net : Net) (w : World) where
  add_fuddle_node-IsBalanced : (a : Attempt) → IsBalanced w (add_fuddle_node net a w).0
  unfolding node_ids fuddle_ids member_ids
  add_fuddle_node-IsBalanced a =
      outcome (add_fuddle_node net a w).1 (add_fuddle_node net a w).0
        (add_fuddle_node-outcome net a w)
    where
      outcome :
          (o : Option FuddleNode) (v : World)
          → Outcome (IsLeaked a w) (IsAdded net a w) o v
          → IsBalanced w v
      outcome none v p = IsBalanced-at w v w.cluster w.running p.0 p.1 (λ x. refl) refl
      outcome (some node) v p =
          let c : Cluster = record w.cluster { fuddle_nodes = node ∷ w.cluster.fuddle_nodes } in
          IsBalanced-at w v c (node.node_id ∷ w.running) p.0
            (p.1 ∙ ap (λ i. i ∷ w.running) (sym p.3))
            (λ x.
              cons-balanced x node.node_id (fuddle_ids w.cluster) (member_ids w.cluster) w.running)
            refl

  add_member_node-IsBalanced : (a : MemberAttempt) → IsBalanced w (add_member_node net a w).0
  unfolding add_member_node add_connected node_ids fuddle_ids member_ids
  add_member_node-IsBalanced a = put (when_true a.connected)
    where
      put :
          (o : Option (Unit {0}))
          → let r : World × Option MemberNode = (attempt o >>= λ u. add_connected net a) w in
            IsBalanced w r.0
      put none = ((λ x. refl), refl)
      put (some u) = (
        (λ x.
            append-balanced x ("member-" <> a.uuid) (fuddle_ids w.cluster) (member_ids w.cluster)
              w.running),
        refl,
      )

module _ (net : Net) (u : World) where
  pub add_fuddle_nodes-IsBalanced :
      (calls : ℕ → Attempt) (n : ℕ) → Keeps (IsBalanced u) (add_fuddle_nodes net calls n)
  unfolding add_fuddle_nodes
  add_fuddle_nodes-IsBalanced calls n =
      Keeps-repeat (IsBalanced u) (λ i. add_fuddle_node net (calls i)) 0 n
        (λ i w p.
          IsBalanced-trans u w (add_fuddle_node net (calls i) w).0 p
            (add_fuddle_node-IsBalanced net w (calls i)))

  pub add_member_nodes-IsBalanced :
      (calls : ℕ → MemberAttempt) (n : ℕ) → Keeps (IsBalanced u) (add_member_nodes net calls n)
  unfolding add_member_nodes
  add_member_nodes-IsBalanced calls n =
      Keeps-repeat (IsBalanced u) (λ i. add_member_node net (calls i)) 0 n
        (λ i w p.
          IsBalanced-trans u w (add_member_node net (calls i) w).0 p
            (add_member_node-IsBalanced net w (calls i)))

  pub fill_cluster-IsBalanced :
      (fuddle_count member_count : ℤ) (calls : Attempts)
      → Keeps (IsBalanced u) (fill_cluster net fuddle_count member_count calls)
  unfolding fill_cluster
  fill_cluster-IsBalanced fuddle_count member_count calls =
      let members = add_member_nodes net calls.member (rounds member_count) in
      Keeps-bind (IsBalanced u) (add_fuddle_nodes net calls.fuddle (rounds fuddle_count))
        (λ nodes. members >>= λ ms. return tt)
        (add_fuddle_nodes-IsBalanced calls.fuddle (rounds fuddle_count))
        (λ nodes.
          Keeps-bind (IsBalanced u) members (λ ms. return tt)
            (add_member_nodes-IsBalanced calls.member (rounds member_count)) (λ ms w p. p))
