-- ===== src/Fcm/Removing.antt =====
-- The nodes that RemoveFuddleNode and RemoveMemberNode stop, and the running ones.
use fuddle.Fcm.World.{World, FuddleNode, MemberNode, Cluster}
use fuddle.Fcm.Cluster.{
  fuddle_ids, member_ids, remove_fuddle_node, remove_member_node, take_at, stop,
}
use fuddle.Fcm.Server.{remove_each, remove_fuddle_nodes, remove_member_nodes}
use fuddle.Fcm.Occurrences.{
  occurrences, occurrences-cons, node_ids_lem, occurrences-stop, node_ids, IsTaken, take_at-IsTaken,
}
use fuddle.Fcm.Accounts.{IsBalanced}
use fuddle.Prelude.{ℕ, zero, suc, ◌+◌, ◌≤◌, String, ◌≡◌, refl, ◌∙◌, Option, none, some, List, arith}

-- From `w` to `v` no more nodes stop than the cluster loses.
abbrev pub IsCovered : World → World → Type 0
IsCovered w v =
    ((x : String)
      → occurrences x (node_ids v.cluster) + occurrences x w.running
        ≤ occurrences x (node_ids w.cluster) + occurrences x v.running)
    × (v.cluster.id ≡ w.cluster.id)

pub IsCovered-of : (w v : World) → IsBalanced w v → IsCovered w v
IsCovered-of w v b = ((λ x. let e = b.0 x in omega (arith, e)), b.1)

pub IsCovered-trans : (u v w : World) → IsCovered u v → IsCovered v w → IsCovered u w
IsCovered-trans u v w p q =
    ((λ x. let a = p.0 x in let b = q.0 x in omega (arith, a, b)), q.1 ∙ p.1)

remove_fuddle_node-IsCovered : (pick : ℕ) (w : World) → IsCovered w (remove_fuddle_node pick w).0
unfolding remove_fuddle_node fuddle_ids member_ids
remove_fuddle_node-IsCovered pick w =
    taken (take_at pick w.cluster.fuddle_nodes)
      (take_at-IsTaken (λ n. n.node_id) pick w.cluster.fuddle_nodes)
  where
    taken :
        (o : Option (FuddleNode × List FuddleNode))
        → IsTaken (λ n. n.node_id) w.cluster.fuddle_nodes o
        → let r : World × String = elim o [
          | none ↦ (w, "")
          | some (node, others) ↦ (
            record w {
              running = stop node.node_id w.running;
              cluster = record w.cluster { fuddle_nodes = others };
            },
            node.node_id,
          )
        ] in
          IsCovered w r.0
    taken none h = ((λ x. omega arith), refl)
    taken (some (node, others)) h = (
      (λ x.
          let c : Cluster = record w.cluster { fuddle_nodes = others } in
          let a = node_ids_lem x c in
          let b = node_ids_lem x w.cluster in
          let d = h.0 x ∙ occurrences-cons x node.node_id (fuddle_ids c) in
          let e = occurrences-stop x node.node_id w.running in omega (arith, a, b, d, e)),
      refl,
    )

remove_member_node-IsCovered : (pick : ℕ) (w : World) → IsCovered w (remove_member_node pick w).0
unfolding remove_member_node fuddle_ids member_ids
remove_member_node-IsCovered pick w =
    taken (take_at pick w.cluster.member_nodes)
      (take_at-IsTaken (λ n. n.id) pick w.cluster.member_nodes)
  where
    taken :
        (o : Option (MemberNode × List MemberNode))
        → IsTaken (λ n. n.id) w.cluster.member_nodes o
        → let r : World × String = elim o [
          | none ↦ (w, "")
          | some (node, others) ↦ (
            record w {
              running = stop node.id w.running;
              cluster = record w.cluster { member_nodes = others };
            },
            node.id,
          )
        ] in
          IsCovered w r.0
    taken none h = ((λ x. omega arith), refl)
    taken (some (node, others)) h = (
      (λ x.
          let c : Cluster = record w.cluster { member_nodes = others } in
          let a = node_ids_lem x c in
          let b = node_ids_lem x w.cluster in
          let d = h.0 x ∙ occurrences-cons x node.id (member_ids c) in
          let e = occurrences-stop x node.id w.running in omega (arith, a, b, d, e)),
      refl,
    )

remove_each-IsCovered :
    (remove : ℕ → World → World × String) (i n : ℕ) (w : World)
    → ((j : ℕ) (v : World) → IsCovered v (remove j v).0)
    → IsCovered w (remove_each remove i n w).0
unfolding remove_each
remove_each-IsCovered remove i zero w k = ((λ x. omega arith), refl)
remove_each-IsCovered remove i (suc n) w k =
    let v = (remove i w).0 in
    IsCovered-trans w v (remove_each remove (suc i) n v).0 (k i w)
      (remove_each-IsCovered remove (suc i) n v k)

pub remove_fuddle_nodes-IsCovered :
    (picks : ℕ → ℕ) (n : ℕ) (w : World) → IsCovered w (remove_fuddle_nodes picks n w).0
unfolding remove_fuddle_nodes
remove_fuddle_nodes-IsCovered picks n w =
    remove_each-IsCovered (λ i. remove_fuddle_node (picks i)) 0 n w
      (λ i v. remove_fuddle_node-IsCovered (picks i) v)

pub remove_member_nodes-IsCovered :
    (picks : ℕ → ℕ) (n : ℕ) (w : World) → IsCovered w (remove_member_nodes picks n w).0
unfolding remove_member_nodes
remove_member_nodes-IsCovered picks n w =
    remove_each-IsCovered (λ i. remove_member_node (picks i)) 0 n w
      (λ i v. remove_member_node-IsCovered (picks i) v)
