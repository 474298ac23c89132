-- ===== src/Fcm/Removed.antt =====
-- What removeNodes removes and answers.
use fuddle.Fcm.World.{World, FuddleNode, MemberNode, Cluster}
use fuddle.Fcm.Cluster.{
  rounds, fuddle_ids, member_ids, remove_fuddle_node, remove_member_node, take_at, stop,
}
use fuddle.Fcm.Manager.{get}
use fuddle.Fcm.Api.{NodesRequest, Response, nodes_response}
use fuddle.Fcm.Server.{
  Server, world_of, after, after_at, remove_each, remove_fuddle_nodes, remove_member_nodes,
  remove_nodes, remove_found, removed_node, removed_member,
}
use fuddle.Fcm.Occurrences.{occurrences, occurrences-cons, IsTaken, take_at-IsTaken}
use fuddle.StringMap.{lookup, lookup-insert}
use fuddle.Prelude.{
  ℕ, zero, suc, ◌+◌, ◌-◌, String, ◌≡◌, ◌≢◌, ◌⊎◌, inl, inr, refl, sym, ap, subst, ◌∙◌, Option, none,
  some, List, [], ◌∷◌, ite, if_neg, if_pos, string_dec, arith, map, length,
}

-- One removal: nothing is left to remove, or one id is taken out of the names; `kept` stays.
abbrev IsOneLess : (names kept : World → List String) → World → World × String → Type 0
IsOneLess names kept w r =
    (kept r.0 ≡ kept w)
    × (((names w ≡ []) × (names r.0 ≡ []) × (r.1 ≡ ""))
        ⊎ (((x : String) → occurrences x (names w) ≡ occurrences x (r.1 ∷ names r.0))
            × (length (names w) ≡ suc (length (names r.0)))))

-- `n` removals: the ids that are collected, with the names that are left, make up the names.
abbrev IsLess : (names kept : World → List String) → (n : ℕ) → World → World × List String → Type 0
IsLess names kept n w r =
    (kept r.0 ≡ kept w)
    × ((x : String) → occurrences x (names w) ≡ occurrences x r.1 + occurrences x (names r.0))
    × (length (names r.0) ≡ length (names w) - n)
    × (length r.1 + length (names r.0) ≡ length (names w))

ne_of_occurrences : (id : String) (ys : List String) → occurrences "" (id ∷ ys) ≡ 0 → id ≢ ""
unfolding occurrences
ne_of_occurrences id ys h e = absurd (ground (arith, h, e))

module _ (names kept : World → List String) (remove : ℕ → World → World × String) where
  remove_each-IsLess :
      (i n : ℕ) (w : World)
      → ((j : ℕ) (v : World) → IsOneLess names kept v (remove j v))
      → occurrences "" (names w) ≡ 0
      → IsLess names kept n w (remove_each remove i n w)
  unfolding remove_each occurrences
  remove_each-IsLess i zero w k z = (refl, (λ x. omega arith), omega arith, omega arith)
  remove_each-IsLess i (suc n) w k z =
      next (k i w).1 (remove_each-IsLess (suc i) n (remove i w).0 k)
    where
      v : World
      v = (remove i w).0

      id : String
      id = (remove i w).1

      rest : World × List String
      rest = remove_each remove (suc i) n v

      next :
          ((names w ≡ []) × (names v ≡ []) × (id ≡ ""))
            ⊎ (((x : String) → occurrences x (names w) ≡ occurrences x (id ∷ names v))
                × (length (names w) ≡ suc (length (names v))))
          → (occurrences "" (names v) ≡ 0 → IsLess names kept n v rest)
          → IsLess names kept (suc n) w (rest.0, ite (string_dec id "") rest.1 (id ∷ rest.1))
      next (inl (e, e', q)) ih' =
          let ih = ih' (ap (occurrences "") e') in
          let a : length (names w) ≡ 0 = ap length e in
          let b : length (names v) ≡ 0 = ap length e' in
          subst (λ l. IsLess names kept (suc n) w (rest.0, l))
            (sym (if_pos (string_dec id "") q rest.1 (id ∷ rest.1)))
            (
              ih.0 ∙ (k i w).0,
              (λ x. ap (occurrences x) (e ∙ sym e') ∙ ih.1 x),
              omega (arith, a, b, ih.2),
              omega (arith, a, b, ih.3),
            )
      next (inr (o, l)) ih' =
          let c = o "" ∙ occurrences-cons "" id (names v) in
          let ih = ih' (omega (arith, c, z)) in
          let ne = ne_of_occurrences id (names v) (sym (o "") ∙ z) in
          subst (λ ids. IsLess names kept (suc n) w (rest.0, ids))
            (sym (if_neg (string_dec id "") ne rest.1 (id ∷ rest.1)))
            (
              ih.0 ∙ (k i w).0,
              (λ x.
                  let a = o x ∙ occurrences-cons x id (names v) in
                  let b = occurrences-cons x id rest.1 in let d = ih.1 x in omega (arith, a, b, d)),
              omega (arith, l, ih.2),
              omega (arith, l, ih.3),
            )

fuddle_names : World → List String
fuddle_names w = fuddle_ids w.cluster

member_names : World → List String
member_names w = member_ids w.cluster

remove_fuddle_node-IsOneLess :
    (pick : ℕ) (w : World) → IsOneLess fuddle_names member_names w (remove_fuddle_node pick w)
unfolding remove_fuddle_node fuddle_names member_names fuddle_ids member_ids
remove_fuddle_node-IsOneLess pick w =
    taken (take_at pick w.cluster.fuddle_nodes)
      (take_at-IsTaken (λ n. n.node_id) pick w.cluster.fuddle_nodes)
  where
    taken :
        (o : Option (FuddleNode × List FuddleNode))
        → IsTaken (λ n. n.node_id) w.cluster.fuddle_nodes o
        → IsOneLess fuddle_names member_names w (elim o [
          | none ↦ (w, "")
          | some (node, others) ↦ (
            record w {
              running = stop node.node_id w.running;
              cluster = record w.cluster { fuddle_nodes = others };
            },
            node.node_id,
          )
        ])
    taken none h = (refl, inl (h, h, refl))
    taken (some (node, others)) h = (refl, inr h)

remove_member_node-IsOneLess :
    (pick : ℕ) (w : World) → IsOneLess member_names fuddle_names w (remove_member_node pick w)
unfolding remove_member_node fuddle_names member_names fuddle_ids member_ids
remove_member_node-IsOneLess pick w =
    taken (take_at pick w.cluster.member_nodes)
      (take_at-IsTaken (λ n. n.id) pick w.cluster.member_nodes)
  where
    taken :
        (o : Option (MemberNode × List MemberNode))
        → IsTaken (λ n. n.id) w.cluster.member_nodes o
        → IsOneLess member_names fuddle_names w (elim o [
          | none ↦ (w, "")
          | some (node, others) ↦ (
            record w {
              running = stop node.id w.running;
              cluster = record w.cluster { member_nodes = others };
            },
            node.id,
          )
        ])
    taken none h = (refl, inl (h, h, refl))
    taken (some (node, others)) h = (refl, inr h)

-- `c` with `n` of its ids taken out, or all of them if there are fewer, is `left`, and those taken
-- out are `taken`.
abbrev IsSplit : (ids : List String) → (n : ℕ) → (left taken : List String) → Type 0
IsSplit ids n left taken =
    ((x : String) → occurrences x ids ≡ occurrences x taken + occurrences x left)
    × (length left ≡ length ids - n)
    × (length taken + length left ≡ length ids)

-- The answer to a removal from the cluster `c` under an id, with the server after it.
abbrev pub IsEmptied : String → Cluster → NodesRequest → Server × Response → Type 0
IsEmptied id c req r =
    (c' : Cluster) × (nodes : List String) × (members : List String) × (get id r.0.clusters
      ≡ some c')
    × (r.1 ≡ nodes_response (map removed_node nodes) (map removed_member members))
    × IsSplit (fuddle_ids c) (rounds req.nodes) (fuddle_ids c') nodes
    × IsSplit (member_ids c) (rounds req.members) (member_ids c') members

get-after_at :
    (id : String) (w : World) (s : Server) → get id (after_at id w s).clusters ≡ some w.cluster
unfolding get after_at after
get-after_at id w s =
    lookup-insert id id w.cluster s.clusters.clusters
    ∙ if_pos (string_dec id id) refl (some w.cluster) (lookup id s.clusters.clusters)

-- If no node of a cluster has an empty id, removeNodes leaves the cluster with as many Fuddle nodes
-- and members fewer as the request asks for, or with none if it had fewer, and answers with the ids
-- of the others.
pub remove_nodes-IsEmptied :
    (id : String) (c : Cluster) (req : NodesRequest) (fuddle member : ℕ → ℕ) (s : Server)
    → get id s.clusters ≡ some c
    → occurrences "" (fuddle_ids c) ≡ 0
    → occurrences "" (member_ids c) ≡ 0
    → IsEmptied id c req (remove_nodes id (some req) fuddle member s)
unfolding remove_nodes remove_found world_of fuddle_names member_names remove_fuddle_nodes
    remove_member_nodes
remove_nodes-IsEmptied id c req fuddle member s e zf zm =
    subst (λ o. IsEmptied id c req (remove_found id (some req) fuddle member s o)) (sym e)
      (let w = world_of s c in
        let r = remove_fuddle_nodes fuddle (rounds req.nodes) w in
        let r' = remove_member_nodes member (rounds req.members) r.0 in
        let p =
          remove_each-IsLess fuddle_names member_names (λ i. remove_fuddle_node (fuddle i)) 0
            (rounds req.nodes) w (λ i v. remove_fuddle_node-IsOneLess (fuddle i) v) zf in
        let q =
          remove_each-IsLess member_names fuddle_names (λ i. remove_member_node (member i)) 0
            (rounds req.members) r.0 (λ i v. remove_member_node-IsOneLess (member i) v)
            (ap (occurrences "") p.0 ∙ zm) in
        (
          r'.0.cluster,
          r.1,
          r'.1,
          get-after_at id r'.0 s,
          refl,
          subst (λ l. IsSplit (fuddle_ids c) (rounds req.nodes) l r.1) (sym q.0) (p.1, p.2, p.3),
          subst (λ l. IsSplit l (rounds req.members) (member_ids r'.0.cluster) r'.1) p.0
              (q.1, q.2, q.3),
        ))
