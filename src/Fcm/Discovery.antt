-- ===== src/Fcm/Discovery.antt =====
-- When a node of a cluster counts as one that knows the others.
use mathlib.Core.List.{Mem, mem-cons_self, mem-cons_of_mem}
use native.Mathlib.Decide.{ℕ_discrete}
use fuddle.Fcm.World.{Cluster, FuddleNode}
use fuddle.Fcm.Cluster.{fuddle_ids, take_at}
use fuddle.Fcm.Health.{Polls, all_of, is_known, known_nodes_match, wait_for_node}
use fuddle.StringMap.{StringMap, lookup}
use fuddle.Prelude.{
  ℕ, zero, suc, String, Bool, true, false, ◌≡◌, ◌≢◌, refl, Option, none, some, List, [], ◌∷◌,
  length, All, arith, Bool-cases, inl, inr, ◌&&◌, is_yes,
}

-- The node was seen to know as many nodes as the cluster has, and those of the cluster.
abbrev pub IsDiscovered : Cluster → Polls → FuddleNode → Type 0
IsDiscovered c polls n =
    (t : ℕ) × (length c.fuddle_nodes ≡ length (polls.known t n))
    × All (λ id. lookup id (polls.known t n) ≢ none) (fuddle_ids c)

both : (a b : Bool) → (a && b) ≡ true → (a ≡ true) × (b ≡ true)
both true b h = (refl, h)
both false b h = absurd (ground (arith, h))

pub all_of-All {ℓ} :
    {A : Type ℓ} (p : A → Bool) (xs : List A) → all_of p xs ≡ true → All (λ x. p x ≡ true) xs
unfolding all_of
all_of-All p [] h = tt
all_of-All p (x ∷ xs) h = let k = both (p x) (all_of p xs) h in (k.0, all_of-All p xs k.1)

known-All :
    (known : StringMap (Unit {0})) (ids : List String)
    → all_of (is_known known) ids ≡ true
    → All (λ id. lookup id known ≢ none) ids
unfolding all_of is_known
known-All known [] h = tt
known-All known (id ∷ ids) h =
    let k = both (is_known known id) (all_of (is_known known) ids) h in
    ((λ e. let d = k.0 in ground (arith, d, e)), known-All known ids k.1)

abbrev pub IsPicked {ℓ} : {A : Type ℓ} → List A → Option (A × List A) → Type ℓ
IsPicked xs none = xs ≡ []
IsPicked xs (some r) = Mem r.0 xs

pub take_at-IsPicked {ℓ} : {A : Type ℓ} (i : ℕ) (xs : List A) → IsPicked xs (take_at i xs)
unfolding take_at
take_at-IsPicked i [] = refl
take_at-IsPicked zero (x ∷ xs) = mem-cons_self
take_at-IsPicked {A} (suc i) (x ∷ xs) = later (take_at i xs) (take_at-IsPicked i xs)
  where
    later :
        (o : Option (A × List A))
        → IsPicked xs o
        → IsPicked (x ∷ xs) (elim o [ none ↦ some (x, xs) | some (y, ys) ↦ some (y, x ∷ ys) ])
    later none h = mem-cons_self
    later (some (y, ys)) h = mem-cons_of_mem x h

module _ (c : Cluster) where
  -- A node is done with only after a poll at which it knew the nodes of the cluster.
  pub wait_for_node-some :
      (known : ℕ → StringMap (Unit {0})) (t waits : ℕ) (r : ℕ × ℕ)
      → wait_for_node c known t waits ≡ some r
      → (i : ℕ) × (known_nodes_match c (known i) ≡ true)
  unfolding wait_for_node
  wait_for_node-some known t zero r h = elim (Bool-cases (known_nodes_match c (known t))) [
    | inl e ↦ (t, e)
    | inr e ↦ absurd (ground (arith, h, e))
  ]
  wait_for_node-some known t (suc waits) r h = elim (Bool-cases (known_nodes_match c (known t))) [
    | inl e ↦ (t, e)
    | inr e ↦ wait_for_node-some known (suc t) waits r (ground (arith, h, e))
  ]

  pub match-IsDiscovered :
      (polls : Polls) (n : FuddleNode) (t : ℕ)
      → known_nodes_match c (polls.known t n) ≡ true
      → IsDiscovered c polls n
  unfolding known_nodes_match
  match-IsDiscovered polls n t h =
      let k =
        both (is_yes (ℕ_discrete (length c.fuddle_nodes) (length (polls.known t n))))
          (all_of (is_known (polls.known t n)) (fuddle_ids c)) h in
      let e = k.0 in (t, ground (arith, e), known-All (polls.known t n) (fuddle_ids c) k.1)

  pub missed_of :
      (known : ℕ → StringMap (Unit {0})) (t waits : ℕ)
      → wait_for_node c known t waits ≡ none
      → known_nodes_match c (known t) ≡ false
  unfolding wait_for_node
  missed_of known t zero h = ground (arith, h, Bool-cases (known_nodes_match c (known t)))
  missed_of known t (suc waits) h = ground (arith, h, Bool-cases (known_nodes_match c (known t)))
