-- ===== src/Fcm/Health.antt =====
-- WaitForHealthy of pkg/fcm/cluster/cluster.go. The context ends after a number of waits. What the
-- nodes answer to each poll is an argument, as are `sort.Slice` by the ids and `proto.Equal`.
use fuddle.Rpc.{Member2}
use fuddle.Fcm.World.{Cluster, FuddleNode}
use fuddle.Fcm.Cluster.{fuddle_ids, take_at}
use fuddle.StringMap.{StringMap, lookup}
use native.Mathlib.Decide.{ℕ_discrete}
use fuddle.Prelude.{
  ℕ, zero, suc, String, Bool, true, false, ◌&&◌, Option, none, some, List, [], ◌∷◌, length, is_yes,
  if◌then◌else◌,
}

pub record Proto : Type 0 where
  pub sort : List Member2 → List Member2
  pub equal : Member2 → Member2 → Bool

-- At a poll, `known`: what a node answers to Nodes, `members`: the registry of a node, and `pick` the
-- node that the loop over the map meets first.
pub record Polls : Type 0 where
  pub known : ℕ → FuddleNode → StringMap (Unit {0})
  pub members : ℕ → FuddleNode → List Member2
  pub pick : ℕ → ℕ

-- `panics`: the nil node of an empty cluster is used.
pub data Verdict : Type 0 where
  healthy timed_out panics : Verdict

unfoldable pub all_of {ℓ} : {A : Type ℓ} → (A → Bool) → List A → Bool
all_of p [] = true
all_of p (x ∷ xs) = p x && all_of p xs

unfoldable pub is_known : StringMap (Unit {0}) → String → Bool
unfolding lookup
is_known known id = elim (lookup id known) [ none ↦ false | some u ↦ true ]

unfoldable pub known_nodes_match : Cluster → StringMap (Unit {0}) → Bool
unfolding all_of is_known fuddle_ids
known_nodes_match c known =
    is_yes (ℕ_discrete (length c.fuddle_nodes) (length known))
    && all_of (is_known known) (fuddle_ids c)

-- The loop for one node, from poll `t` with so many waits to go: the poll after it and the waits that
-- are left.
unfoldable pub wait_for_node : Cluster → (ℕ → StringMap (Unit {0})) → (t waits : ℕ) → Option (ℕ × ℕ)
unfolding known_nodes_match
wait_for_node c known t zero = if known_nodes_match c (known t) then some (suc t, zero) else none
wait_for_node c known t (suc waits) =
    let rest = wait_for_node c known (suc t) waits in
    if known_nodes_match c (known t) then some (suc t, suc waits) else rest

unfoldable pub wait_for_node_discovery :
    Cluster
    → (ℕ → FuddleNode → StringMap (Unit {0}))
    → List FuddleNode
    → (t waits : ℕ) → Option (ℕ × ℕ)
unfolding wait_for_node
wait_for_node_discovery c known [] t waits = some (t, waits)
wait_for_node_discovery c known (n ∷ ns) t waits = elim (wait_for_node c (λ i. known i n) t waits) [
  | none ↦ none
  | some (t', waits') ↦ wait_for_node_discovery c known ns t' waits'
]

module _ (proto : Proto) where
  unfoldable all_equal : List Member2 → List Member2 → Bool
  all_equal [] rhs = true
  all_equal (l ∷ lhs) [] = true
  all_equal (l ∷ lhs) (r ∷ rhs) = proto.equal l r && all_equal lhs rhs

  unfoldable pub members_equal : List Member2 → List Member2 → Bool
  unfolding all_equal
  members_equal lhs rhs =
      is_yes (ℕ_discrete (length lhs) (length rhs)) && all_equal (proto.sort lhs) (proto.sort rhs)

  -- One round: none if there is no node to compare with.
  unfoldable pub registries_equal : Cluster → Polls → ℕ → Option Bool
  unfolding take_at members_equal all_of
  registries_equal c polls t = elim (take_at (polls.pick t) c.fuddle_nodes) [
    | none ↦ none
    | some (n, others) ↦
        some (all_of (λ m. members_equal (polls.members t n) (polls.members t m)) c.fuddle_nodes)
  ]

  unfoldable pub wait_for_registry_discovery : Cluster → Polls → (t waits : ℕ) → Verdict
  unfolding registries_equal
  wait_for_registry_discovery c polls t zero = elim (registries_equal c polls t) [
    | none ↦ panics
    | some equal ↦ if equal then healthy else timed_out
  ]
  wait_for_registry_discovery c polls t (suc waits) =
      let rest = wait_for_registry_discovery c polls (suc t) waits in
      elim (registries_equal c polls t) [
        | none ↦ panics
        | some equal ↦ if equal then healthy else rest
      ]

  unfoldable pub wait_for_healthy : Cluster → Polls → (waits : ℕ) → Verdict
  unfolding wait_for_node_discovery wait_for_registry_discovery
  wait_for_healthy c polls waits =
      elim (wait_for_node_discovery c polls.known c.fuddle_nodes 0 waits) [
        | none ↦ timed_out
        | some (t, waits') ↦ wait_for_registry_discovery c polls t waits'
      ]

  -- `Healthy`: none if it panics. `waits` is the number of waits before its time is over.
  unfoldable is_healthy : Cluster → Polls → (waits : ℕ) → Option Bool
  unfolding wait_for_healthy
  is_healthy c polls waits = elim (wait_for_healthy c polls waits) [
    | healthy ↦ some true
    | timed_out ↦ some false
    | panics ↦ none
  ]
