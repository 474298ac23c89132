-- ===== src/Fcm/Verdicts.antt =====
-- What the answer of WaitForHealthy says of the nodes.
use mathlib.Core.List.{Mem}
use fuddle.Fcm.World.{Cluster, FuddleNode}
use fuddle.Fcm.Health.{
  Proto, Polls, Verdict, healthy, timed_out, panics, known_nodes_match, members_equal,
  registries_equal,
}
use fuddle.Prelude.{ℕ, Bool, true, false, ◌≡◌, ◌≢◌, ◌⊎◌, Option, none, some, List, [], All}
use fuddle.Fcm.Discovery.{IsDiscovered}

-- At one poll the registry of every node was found equal to that of one of them.
abbrev IsAgreed : Proto → Cluster → Polls → Type 0
IsAgreed proto c polls =
    (t : ℕ) × (n : FuddleNode) × Mem n c.fuddle_nodes
    × All (λ m. members_equal proto (polls.members t n) (polls.members t m) ≡ true) c.fuddle_nodes

module _ (proto : Proto) (c : Cluster) (polls : Polls) where
  -- There was a poll at which a node did not know the nodes of the cluster, or registries differed.
  abbrev IsMissed : Type 0
  IsMissed =
      ((t : ℕ) × (n : FuddleNode) × (known_nodes_match c (polls.known t n) ≡ false))
      ⊎ ((t : ℕ) × (registries_equal proto c polls t ≡ some false))

  -- What a verdict says.
  abbrev pub IsJudged : Verdict → Type 0
  IsJudged healthy = All (IsDiscovered c polls) c.fuddle_nodes × IsAgreed proto c polls
  IsJudged timed_out = (c.fuddle_nodes ≢ []) × IsMissed
  IsJudged panics = c.fuddle_nodes ≡ []

  abbrev IsCompared : Option Bool → Type 0
  IsCompared none = c.fuddle_nodes ≡ []
  IsCompared (some true) = IsAgreed proto c polls
  IsCompared (some false) = c.fuddle_nodes ≢ []

  -- What the waits for the nodes of a list have shown.
  abbrev IsAwaited : List FuddleNode → Option (ℕ × ℕ) → Type 0
  IsAwaited ns none = (ns ≢ []) × IsMissed
  IsAwaited ns (some r) = All (IsDiscovered c polls) ns
