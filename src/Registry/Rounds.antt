-- ===== src/Registry/Rounds.antt =====
-- A round of the failure detector, seen from one member: the visits of others leave its entry, its
-- time and what its own visit reads as they were.

use fuddle.Rpc.{Member2}
use fuddle.StringMap.{lookup}
use fuddle.Metrics.{Runtime}
use fuddle.Registry.State.{Registry}
use fuddle.Registry.Liveness.{update_member_liveness_locked, update_liveness}
use fuddle.Registry.Keys.{IsKeyed}
use fuddle.Prelude.{ℕ, String, ◌≡◌, refl, sym, subst, ◌≢◌, Option, List, [], ◌∷◌, ◌++◌, All}
use fuddle.Registry.Visits.{SameFor, same_self, same_trans, visit-SameFor, visit-IsKeyed}

module _ (rt : Runtime) (id : String) where
  -- No visit in the list is one of the member `id`.
  abbrev pub SkipsMember : List (String × ℕ) → Type 0
  SkipsMember = All (λ v. v.0 ≢ id)

  pub skipped-SameFor :
      (r : Registry) (visits : List (String × ℕ)) (timestamp : ℕ)
      → IsKeyed r
      → SkipsMember visits
      → SameFor id r (update_liveness rt r visits timestamp)
        × IsKeyed (update_liveness rt r visits timestamp)
  unfolding update_liveness
  skipped-SameFor r [] timestamp keyed s = (same_self id r, keyed)
  skipped-SameFor r ((j, clock) ∷ visits) timestamp keyed s =
      let r' = update_member_liveness_locked rt r j timestamp clock in
      let (same, keyed') =
        skipped-SameFor (update_member_liveness_locked rt r j timestamp clock) visits timestamp
          (visit-IsKeyed rt id r j timestamp clock keyed) s.1 in
      (same_trans id r r' _ (visit-SameFor rt id r j timestamp clock keyed s.0) same, keyed')

  update_liveness-append :
      (r : Registry) (before after : List (String × ℕ)) (timestamp : ℕ)
      → update_liveness rt r (before ++ after) timestamp
        ≡ update_liveness rt (update_liveness rt r before timestamp) after timestamp
  unfolding update_liveness
  update_liveness-append r [] after timestamp = refl
  update_liveness-append r ((j, clock) ∷ before) after timestamp =
      update_liveness-append (update_member_liveness_locked rt r j timestamp clock) before after
        timestamp

  -- A round that visits the member once leaves the entry that this visit alone leaves, in a registry
  -- that the visit cannot tell from the one before the round.
  pub round_visit :
      (P : Option Member2 → Type 0) (r : Registry) (before after : List (String × ℕ))
      (clock timestamp : ℕ)
      → IsKeyed r
      → SkipsMember before
      → SkipsMember after
      → ((s : Registry)
          → SameFor id r s
          → IsKeyed s
          → P (lookup id (update_member_liveness_locked rt s id timestamp clock).members))
      → P (lookup id (update_liveness rt r (before ++ (id, clock) ∷ after) timestamp).members)
  unfolding update_liveness
  round_visit P r before after clock timestamp keyed b a visit =
      let (same, keyed') = skipped-SameFor r before timestamp keyed b in
      let s = update_liveness rt r before timestamp in
      let t = update_member_liveness_locked rt s id timestamp clock in
      let (later, _) =
        skipped-SameFor t after timestamp (visit-IsKeyed rt id s id timestamp clock keyed') a in
      rw (update_liveness-append r before ((id, clock) ∷ after) timestamp)
        (subst P (sym later.entry) (visit s same keyed'))
