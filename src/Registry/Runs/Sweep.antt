-- ===== src/Registry/Runs/Sweep.antt =====
-- The failure detector's rounds, and so every call, keep a property that the steps and removals keep.
use fuddle.Rpc.{Liveness, up, down, left, other, Member2}
use fuddle.StringMap.{lookup}
use fuddle.Metrics.{Runtime}
use fuddle.Registry.State.{Registry}
use fuddle.Registry.Runs.{Op, step, run, update_liveness}
use fuddle.Registry.Liveness
use fuddle.Prelude.{
  ℕ, String, ◌≢◌, Option, none, some, List, [], ◌∷◌, string_dec, if_intro, ite_intro, sub64, ltb,
}
use fuddle.Registry.Runs.Kept.{IsKept, IsStable, IsStable-IsKept, KeepsDeletes}
use fuddle.Registry.Runs.Stable.{update_member_locked-stable, step-stable}

module _ {rt : Runtime} {P : Registry → Type 0} (s : IsKept rt P) (d : KeepsDeletes rt P) where
  open d use {deleted}

  owned_liveness-stable :
      (r : Registry) (id : String) (m : Member2) (l : Liveness) (seen timestamp clock : ℕ)
      → id ≢ r.local_id
      → P r
      → P (Liveness.owned_liveness rt r id m l seen timestamp clock)
  unfolding Liveness.owned_liveness
  owned_liveness-stable r id m up seen timestamp clock n h =
      if_intro P (ltb r.heartbeat_timeout (sub64 timestamp seen))
        (λ _. update_member_locked-stable s r m.state down _ [] clock h) (λ _. h)
  owned_liveness-stable r id m down seen timestamp clock n h =
      if_intro P (ltb m.expiry timestamp)
        (λ _. update_member_locked-stable s r m.state left _ [] clock h) (λ _. h)
  owned_liveness-stable r id m left seen timestamp clock n h =
      if_intro P (ltb m.expiry timestamp) (λ _. deleted r id n h) (λ _. h)
  owned_liveness-stable r id m (other l) seen timestamp clock n h = h

  take_ownership-stable :
      (r : Registry) (m : Member2) (l : Liveness) (timestamp clock : ℕ)
      → P r
      → P (Liveness.take_ownership rt r m l timestamp clock)
  unfolding Liveness.take_ownership
  take_ownership-stable r m up timestamp clock h =
      update_member_locked-stable s r m.state down _ [] clock h
  take_ownership-stable r m down timestamp clock h =
      update_member_locked-stable s r m.state down _ [] clock h
  take_ownership-stable r m left timestamp clock h =
      update_member_locked-stable s r m.state left _ [] clock h
  take_ownership-stable r m (other l) timestamp clock h =
      update_member_locked-stable s r m.state (other l) _ [] clock h

  owner_gone-stable :
      (r : Registry) (m : Member2) (contact : Option ℕ) (timestamp clock : ℕ)
      → P r
      → P (Liveness.owner_gone rt r m contact timestamp clock)
  unfolding Liveness.owner_gone
  owner_gone-stable r m none timestamp clock h = h
  owner_gone-stable r m (some contact) timestamp clock h =
      if_intro P (ltb r.heartbeat_timeout (sub64 timestamp contact))
        (λ _. take_ownership-stable r m m.liveness timestamp clock h) (λ _. h)

  update_found_liveness-stable :
      (r : Registry) (id : String) (o : Option Member2) (timestamp clock : ℕ)
      → id ≢ r.local_id
      → P r
      → P (Liveness.update_found_liveness rt r id o timestamp clock)
  unfolding Liveness.update_found_liveness
  update_found_liveness-stable r id none timestamp clock n h = h
  update_found_liveness-stable r id (some m) timestamp clock n h =
      ite_intro P (string_dec m.version.owner_id r.local_id)
        (λ _. owned_liveness-stable r id m m.liveness _ timestamp clock n h)
        (λ _.
          if_intro P (Liveness.has_left m m.liveness timestamp) (λ _. deleted r id n h)
            (λ _. owner_gone-stable r m _ timestamp clock h))

  pub update_member_liveness_locked-stable :
      (r : Registry) (id : String) (timestamp clock : ℕ)
      → P r
      → P (Liveness.update_member_liveness_locked rt r id timestamp clock)
  unfolding Liveness.update_member_liveness_locked
  update_member_liveness_locked-stable r id timestamp clock h =
      ite_intro P (string_dec id r.local_id) (λ _. h)
        (λ n. update_found_liveness-stable r id (lookup id r.members) timestamp clock n h)

  update_liveness-stable :
      (r : Registry) (visits : List (String × ℕ)) (timestamp : ℕ)
      → P r
      → P (Liveness.update_liveness rt r visits timestamp)
  unfolding Liveness.update_liveness
  update_liveness-stable r [] timestamp h = h
  update_liveness-stable r ((id, clock) ∷ visits) timestamp h =
      update_liveness-stable (Liveness.update_member_liveness_locked rt r id timestamp clock) visits
        timestamp (update_member_liveness_locked-stable r id timestamp clock h)

  any_step-stable : (r : Registry) (op : Op) → P r → P (step rt r op)
  unfolding step
  any_step-stable r (update_liveness visits timestamp) h =
      update_liveness-stable r visits timestamp h
  any_step-stable r op h = step-stable s r op (λ x. x) h

  pub run-kept : (r : Registry) (ops : List Op) → P r → P (run rt r ops)
  unfolding run
  run-kept r [] h = h
  run-kept r (op ∷ ops) h = run-kept (step rt r op) ops (any_step-stable r op h)

-- The same for a property that an accepted update keeps before its calls are made.
pub run-stable :
    {rt : Runtime} {P : Registry → Type 0}
    → IsStable rt P
    → KeepsDeletes rt P
    → (r : Registry) (ops : List Op) → P r
    → P (run rt r ops)
run-stable {rt} {P} s = run-kept (IsStable-IsKept rt P s)
