-- ===== src/Registry/Runs.antt =====
-- The calls that a registry receives, one after the other (its mutex makes each of them atomic), and
-- the rule by which a property is kept by all of them.
pub mod Kept
pub mod Stable
pub mod Sweep
use fuddle.Rpc.{Member2, MemberState, MonotonicTimestamp, SubscribeRequest}
use fuddle.StringMap.{StringMap}
use fuddle.Metrics.{Runtime}
use fuddle.Registry.Options.{Opt}
use fuddle.Registry.State.{Registry}
use fuddle.Registry.Members
use fuddle.Registry.Subscribe
use fuddle.Registry.Liveness
use fuddle.Registry.Repair
use fuddle.Prelude.{ℕ, String, Option, List, [], ◌∷◌, ℤ}

-- A call of an exported method, with its arguments and with what it reads: the clock, and the order
-- in which Go visits a map.
pub data Op : Type 0 where
  add_member : MemberState → List Opt → ℕ → Op
  member_heartbeat : MemberState → List Opt → (clock clock' : ℕ) → Op
  remove_member : String → List Opt → (clock clock' : ℕ) → Op
  remote_update : Member2 → Op
  on_node_join : String → Op
  on_node_leave : String → List Opt → ℕ → Op
  update_liveness : List (String × ℕ) → ℕ → Op
  subscribe_local : Op
  subscribe : Option SubscribeRequest → Op
  unsubscribe : ℕ → Op
  digest : (ids shuffled : List String) → ℤ → Op
  delta : StringMap MonotonicTimestamp → Op

-- Is the call one of the failure detector, which alone removes entries?
abbrev pub IsSweep : Op → Type 0
IsSweep (update_liveness visits timestamp) = Unit {0}
IsSweep _ = ⊥

module _ (rt : Runtime) where
  unfoldable pub step : Registry → Op → Registry
  step r (add_member m opts clock) = Members.add_member rt r m opts clock
  step r (member_heartbeat m opts clock clock') = Members.member_heartbeat rt r m opts clock clock'
  step r (remove_member id opts clock clock') = Members.remove_member rt r id opts clock clock'
  step r (remote_update m) = Members.remote_update rt r m
  step r (on_node_join id) = Members.on_node_join r id
  step r (on_node_leave id opts clock) = Members.on_node_leave r id opts clock
  step r (update_liveness visits timestamp) = Liveness.update_liveness rt r visits timestamp
  step r subscribe_local = (Subscribe.subscribe_local r).0
  step r (subscribe req) = (Subscribe.subscribe r req).0
  step r (unsubscribe handle) = Subscribe.unsubscribe r handle
  step r (digest ids shuffled limit) = (Repair.digest r ids shuffled limit).0
  step r (delta d) = (Repair.delta r d).0

  unfoldable pub run : Registry → List Op → Registry
  unfolding step
  run r [] = r
  run r (op ∷ ops) = run (step r op) ops
