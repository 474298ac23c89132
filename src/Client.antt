-- ===== src/Client.antt =====
-- pkg/registry/client/replicaclient.go and options.go: the client of one other node. The RPCs are the
-- network's: what they return is an argument.
pub mod Pending
pub mod CatchUp
pub mod Sending
use fuddle.Rpc.{Member2, MonotonicTimestamp}
use fuddle.StringMap.{StringMap}
use fuddle.Metrics.{Runtime, Gauge, LabelledValue, new_gauge, inc, add}
use fuddle.Registry.State.{Registry}
use fuddle.Registry.Members.{remote_update}
use fuddle.Registry.Repair.{digest}
use fuddle.Client.Pending.{
  PendingUpdates, new_pending_updates, push, take, close, Taken, waits, closed, item,
}
use fuddle.Prelude.{
  ℕ, zero, suc, String, Bool, true, false, Option, none, some, List, [], ◌∷◌, ◌++◌, ℤ, pos, length,
}

-- Without the logger. A negative limit of the pending updates is left out: with it, the first update
-- panics.
pub record Options : Type 0 where
  pub pending_updates_limit : ℕ
  pub update_timeout : ℤ
  pub digest_limit : ℤ

-- The literal gives no digest limit, so it is 0; the timeout is in nanoseconds.
unfoldable pub default_options : Options
default_options = record {
  pending_updates_limit = 128;
  update_timeout = pos 20000000000;
  digest_limit = pos 0;
}

pub data Opt : Type 0 where
  with_pending_updates_limit : ℕ → Opt
  with_update_timeout : ℤ → Opt
  with_digest_limit : ℤ → Opt

unfoldable pub apply : Opt → Options → Options
apply (with_pending_updates_limit n) opts = record opts { pending_updates_limit = n }
apply (with_update_timeout n) opts = record opts { update_timeout = n }
apply (with_digest_limit n) opts = record opts { digest_limit = n }

unfoldable pub apply_all : List Opt → Options → Options
unfolding apply
apply_all [] options = options
apply_all (o ∷ opts) options = apply_all opts (apply o options)

pub record ReplicaClientMetrics : Type 0 where
  pub replica_updates_outbound : Gauge
  pub repair_updates_inbound : Gauge

pub record ReplicaClient : Type 0 where
  pub target_id : String
  pub digest_limit : ℤ
  pub update_timeout : ℤ
  pub pending : PendingUpdates
  pub metrics : ReplicaClientMetrics

-- `ReplicaConnect`, once the dial has succeeded.
unfoldable pub replica_connect : String → ReplicaClientMetrics → List Opt → ReplicaClient
unfolding default_options apply_all
replica_connect target_id metrics opts =
    let options = apply_all opts default_options in
    record {
      target_id = target_id;
      digest_limit = options.digest_limit;
      update_timeout = options.update_timeout;
      pending = new_pending_updates options.pending_updates_limit;
      metrics = metrics;
    }

unfoldable pub update : ReplicaClient → Member2 → ReplicaClient
update c u = record c { pending = push c.pending u }

-- `Close`
unfoldable pub shut : ReplicaClient → ReplicaClient
shut c = record c { pending = close c.pending }

-- `for _, m := range resp.Members { c.registry.RemoteUpdate(m) }`
unfoldable pub apply_updates : Runtime → Registry → List Member2 → Registry
apply_updates rt r [] = r
apply_updates rt r (m ∷ ms) = apply_updates rt (remote_update rt r m) ms

abbrev labels : String → String → String → List LabelledValue
labels key node status =
    record { label = key; value = node } ∷ record { label = "status"; value = status } ∷ []

module _ (rt : Runtime) where
  -- `Sync`, after its digest: `resp` is the answer of the RPC, none if it failed. The flag tells
  -- whether the method returns without an error.
  unfoldable pub finish_sync :
      ReplicaClient → Registry → Option (List Member2) → ReplicaClient × Registry × Bool
  unfolding apply_updates
  finish_sync c r none = (
    record c {
      metrics = record (c.metrics) {
        repair_updates_inbound =
            inc rt (labels "source" c.target_id "fail") c.metrics.repair_updates_inbound;
      };
    },
    r,
    false,
  )
  finish_sync c r (some ms) = (
    record c {
      metrics = record (c.metrics) {
        repair_updates_inbound =
            add rt (length ms) (labels "source" c.target_id "ok") c.metrics.repair_updates_inbound;
      };
    },
    apply_updates rt r ms,
    true,
  )

  unfoldable pub sync :
      ReplicaClient
      → Registry
      → (ids shuffled : List String) → (StringMap MonotonicTimestamp → Option (List Member2))
      → ReplicaClient × Registry × Bool
  unfolding finish_sync
  sync c r ids shuffled rpc =
      let (r', d) = digest r ids shuffled c.digest_limit in finish_sync c r' (rpc d)

  count_sent : ReplicaClient → Bool → ReplicaClient
  count_sent c true = record c {
    metrics = record (c.metrics) {
      replica_updates_outbound =
          inc rt (labels "target" c.target_id "ok") c.metrics.replica_updates_outbound;
    };
  }
  count_sent c false = record c {
    metrics = record (c.metrics) {
      replica_updates_outbound =
          inc rt (labels "target" c.target_id "fail") c.metrics.replica_updates_outbound;
    };
  }

  -- `sendLoop`: `results` tells of each Update RPC in turn whether it succeeds; the loop stops where
  -- it would wait or the client is closed. The updates that it took are returned in order.
  unfoldable pub send_loop : ReplicaClient → List Bool → ReplicaClient × List Member2
  unfolding count_sent
  send_loop c [] = (c, [])
  send_loop c (ok ∷ results) = elim (take c.pending) [
    | waits ↦ (c, [])
    | closed ↦ (c, [])
    | item m rest ↦
        let (c', ms) = send_loop (count_sent (record c { pending = rest }) ok) results in
        (c', m ∷ ms)
  ]
