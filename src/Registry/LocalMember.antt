-- ===== src/Registry/LocalMember.antt =====
-- The entry of the local node itself.
use fuddle.Rpc.{Member2}
use fuddle.StringMap.{lookup, lookup-insert, lookup-erase}
use fuddle.Metrics.{Runtime}
use fuddle.Registry.State.{Registry, set_member_locked, delete_member_locked}
use fuddle.Registry.Runs.{Op, run}
use fuddle.Registry.Runs.Kept.{IsStable, KeepsDeletes}
use fuddle.Registry.Runs.Sweep.{run-stable}
use fuddle.Prelude.{String, ◌≡◌, refl, ap, ◌∙◌, Option, List, arith}

-- The registry is that of the node `local`, whose own entry is `own`.
pub record HasOwn (local : String) (own : Option Member2) (r : Registry) : Type 0 where
  pub named : r.local_id ≡ local
  pub kept : lookup local r.members ≡ own

module _ (rt : Runtime) (local : String) (own : Option Member2) where
  HasOwn-stable : IsStable rt (HasOwn local own)
  unfolding set_member_locked
  HasOwn-stable = record {
    frame = λ r r' c h. record {
      named = c.local ∙ h.named;
      kept = ap (lookup local) c.members ∙ h.kept;
    };
    stored = λ r m n _ h. record {
      named = h.named;
      kept = ground (arith, lookup-insert m.state.id local m r.members);
    };
    heard = λ r id now _ h. record { named = h.named; kept = h.kept };
  }

  HasOwn-deletes : KeepsDeletes rt (HasOwn local own)
  unfolding delete_member_locked
  HasOwn-deletes = record {
    deleted = λ r id n h. record {
      named = h.named;
      kept = ground (arith, lookup-erase id local r.members);
    };
  }

  HasOwn-run : (r : Registry) (ops : List Op) → HasOwn local own r → HasOwn local own (run rt r ops)
  HasOwn-run = run-stable HasOwn-stable HasOwn-deletes

-- No calls change the local node's id or its own entry: it is never updated, removed, taken over or
-- marked down.
pub run-local_member :
    (rt : Runtime) (r : Registry) (ops : List Op)
    → ((run rt r ops).local_id ≡ r.local_id)
      × (lookup r.local_id (run rt r ops).members ≡ lookup r.local_id r.members)
run-local_member rt r ops =
    let h =
      HasOwn-run rt r.local_id (lookup r.local_id r.members) r ops
        (record { named = refl; kept = refl }) in
    (h.named, h.kept)
