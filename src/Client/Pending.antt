-- ===== src/Client/Pending.antt =====
-- pkg/registry/client/replicaclient.go: the queue of updates that wait to be sent. The limit is not
-- negative.
pub mod Window
use fuddle.Rpc.{Member2}
use fuddle.Prelude.{ℕ, Bool, true, false, List, [], ◌∷◌, ◌++◌, length, ltb, if◌then◌else◌}

pub record PendingUpdates : Type 0 where
  pub limit : ℕ
  pub pending : List Member2
  pub closed : Bool

unfoldable pub new_pending_updates : ℕ → PendingUpdates
new_pending_updates limit = record { limit = limit; pending = []; closed = false }

-- `p.pending[1:]`
unfoldable pub rest : List Member2 → List Member2
rest [] = []
rest (u ∷ us) = us

unfoldable pub push : PendingUpdates → Member2 → PendingUpdates
unfolding rest
push p u =
    let kept = if ltb p.limit (length p.pending) then rest p.pending else p.pending in
    if p.closed then record p { pending = kept } else record p { pending = kept ++ u ∷ [] }

-- `Take` waits, finds the client closed, or returns the oldest update.
pub data Taken : Type 0 where
  waits closed : Taken
  item : Member2 → PendingUpdates → Taken

unfoldable pub take_first : PendingUpdates → List Member2 → Taken
take_first p [] = waits
take_first p (u ∷ us) = item u (record p { pending = us })

unfoldable pub take : PendingUpdates → Taken
unfolding take_first
take p = if p.closed then closed else take_first p p.pending

unfoldable pub close : PendingUpdates → PendingUpdates
close p = record p { closed = true }
