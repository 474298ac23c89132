-- ===== src/Client/Sending.antt =====
-- The send loop of a client: in what order the pending updates go out.
use fuddle.Rpc.{Member2}
use fuddle.Metrics.{Runtime}
use fuddle.Client.{ReplicaClient, count_sent, send_loop}
use fuddle.Client.Pending.{take, take_first}
use fuddle.Prelude.{
  ◌≡◌, refl, ap, Bool, true, false, List, [], ◌∷◌, ◌++◌, length, ◌≤◌, arith, ◌⊎◌, inl, inr,
}

-- The updates that went out, then those that still wait, are those that waited before; one goes out
-- for each RPC, unless none waits any more.
pub record IsSentInOrder (us : List Member2) (oks : List Bool) (x : ReplicaClient × List Member2)
    : Type 0 where
  pub order : x.1 ++ x.0.pending.pending ≡ us
  pub one_each : length x.1 ≤ length oks
  pub complete : (length x.1 ≡ length oks) ⊎ (x.0.pending.pending ≡ [])

sent_first :
    (u : Member2) (ok : Bool) (us : List Member2) (oks : List Bool)
    (x : ReplicaClient × List Member2)
    → IsSentInOrder us oks x
    → IsSentInOrder (u ∷ us) (ok ∷ oks) (x.0, u ∷ x.1)
sent_first u ok us oks x h = record {
  order = ap (λ l. u ∷ l) h.order;
  one_each = omega (arith, h.one_each);
  complete = elim (h.complete) [ inl e ↦ inl (omega (arith, e)) | inr e ↦ inr e ];
}

module _ (rt : Runtime) where
  pub send_loop-IsSentInOrder :
      (oks : List Bool) (c : ReplicaClient) (us : List Member2)
      → c.pending.closed ≡ false
      → c.pending.pending ≡ us
      → IsSentInOrder us oks (send_loop rt c oks)
  unfolding send_loop take take_first count_sent
  send_loop-IsSentInOrder [] c us still e = record {
    order = e;
    one_each = omega arith;
    complete = inl refl;
  }
  send_loop-IsSentInOrder (ok ∷ oks) c [] still e =
      rw (still, e) (record { order = refl; one_each = omega arith; complete = inr refl })
  send_loop-IsSentInOrder (true ∷ oks) c (u ∷ us) still e =
      rw (still, e) (sent_first u true us oks _ (send_loop-IsSentInOrder oks _ us refl refl))
  send_loop-IsSentInOrder (false ∷ oks) c (u ∷ us) still e =
      rw (still, e) (sent_first u false us oks _ (send_loop-IsSentInOrder oks _ us refl refl))
