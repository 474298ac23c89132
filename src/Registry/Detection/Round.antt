-- ===== src/Registry/Detection/Round.antt =====
-- What a round of the failure detector leaves of one member, whatever it does to the others. Times
-- and timeouts are int64 values without overflow.
use fuddle.Rpc.{Member2, Liveness, up, down, left}
use fuddle.StringMap.{lookup}
use fuddle.Metrics.{Runtime}
use fuddle.Registry.State.{Registry, update_member_locked}
use fuddle.Registry.Liveness.{has_left, update_member_liveness_locked, update_liveness, or_time}
use fuddle.Registry.Keys.{IsKeyed}
use fuddle.Registry.Rounds.{SkipsMember, round_visit}
use fuddle.Registry.Visits.{SameFor}
use fuddle.Registry.Detection.{
  IsRenewed, IsRenewed-as, timed_out, in_time, claimed_liveness, claimed_expiry, renew,
  visit_silent, visit_heard, visit_unexpired, visit_expired_down, visit_expired_left, visit_orphan,
  visit_owner_present,
}
use fuddle.Prelude.{
  ℕ, ◌+◌, ◌^◌, ◌<◌, ◌≤◌, String, ◌≡◌, sym, ◌∙◌, ◌≢◌, false, Option, none, some, List, [], ◌∷◌, ◌++◌,
  arith, add64, int64, add64_exact,
}

-- Why a round leaves a member at time `t` alone: this node owns it, and it is up and was heard of within
-- the heartbeat timeout, or it is not up and has not expired; or another node owns it that is not known
-- to have left, and it is no expired left one.
pub data IsSpared (r : Registry) (m : Member2) (t : ℕ) : Type 0 where
  heard :
      (seen heartbeat : ℕ)
      → m.version.owner_id ≡ r.local_id
      → m.liveness ≡ up
      → lookup m.state.id r.last_seen ≡ some (int64 seen)
      → r.heartbeat_timeout ≡ int64 heartbeat
      → seen < 2 ^ 63
      → heartbeat < 2 ^ 63
      → t < 2 ^ 63
      → t ≤ seen + heartbeat
      → IsSpared r m t
  unexpired :
      m.version.owner_id ≡ r.local_id → m.liveness ≢ up → int64 t ≤ m.expiry → IsSpared r m t
  owner_present :
      m.version.owner_id ≢ r.local_id
      → (m.liveness ≡ left → int64 t ≤ m.expiry)
      → lookup m.version.owner_id r.left_nodes ≡ none
      → IsSpared r m t

-- One member in one round: its entry and the visits before and after its own.
module _ (rt : Runtime) (r : Registry) (id : String) (m : Member2)
    (before after : List (String × ℕ)) (clock t : ℕ) (keyed : IsKeyed r)
    (b : SkipsMember rt id before) (a : SkipsMember rt id after) (foreign : id ≢ r.local_id)
    (entry : lookup id r.members ≡ some m) where
  abbrev round : Option Member2
  round = lookup id (update_liveness rt r (before ++ (id, clock) ∷ after) (int64 t)).members

  renewed :
      (l : Liveness) (x : ℕ) (expiry : Registry → ℕ)
      → m.version.timestamp.timestamp < clock
      → ((s : Registry) → SameFor id r s → expiry s ≡ x)
      → ((s : Registry)
          → SameFor id r s
          → id ≢ s.local_id
          → lookup id s.members ≡ some m
          → update_member_liveness_locked rt s id (int64 t) clock
            ≡ update_member_locked rt s m.state l (expiry s) [] clock)
      → IsRenewed m l x r.local_id clock round
  renewed l x expiry older expires visit =
      round_visit rt id (IsRenewed m l x r.local_id clock) r before after clock (int64 t) keyed b a
        λ s same keyed'.
          let away : id ≢ s.local_id = λ p. foreign (p ∙ same.local) in
          let here : lookup id s.members ≡ some m = same.entry ∙ entry in
          rw (visit s same away here) (
            IsRenewed-as m l clock _ (expires s same) same.local
              (renew rt s id m clock (int64 t) l (expiry s) (keyed id m entry) away here older))

  kept :
      ((s : Registry)
        → SameFor id r s
        → id ≢ s.local_id
        → lookup id s.members ≡ some m
        → update_member_liveness_locked rt s id (int64 t) clock ≡ s)
      → round ≡ some m
  kept visit =
      round_visit rt id (λ o. o ≡ some m) r before after clock (int64 t) keyed b a
        λ s same keyed'.
          let here : lookup id s.members ≡ some m = same.entry ∙ entry in
          rw (visit s same (λ p. foreign (p ∙ same.local)) here) here

  -- A member that this node owns, is up and was not heard of for longer than the heartbeat timeout is
  -- marked down by the round, under a new version, to expire a reconnect timeout later.
  pub silent_member_down :
      (seen heartbeat reconnect : ℕ)
      → m.version.owner_id ≡ r.local_id
      → m.liveness ≡ up
      → m.version.timestamp.timestamp < clock
      → lookup id r.last_seen ≡ some (int64 seen)
      → r.heartbeat_timeout ≡ int64 heartbeat
      → r.reconnect_timeout ≡ int64 reconnect
      → seen < 2 ^ 63
      → heartbeat < 2 ^ 63
      → t + reconnect < 2 ^ 63
      → seen + heartbeat < t
      → IsRenewed m down (int64 (t + reconnect)) r.local_id clock round
  unfolding or_time
  silent_member_down seen heartbeat reconnect own is_up older last hb rc bs bh bt late =
      renewed down (int64 (t + reconnect)) (λ s. add64 (int64 t) s.reconnect_timeout) older
        (λ s same. rw (same.reconnect, rc) (add64_exact t reconnect bt))
        λ s same away here.
          visit_silent rt s id m clock (int64 t) away here (own ∙ sym same.local) is_up (
            rw (same.heartbeat, hb, same.seen, last)
              (timed_out t seen heartbeat (omega arith) bs bh late))

  -- A down member that this node owns and whose expiry has passed is marked left, to expire a
  -- tombstone timeout later; before its expiry its entry stays.
  pub down_member_left :
      (tombstone : ℕ)
      → m.version.owner_id ≡ r.local_id
      → m.liveness ≡ down
      → m.version.timestamp.timestamp < clock
      → r.tombstone_timeout ≡ int64 tombstone
      → t + tombstone < 2 ^ 63
      → (m.expiry < int64 t → IsRenewed m left (int64 (t + tombstone)) r.local_id clock round)
        × (int64 t ≤ m.expiry → round ≡ some m)
  down_member_left tombstone own is_down older ts bt = (
    λ late.
        renewed left (int64 (t + tombstone)) (λ s. add64 (int64 t) s.tombstone_timeout) older
          (λ s same. rw (same.tombstone, ts) (add64_exact t tombstone bt))
          λ s same away here.
            visit_expired_down rt s id m clock (int64 t) away here (own ∙ sym same.local) is_down
              late,
    λ early. kept λ s same away here.
        visit_unexpired rt s id m clock (int64 t) away here (own ∙ sym same.local) (λ e. cc) early,
  )

  -- A left member whose expiry has passed is removed, whoever owns it.
  pub left_member_removed : m.liveness ≡ left → m.expiry < int64 t → round ≡ none
  left_member_removed is_left late =
      round_visit rt id (λ o. o ≡ none) r before after clock (int64 t) keyed b a
        λ s same keyed'.
          visit_expired_left rt s id m clock (int64 t) (λ p. foreign (p ∙ same.local))
            (same.entry ∙ entry) is_left late

  not_left : (m.liveness ≡ left → int64 t ≤ m.expiry) → has_left m m.liveness (int64 t) ≡ false
  unfolding has_left
  not_left h = ground (arith, h)

  -- A round that visits once a member whose owner, another node, left the cluster more than the
  -- heartbeat timeout before the round's time, leaves it owned by this node: an up member down with a
  -- fresh expiry, any other with its liveness and expiry. The member is not this node's own entry, nor
  -- an expired left one; the timestamp of its version is earlier than the clock of the visit; each entry
  -- of the map is of the member of its key; and the times, the timeouts and the deadline fit an int64.
  pub orphan_claimed :
      (contact heartbeat reconnect : ℕ)
      → m.version.owner_id ≢ r.local_id
      → (m.liveness ≡ left → int64 t ≤ m.expiry)
      → m.version.timestamp.timestamp < clock
      → lookup m.version.owner_id r.left_nodes ≡ some (int64 contact)
      → r.heartbeat_timeout ≡ int64 heartbeat
      → r.reconnect_timeout ≡ int64 reconnect
      → contact < 2 ^ 63
      → heartbeat < 2 ^ 63
      → t + reconnect < 2 ^ 63
      → contact + heartbeat < t
      → IsRenewed m
          (claimed_liveness m.liveness)
          (claimed_expiry m.liveness m.expiry (int64 (t + reconnect)))
          r.local_id
          clock
          round
  orphan_claimed contact heartbeat reconnect other_owner stays older gone hb rc bs bh bt late =
      renewed (claimed_liveness m.liveness)
        (claimed_expiry m.liveness m.expiry (int64 (t + reconnect)))
        (λ s. claimed_expiry m.liveness m.expiry (add64 (int64 t) s.reconnect_timeout)) older
        (λ s same. rw (same.reconnect, rc, add64_exact t reconnect bt))
        λ s same away here.
          visit_orphan rt s id m clock (int64 t) away here (int64 contact)
            (λ p. other_owner (p ∙ same.local)) (not_left stays) (rw same.nodes gone)
            (rw (same.heartbeat, hb) (timed_out t contact heartbeat (omega arith) bs bh late))

  -- A round leaves the entry of a member alone that this node owns and that is up and was heard of
  -- within the heartbeat timeout, or not up and not expired; and of one whose owner, another node, is not
  -- known to have left, unless it is an expired left one.
  pub spared_member_kept : IsSpared r m t → round ≡ some m
  unfolding or_time
  spared_member_kept (heard seen heartbeat own is_up last hb bs bh bt early) =
      kept λ s same away here.
        visit_heard rt s id m clock (int64 t) away here (own ∙ sym same.local) is_up (
          rw (same.heartbeat, hb, same.seen, sym (keyed id m entry), last)
            (in_time t seen heartbeat bt bs bh early))
  spared_member_kept (unexpired own not_up early) = kept λ s same away here.
      visit_unexpired rt s id m clock (int64 t) away here (own ∙ sym same.local) not_up early
  spared_member_kept (owner_present other_owner stays there) = kept λ s same away here.
      visit_owner_present rt s id m clock (int64 t) away here (λ p. other_owner (p ∙ same.local))
        (not_left stays) (rw same.nodes there)
