-- ===== src/Registry/Runs/Stable.antt =====
-- Every call changes members, lastSeen and the metrics by a few kinds of steps only, so a property
-- that these keep is kept by each call.
use fuddle.Rpc.{Liveness, up, left, Member2, MemberState, MonotonicTimestamp}
use fuddle.StringMap.{StringMap, lookup, insert, erase}
use fuddle.Metrics.{Runtime}
use fuddle.Registry.Options.{Opt}
use fuddle.Registry.State.{
  Registry, members_for_owner, outdated, next_version, next_version_locked,
  notify_subscribers_locked, update_member_at, update_member_locked,
}
use fuddle.Registry.Members
use fuddle.Registry.Members.{is_owned_up, is_owned}
use fuddle.Registry.Subscribe
use fuddle.Registry.Runs.{
  Op, IsSweep, step, run, add_member, member_heartbeat, remove_member, remote_update, on_node_join,
  on_node_leave, update_liveness, subscribe_local, subscribe, unsubscribe, digest, delta,
}
use fuddle.Registry.Repair
use fuddle.Registry.Runs.Kept.{
  IsKept, IsStable, IsStable-IsKept, aside, add_sub-Follows, subscribe-Follows, unsubscribe-Follows,
}
use fuddle.Prelude.{
  ℕ, String, refl, inl, inr, Bool, true, false, List, [], ◌∷◌, ℤ, All, string_dec, Option-cases,
  if_intro, ite_intro, ltb, length, leb_ℤ, pos,
}

module _ {rt : Runtime} {P : Registry → Type 0} (s : IsKept rt P) where
  open s use {frame, accepted, heard}

  pub update_member_at-stable :
      (r : Registry) (member : MemberState) (liveness : Liveness) (expiry now : ℕ)
      → P r
      → P (update_member_at rt r member liveness expiry now)
  unfolding update_member_at
  update_member_at-stable r member liveness expiry now h =
      ite_intro P (string_dec member.id r.local_id) (λ _. h)
        (λ n.
          if_intro P (outdated (lookup member.id r.members) (next_version r now))
            (λ _. frame r _ (aside r _ _ _) h)
            (λ e.
              accepted (next_version_locked r now).0 _ true n e (inl refl)
                (frame r _ (aside r _ _ _) h)))

  pub update_member_locked-stable :
      (r : Registry) (member : MemberState) (liveness : Liveness) (expiry : ℕ) (opts : List Opt)
      (clock : ℕ)
      → P r
      → P (update_member_locked rt r member liveness expiry opts clock)
  unfolding update_member_locked
  update_member_locked-stable r member liveness expiry opts clock h =
      update_member_at-stable r member liveness expiry _ h

  pub remote_update-stable : (r : Registry) (m : Member2) → P r → P (Members.remote_update rt r m)
  unfolding Members.remote_update notify_subscribers_locked
  remote_update-stable r m h =
      ite_intro P (string_dec m.state.id r.local_id) (λ _. h)
        (λ n.
          ite_intro P (string_dec m.version.owner_id r.local_id) (λ _. h)
            (λ o.
              if_intro P (outdated (lookup m.state.id r.members) m.version) (λ _. h)
                (λ e.
                  accepted r m (is_owned r.local_id (lookup m.state.id r.members)) n e (inr o) h)))

  member_heartbeat-stable :
      (r : Registry) (m : MemberState) (opts : List Opt) (clock clock' : ℕ)
      → P r
      → P (Members.member_heartbeat rt r m opts clock clock')
  unfolding Members.member_heartbeat
  member_heartbeat-stable r m opts clock clock' h =
      if_intro P (is_owned_up r.local_id (lookup m.id r.members)) (λ e. heard r m.id _ e h)
        (λ _. update_member_locked-stable r m up _ opts clock' h)

  remove_member-stable :
      (r : Registry) (id : String) (opts : List Opt) (clock clock' : ℕ)
      → P r
      → P (Members.remove_member rt r id opts clock clock')
  unfolding Members.remove_member
  remove_member-stable r id opts clock clock' h = elim (Option-cases (lookup id r.members)) [
    | inl e ↦ rw (e, Members.remove_found) h
    | inr (m, e) ↦
        rw (e, Members.remove_found) (update_member_locked-stable r m.state left _ opts clock' h)
  ]

  on_node_leave-stable :
      (r : Registry) (id : String) (opts : List Opt) (clock : ℕ)
      → P r
      → P (Members.on_node_leave r id opts clock)
  unfolding Members.on_node_leave
  on_node_leave-stable r id opts clock h =
      if_intro P (ltb 0 (members_for_owner id r.members)) (λ _. frame r _ (aside r _ _ _) h)
        (λ _. h)

  digest_priority-stable :
      (ids : List String) (limit : ℤ) (r : Registry) (d : StringMap MonotonicTimestamp)
      → P r
      → P (Repair.digest_priority ids limit r d).0
  unfolding Repair.digest_priority
  digest_priority-stable [] limit r d h = h
  digest_priority-stable (id ∷ ids) limit r d h =
      let h' =
        frame r (record r { priority_members = erase id r.priority_members }) (aside r _ _ _) h in
      if_intro (λ (x : Registry × StringMap MonotonicTimestamp × Bool). P x.0)
        (leb_ℤ limit (pos (length (insert id (Repair.timestamp_of (lookup id r.members)) d))))
        (λ _. h')
        (λ _.
          digest_priority-stable ids limit
            (record r { priority_members = erase id r.priority_members }) _ h')

  digest_rest-stable :
      (shuffled : List String) (limit : ℤ) (x : Registry × StringMap MonotonicTimestamp × Bool)
      → P x.0
      → P (Repair.digest_rest shuffled limit x).0
  unfolding Repair.digest_rest
  digest_rest-stable shuffled limit (r, d, true) h = h
  digest_rest-stable shuffled limit (r, d, false) h = h

  digest-stable :
      (r : Registry) (ids shuffled : List String) (limit : ℤ)
      → P r
      → P (Repair.digest r ids shuffled limit).0
  unfolding Repair.digest
  digest-stable r ids shuffled limit h =
      digest_rest-stable shuffled limit (Repair.digest_priority ids limit r [])
        (digest_priority-stable ids limit r [] h)

  -- Every call but those of the failure detector.
  pub step-stable : (r : Registry) (op : Op) → ¬ IsSweep op → P r → P (step rt r op)
  unfolding step Members.add_member Members.on_node_join Subscribe.subscribe Subscribe.unsubscribe
      Subscribe.subscribe_local Subscribe.add_sub Repair.delta
  step-stable r (add_member m opts clock) n h = update_member_locked-stable r m up _ opts clock h
  step-stable r (member_heartbeat m opts clock clock') n h =
      member_heartbeat-stable r m opts clock clock' h
  step-stable r (remove_member id opts clock clock') n h =
      remove_member-stable r id opts clock clock' h
  step-stable r (remote_update m) n h = remote_update-stable r m h
  step-stable r (on_node_join id) n h = frame r _ (aside r _ _ _) h
  step-stable r (on_node_leave id opts clock) n h = on_node_leave-stable r id opts clock h
  step-stable r (update_liveness visits timestamp) n h = absurd (n tt)
  step-stable r subscribe_local n h = frame r _ (add_sub-Follows r true) h
  step-stable r (subscribe req) n h = frame r _ (subscribe-Follows r req) h
  step-stable r (unsubscribe handle) n h = frame r _ (unsubscribe-Follows r handle) h
  step-stable r (digest ids shuffled limit) n h = digest-stable r ids shuffled limit h
  step-stable r (delta d) n h = frame r _ (aside r _ _ _) h

  -- A run in which the failure detector is not called.
  pub run-kept_no_sweep :
      (r : Registry) (ops : List Op) → All (λ op. ¬ IsSweep op) ops → P r → P (run rt r ops)
  unfolding run
  run-kept_no_sweep r [] n h = h
  run-kept_no_sweep r (op ∷ ops) n h =
      run-kept_no_sweep (step rt r op) ops n.1 (step-stable r op n.0 h)

-- The same for a property that an accepted update keeps before its calls are made.
pub run-stable_no_sweep :
    {rt : Runtime} {P : Registry → Type 0}
    → IsStable rt P
    → (r : Registry) (ops : List Op) → All (λ op. ¬ IsSweep op) ops
    → P r
    → P (run rt r ops)
run-stable_no_sweep {rt} {P} s = run-kept_no_sweep (IsStable-IsKept rt P s)
