-- ===== src/RegistryV2/Known.antt =====
-- What a run of the second version of the registry keeps: the ids that it knows and the gauges. No
-- call removes an entry, so a call of `OwnedMemberLeave` for an id that was announced does not panic.
use fuddle.Rpc.{Member2, MemberState, Version2}
use fuddle.StringMap.{lookup, lookup-insert}
use fuddle.Metrics.{Runtime}
use fuddle.Registry.Version.{copy_member, copy_member_state, copy_version}
use fuddle.RegistryV2.{
  Registry, Outcome, done, panics, Opt, Options, replace_member, owned_member_upsert,
  leave_existing, owned_member_leave, remote_upsert_member, outdated, next_version,
  next_version_locked, empty_registry, add_local_member, new_registry, apply_all, default_options,
}
use fuddle.RegistryV2.Runs.{Op, upsert, leave, remote, and_then, step, run}
use fuddle.RegistryV2.Metered.{
  IsMetered, replace_member-IsMetered, frame-IsMetered, new_registry-IsMetered,
}
use fuddle.Prelude.{
  ℕ, String, ◌≡◌, refl, sym, subst, ◌∙◌, ◌≢◌, ◌↔◌, ◌⊎◌, inl, inr, true, Option, none, some, List,
  [], ◌∷◌, arith, string_dec, ite_intro, if_intro, Option-cases,
}

-- Is the id the local one, or one of the map?
abbrev pub IsKnown : Registry → String → Type 0
IsKnown r id = (id ≡ r.local_id) ⊎ (lookup id r.members ≢ none)

-- Every id that a call leaves is one of K, or one that an earlier call added or sent.
unfoldable pub IsAnnounced : (String → Type 0) → List Op → Type 0
IsAnnounced K [] = Unit
IsAnnounced K (upsert state timestamp ∷ ops) = IsAnnounced (λ j. (j ≡ state.id) ⊎ K j) ops
IsAnnounced K (leave id timestamp ∷ ops) = K id × IsAnnounced K ops
IsAnnounced K (remote m ∷ ops) = IsAnnounced (λ j. (j ≡ m.state.id) ⊎ K j) ops

-- The call returned, and the registry that it left has the property.
abbrev pub Returns : (Registry → Type 0) → Outcome → Type 0
Returns P (done r) = P r
Returns P panics = ⊥

outdated-present : (o : Option Member2) (v : Version2) → outdated o v ≡ true → o ≢ none
unfolding outdated
outdated-present none v h = ground arith
outdated-present (some m) v h = ground arith

module _ (rt : Runtime) where
  pub record IsSound (K : String → Type 0) (r : Registry) : Type 0 where
    pub metered : IsMetered rt r
    pub known : (j : String) → K j → IsKnown r j

  IsKnown-replace :
      (r : Registry) (id : String) (stored counted : Member2) (j : String)
      → (j ≡ id) ⊎ IsKnown r j
      → IsKnown (replace_member rt r id stored counted) j
  unfolding replace_member
  IsKnown-replace r id stored counted j (inl e) =
      inr (ground (arith, lookup-insert id j stored r.members))
  IsKnown-replace r id stored counted j (inr (inl e)) = inl e
  IsKnown-replace r id stored counted j (inr (inr e)) =
      inr (ground (arith, lookup-insert id j stored r.members))

  IsSound-replace :
      {K : String → Type 0} (r : Registry) (id : String) (m : Member2) (now : ℕ)
      → IsSound K r
      → IsSound (λ j. (j ≡ id) ⊎ K j) (replace_member rt (next_version_locked r now).0 id m m)
  unfolding next_version_locked
  IsSound-replace r id m now h = record {
    metered =
        replace_member-IsMetered rt _ id m m (λ k. refl) (λ k. refl)
          (frame-IsMetered rt r now h.metered);
    known =
        λ j k. IsKnown-replace _ id m m j (elim k [ inl e ↦ inl e | inr k' ↦ inr (h.known j k') ]);
  }

  -- The registry has learnt the id, or knew it.
  IsSound-known :
      {K : String → Type 0} (r : Registry) (id : String)
      → IsKnown r id
      → IsSound K r
      → IsSound (λ j. (j ≡ id) ⊎ K j) r
  IsSound-known r id known h = record {
    metered = h.metered;
    known = λ j k. elim k [ inl e ↦ subst (IsKnown r) (sym e) known | inr k' ↦ h.known j k' ];
  }

  IsSound-version :
      {K : String → Type 0} (r : Registry) (now : ℕ)
      → IsSound K r
      → IsSound K (next_version_locked r now).0
  unfolding next_version_locked
  IsSound-version r now h = record { metered = frame-IsMetered rt r now h.metered; known = h.known }

  upsert-IsSound :
      {K : String → Type 0} (r : Registry) (state : MemberState) (timestamp : ℕ)
      → IsSound K r
      → IsSound (λ j. (j ≡ state.id) ⊎ K j) (owned_member_upsert rt r state timestamp)
  unfolding owned_member_upsert next_version_locked
  upsert-IsSound {K = K} r state timestamp h =
      ite_intro (IsSound (λ j. (j ≡ state.id) ⊎ K j)) (string_dec state.id r.local_id)
        (λ e. IsSound-known r state.id (inl e) h)
        (λ _.
          if_intro (IsSound (λ j. (j ≡ state.id) ⊎ K j))
            (outdated (lookup state.id r.members) (next_version r timestamp))
            (λ e.
              IsSound-known _ state.id (inr (outdated-present _ _ e))
                (IsSound-version r timestamp h))
            (λ _. IsSound-replace r state.id _ timestamp h))

  remote-IsSound :
      {K : String → Type 0} (r : Registry) (m : Member2)
      → IsSound K r
      → IsSound (λ j. (j ≡ m.state.id) ⊎ K j) (remote_upsert_member rt r m)
  unfolding remote_upsert_member copy_member copy_member_state copy_version
  remote-IsSound {K = K} r m h =
      if_intro (IsSound (λ j. (j ≡ m.state.id) ⊎ K j))
        (outdated (lookup m.state.id r.members) m.version)
        (λ e. IsSound-known r m.state.id (inr (outdated-present _ _ e)) h)
        (λ _. record {
          metered =
              replace_member-IsMetered rt r m.state.id (copy_member m) m (λ k. refl) (λ k. refl)
                h.metered;
          known = λ j k.
              IsKnown-replace r m.state.id (copy_member m) m j
                (elim k [ inl e ↦ inl e | inr k' ↦ inr (h.known j k') ]);
        })

  IsSound-weaken :
      {K : String → Type 0} (r : Registry) (id : String)
      → IsSound (λ j. (j ≡ id) ⊎ K j) r
      → IsSound K r
  IsSound-weaken r id h = record { metered = h.metered; known = λ j k. h.known j (inr k) }

  leave-IsSound :
      {K : String → Type 0} (r : Registry) (id : String) (timestamp : ℕ)
      → IsKnown r id
      → IsSound K r
      → Returns (IsSound K) (owned_member_leave rt r id timestamp)
  unfolding owned_member_leave next_version_locked
  leave-IsSound {K = K} r id timestamp known h =
      ite_intro (Returns (IsSound K)) (string_dec id r.local_id) (λ _. h)
        (λ n. elim (Option-cases (lookup id r.members)) [
          | inl e ↦ elim known [ inl p ↦ absurd (n p) | inr q ↦ absurd (q e) ]
          | inr (m, e) ↦
              rw (e, leave_existing)
                (if_intro (Returns (IsSound K)) (outdated (some m) (next_version r timestamp))
                  (λ _. IsSound-version r timestamp h)
                  (λ _. IsSound-weaken _ id (IsSound-replace r id _ timestamp h)))
        ])

  step-run :
      {K : String → Type 0} (o : Outcome) (ops : List Op)
      → ((r : Registry) → IsSound K r → Returns (IsMetered rt) (run rt r ops))
      → Returns (IsSound K) o
      → Returns (IsMetered rt) (and_then o (λ r. run rt r ops))
  unfolding and_then
  step-run (done r) ops f h = f r h
  step-run panics ops f h = h

  run-IsSound :
      (K : String → Type 0) (ops : List Op) (r : Registry)
      → IsAnnounced K ops
      → IsSound K r
      → Returns (IsMetered rt) (run rt r ops)
  unfolding run step IsAnnounced
  run-IsSound K [] r a h = h.metered
  run-IsSound K (upsert state timestamp ∷ ops) r a h =
      step-run (done _) ops (λ r'. run-IsSound _ ops r' a) (upsert-IsSound r state timestamp h)
  run-IsSound K (leave id timestamp ∷ ops) r a h =
      step-run _ ops (λ r'. run-IsSound K ops r' a.1)
        (leave-IsSound r id timestamp (h.known id a.0) h)
  run-IsSound K (remote m ∷ ops) r a h =
      step-run (done _) ops (λ r'. run-IsSound _ ops r' a) (remote-IsSound r m h)

  local_kept :
      (local_id : String) (o : Options) (s : Option MemberState) (timestamp : ℕ)
      → (add_local_member rt (empty_registry rt local_id o) s timestamp).local_id ≡ local_id
  unfolding add_local_member empty_registry next_version_locked
  local_kept local_id o none timestamp = refl
  local_kept local_id o (some s) timestamp = refl

  new_registry-IsSound :
      (local_id : String) (timestamp : ℕ) (opts : List Opt)
      → IsSound (λ j. j ≡ local_id) (new_registry rt local_id timestamp opts)
  unfolding new_registry
  new_registry-IsSound local_id timestamp opts =
      let options = apply_all opts default_options in
      record {
        metered = new_registry-IsMetered rt local_id timestamp opts;
        known = λ j e. inl (e ∙ sym (local_kept local_id options options.local_member timestamp));
      }

  -- If every id that is left is the local one or was added or sent before, the calls all return, and
  -- then the map has one entry for each id, and at each key the two gauges hold the number of members
  -- and of owned members whose labels are rendered so.
  pub announced_run-Returns :
      (local_id : String) (timestamp : ℕ) (opts : List Opt) (ops : List Op)
      → IsAnnounced (λ j. j ≡ local_id) ops
      → Returns (IsMetered rt) (run rt (new_registry rt local_id timestamp opts) ops)
  announced_run-Returns local_id timestamp opts ops a =
      run-IsSound _ ops _ a (new_registry-IsSound local_id timestamp opts)

  -- `OwnedMemberLeave` panics exactly for an id that is neither the local one nor in the map.
  pub owned_member_leave-panics :
      (r : Registry) (id : String) (timestamp : ℕ)
      → (owned_member_leave rt r id timestamp ≡ panics)
        ↔ ((id ≢ r.local_id) × (lookup id r.members ≡ none))
  unfolding owned_member_leave leave_existing next_version_locked
  owned_member_leave-panics r id timestamp = ground arith
