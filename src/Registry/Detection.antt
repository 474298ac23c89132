-- ===== src/Registry/Detection.antt =====
-- What a round of the failure detector (pkg/registry/registry/failuredetector.go) decides for one
-- member. The values of the clock and of the timeouts are int64 without overflow, written `int64 n`.
pub mod Round
pub mod Lifecycle
use fuddle.Rpc.{Member2, MemberState, Liveness, up, down, left, other}
use fuddle.StringMap.{lookup, lookup-insert, lookup-erase}
use fuddle.Metrics.{Runtime}
use fuddle.Registry.Options.{options_of}
use fuddle.Registry.Version.{compare_versions}
use fuddle.Registry.State.{
  Registry, outdated, next_version, next_version_locked, set_member_locked, delete_member_locked,
  notify_subscribers_locked, update_member_at, update_member_locked,
}
use fuddle.Registry.Liveness.{
  owned_liveness, take_ownership, owner_gone, has_left, update_found_liveness,
  update_owned_member_liveness_locked, update_remote_member_liveness_locked,
  update_member_liveness_locked, update_liveness, or_time,
}
use fuddle.Registry.Keys.{IsKeyed}
use fuddle.Registry.Rounds.{SkipsMember, round_visit}
use fuddle.Registry.Visits.{SameFor}
use fuddle.Prelude.{
  ℕ, ◌+◌, ◌^◌, ◌<◌, ◌≤◌, String, ◌≡◌, refl, sym, ap, subst, ◌∙◌, ◌≢◌, Bool, true, false, Option,
  none, some, List, [], ◌∷◌, ◌++◌, arith, ite, string_dec, if_pos, if_neg, sub64, add64, int64, ltb,
  sub64_test, add64_exact,
}

-- The entry is m under a new version of this owner and time, with this liveness and expiry.
abbrev pub IsRenewed : Member2 → Liveness → ℕ → String → ℕ → Option Member2 → Type 0
IsRenewed m l expiry owner clock none = ⊥
IsRenewed m l expiry owner clock (some m') =
    (m'.state ≡ m.state)
    × (m'.liveness ≡ l)
    × (m'.expiry ≡ expiry)
    × (m'.version.owner_id ≡ owner)
    × (m'.version.timestamp.timestamp ≡ clock)

IsRenewed-as :
    (m : Member2) (l : Liveness) (clock : ℕ) {x x' : ℕ} {owner owner' : String} (o : Option Member2)
    → x ≡ x'
    → owner ≡ owner'
    → IsRenewed m l x owner clock o
    → IsRenewed m l x' owner' clock o
IsRenewed-as m l clock none p q h = h
IsRenewed-as m l clock (some m') p q h = (h.0, h.1, h.2 ∙ p, h.3 ∙ q, h.4)

-- The detector's test of int64 values, on their values.
timed_out :
    (a b c : ℕ)
    → a < 2 ^ 63
    → b < 2 ^ 63
    → c < 2 ^ 63
    → b + c < a
    → ltb (int64 c) (sub64 (int64 a) (int64 b)) ≡ true
timed_out a b c ha hb hc late = sub64_test a b c ha hb hc ∙ ground arith

in_time :
    (a b c : ℕ)
    → a < 2 ^ 63
    → b < 2 ^ 63
    → c < 2 ^ 63
    → a ≤ b + c
    → ltb (int64 c) (sub64 (int64 a) (int64 b)) ≡ false
in_time a b c ha hb hc early = sub64_test a b c ha hb hc ∙ ground arith

-- What becomes of a member whose owner has left: an up member is marked down.
unfoldable pub claimed_liveness : Liveness → Liveness
claimed_liveness up = down
claimed_liveness l = l

unfoldable pub claimed_expiry : Liveness → (expiry fresh : ℕ) → ℕ
claimed_expiry up expiry fresh = fresh
claimed_expiry l expiry fresh = expiry

-- The entry that an accepted update leaves.
pub update_member_at-lookup :
    (rt : Runtime) (r : Registry) (m : MemberState) (l : Liveness) (expiry now : ℕ)
    → m.id ≢ r.local_id
    → outdated (lookup m.id r.members) (next_version r now) ≡ false
    → lookup m.id (update_member_at rt r m l expiry now).members
      ≡ some (record { state = m; liveness = l; version = next_version r now; expiry = expiry })
unfolding update_member_at set_member_locked notify_subscribers_locked next_version_locked
update_member_at-lookup rt r m l expiry now foreign fresh =
    let new : Member2 = record {
      state = m;
      liveness = l;
      version = next_version r now;
      expiry = expiry;
    } in
    ground (arith, lookup-insert m.id m.id new r.members)

-- A version made now is newer than one of an earlier time.
outdated_earlier :
    (r : Registry) (m : Member2) (now : ℕ)
    → m.version.timestamp.timestamp < now
    → outdated (some m) (next_version r now) ≡ false
unfolding outdated compare_versions next_version
outdated_earlier r m now h = ground arith

module _ (rt : Runtime) (s : Registry) (id : String) (m : Member2) (clock timestamp : ℕ) where
  renew :
      (l : Liveness) (expiry : ℕ)
      → m.state.id ≡ id
      → id ≢ s.local_id
      → lookup id s.members ≡ some m
      → m.version.timestamp.timestamp < clock
      → IsRenewed m l expiry s.local_id clock
          (lookup id (update_member_locked rt s m.state l expiry [] clock).members)
  unfolding update_member_locked options_of
  renew l expiry k foreign e older =
      subst
        (λ j.
          IsRenewed m l expiry s.local_id clock
            (lookup j (update_member_at rt s m.state l expiry clock).members))
        k
        (rw
          (update_member_at-lookup rt s m.state l expiry clock (rw k foreign)
            (rw (k, e) (outdated_earlier s m clock older)))
          (refl, refl, refl, refl, refl))

  module _ (foreign : id ≢ s.local_id) (e : lookup id s.members ≡ some m) where
    visit_owned :
        m.version.owner_id ≡ s.local_id
        → update_member_liveness_locked rt s id timestamp clock
          ≡ owned_liveness rt s id m m.liveness (or_time (lookup id s.last_seen)) timestamp clock
    unfolding update_member_liveness_locked update_found_liveness
        update_owned_member_liveness_locked
    visit_owned own = rw (
      if_neg (string_dec id s.local_id) foreign,
      e,
      update_found_liveness,
      if_pos (string_dec m.version.owner_id s.local_id) own,
    )

    visit_remote :
        m.version.owner_id ≢ s.local_id
        → update_member_liveness_locked rt s id timestamp clock
          ≡ update_remote_member_liveness_locked rt s id m timestamp clock
    unfolding update_member_liveness_locked update_found_liveness
    visit_remote other_owner = rw (
      if_neg (string_dec id s.local_id) foreign,
      e,
      update_found_liveness,
      if_neg (string_dec m.version.owner_id s.local_id) other_owner,
    )

    visit_silent :
        m.version.owner_id ≡ s.local_id
        → m.liveness ≡ up
        → ltb s.heartbeat_timeout (sub64 timestamp (or_time (lookup id s.last_seen))) ≡ true
        → update_member_liveness_locked rt s id timestamp clock
          ≡ update_member_locked rt s m.state down (add64 timestamp s.reconnect_timeout) [] clock
    unfolding owned_liveness
    visit_silent own l late = visit_owned own ∙ ground arith

    visit_expired_down :
        m.version.owner_id ≡ s.local_id
        → m.liveness ≡ down
        → m.expiry < timestamp
        → update_member_liveness_locked rt s id timestamp clock
          ≡ update_member_locked rt s m.state left (add64 timestamp s.tombstone_timeout) [] clock
    unfolding owned_liveness
    visit_expired_down own l late = visit_owned own ∙ ground arith

    visit_expired_left :
        m.liveness ≡ left
        → m.expiry < timestamp
        → lookup id (update_member_liveness_locked rt s id timestamp clock).members ≡ none
    unfolding owned_liveness update_remote_member_liveness_locked has_left delete_member_locked
    visit_expired_left l late = elim (string_dec m.version.owner_id s.local_id) [
      | yes own ↦ rw (visit_owned own) (ground (arith, lookup-erase id id s.members))
      | no other_owner ↦
          rw (visit_remote other_owner) (ground (arith, lookup-erase id id s.members))
    ]

    visit_orphan :
        (contact : ℕ)
        → m.version.owner_id ≢ s.local_id
        → has_left m m.liveness timestamp ≡ false
        → lookup m.version.owner_id s.left_nodes ≡ some contact
        → ltb s.heartbeat_timeout (sub64 timestamp contact) ≡ true
        → update_member_liveness_locked rt s id timestamp clock
          ≡ update_member_locked rt s m.state
              (claimed_liveness m.liveness)
              (claimed_expiry m.liveness m.expiry (add64 timestamp s.reconnect_timeout))
              []
              clock
    unfolding update_remote_member_liveness_locked owner_gone take_ownership claimed_liveness
        claimed_expiry
    visit_orphan contact other_owner stays gone late = visit_remote other_owner ∙ ground arith

    visit_heard :
        m.version.owner_id ≡ s.local_id
        → m.liveness ≡ up
        → ltb s.heartbeat_timeout (sub64 timestamp (or_time (lookup id s.last_seen))) ≡ false
        → update_member_liveness_locked rt s id timestamp clock ≡ s
    unfolding owned_liveness
    visit_heard own l early = visit_owned own ∙ ground arith

    visit_unexpired :
        m.version.owner_id ≡ s.local_id
        → m.liveness ≢ up
        → timestamp ≤ m.expiry
        → update_member_liveness_locked rt s id timestamp clock ≡ s
    unfolding owned_liveness
    visit_unexpired own l early = visit_owned own ∙ ground arith

    visit_owner_present :
        m.version.owner_id ≢ s.local_id
        → has_left m m.liveness timestamp ≡ false
        → lookup m.version.owner_id s.left_nodes ≡ none
        → update_member_liveness_locked rt s id timestamp clock ≡ s
    unfolding update_remote_member_liveness_locked owner_gone
    visit_owner_present other_owner stays there = visit_remote other_owner ∙ ground arith
