-- ===== src/RegistryV2/Metered.antt =====
-- The gauges of the second version of the registry against its members.
use fuddle.Rpc.{Member2, MemberState, up}
use fuddle.Registry.Version.{copy_member_state}
use fuddle.StringMap.{lookup}
use fuddle.StringMap.Count.{IsDistinct, count, weight, count-insert, insert-IsDistinct}
use fuddle.Metrics.{Runtime, new_gauge, value_at, update_key, value_at-inc, value_at-dec}
use fuddle.Registry.Metered.{replace_count}
use fuddle.RegistryV2.{
  Registry, Metrics, Opt, Options, count_labels, owned_labels, inc_members_count, dec_members_count,
  next_version_locked, empty_registry, add_local_member, new_registry, apply_all, default_options,
  replace_member,
}
use fuddle.Prelude.{
  int64, ℕ, List, refl, String, ◌≡◌, ◌∙◌, Bool, ◌&&◌, Option, none, some, pos, ◌+ℤ◌, ◌-ℤ◌, arith,
  string_dec, is_yes,
}

module _ (rt : Runtime) where
  -- Is the member counted under the key k of the gauge of all members, or of owned ones?
  abbrev pub counts_at : String → Member2 → Bool
  counts_at k m = is_yes (string_dec (update_key rt (count_labels rt m)) k)

  abbrev pub owned_counts_at : String → String → Member2 → Bool
  owned_counts_at local k m =
      is_yes (string_dec m.version.owner_id local)
      && is_yes (string_dec (update_key rt (owned_labels rt m)) k)

  pub record IsMetered (r : Registry) : Type 0 where
    pub distinct : IsDistinct r.members
    pub counted :
        (k : String) → value_at k r.metrics.members_count ≡ pos (count (counts_at k) r.members)
    pub owned :
        (k : String)
        → value_at k r.metrics.members_owned ≡ pos (count (owned_counts_at r.local_id k) r.members)

  counted_in :
      (k local : String) (m : Member2) (g : Metrics)
      → value_at k (inc_members_count rt local m g).members_count
        ≡ value_at k g.members_count +ℤ pos (weight (counts_at k) (some m))
  unfolding inc_members_count ◌+ℤ◌
  counted_in k local m g = ground (arith, value_at-inc rt (count_labels rt m) k g.members_count)

  counted_out :
      (k local : String) (o : Option Member2) (g : Metrics)
      → value_at k (dec_members_count rt local o g).members_count
        ≡ value_at k g.members_count -ℤ pos (weight (counts_at k) o)
  unfolding dec_members_count ◌-ℤ◌
  counted_out k local none g = ground arith
  counted_out k local (some m) g =
      ground (arith, value_at-dec rt (count_labels rt m) k g.members_count)

  owned_in :
      (k local : String) (m : Member2) (g : Metrics)
      → value_at k (inc_members_count rt local m g).members_owned
        ≡ value_at k g.members_owned +ℤ pos (weight (owned_counts_at local k) (some m))
  unfolding inc_members_count ◌+ℤ◌
  owned_in k local m g = ground (arith, value_at-inc rt (owned_labels rt m) k g.members_owned)

  owned_out :
      (k local : String) (o : Option Member2) (g : Metrics)
      → value_at k (dec_members_count rt local o g).members_owned
        ≡ value_at k g.members_owned -ℤ pos (weight (owned_counts_at local k) o)
  unfolding dec_members_count ◌-ℤ◌
  owned_out k local none g = ground arith
  owned_out k local (some m) g =
      ground (arith, value_at-dec rt (owned_labels rt m) k g.members_owned)

  -- The entry that is stored has the labels of the member that is counted.
  pub replace_member-IsMetered :
      (r : Registry) (id : String) (stored counted : Member2)
      → ((k : String) → weight (counts_at k) (some counted) ≡ weight (counts_at k) (some stored))
      → ((k : String)
          → weight (owned_counts_at r.local_id k) (some counted)
            ≡ weight (owned_counts_at r.local_id k) (some stored))
      → IsMetered r
      → IsMetered (replace_member rt r id stored counted)
  unfolding replace_member
  replace_member-IsMetered r id stored counted same owned_same h = record {
    distinct = insert-IsDistinct id stored r.members h.distinct;
    counted = λ k.
        counted_in k r.local_id counted
          (dec_members_count rt r.local_id (lookup id r.members) r.metrics)
        ∙ rw (counted_out k r.local_id (lookup id r.members) r.metrics, h.counted k, same k)
            (replace_count _ _ _ _ (count-insert (counts_at k) id stored r.members h.distinct));
    owned = λ k.
        owned_in k r.local_id counted
          (dec_members_count rt r.local_id (lookup id r.members) r.metrics)
        ∙ rw (owned_out k r.local_id (lookup id r.members) r.metrics, h.owned k, owned_same k)
            (replace_count _ _ _ _
              (count-insert (owned_counts_at r.local_id k) id stored r.members h.distinct));
  }

  pub frame-IsMetered :
      (r : Registry) (now : ℕ) → IsMetered r → IsMetered (next_version_locked r now).0
  unfolding next_version_locked
  frame-IsMetered r now h = record { distinct = h.distinct; counted = h.counted; owned = h.owned }

  empty_registry-IsMetered : (id : String) (o : Options) → IsMetered (empty_registry rt id o)
  unfolding empty_registry count lookup new_gauge
  empty_registry-IsMetered id o = record { distinct = tt; counted = λ k. refl; owned = λ k. refl }

  -- The local member enters an empty map, so no entry leaves the gauges.
  add_local_member-IsMetered :
      (local_id : String) (o : Options) (s : Option MemberState) (timestamp : ℕ)
      → IsMetered (add_local_member rt (empty_registry rt local_id o) s timestamp)
  unfolding add_local_member empty_registry replace_member dec_members_count lookup
      next_version_locked
  add_local_member-IsMetered local_id o none timestamp = empty_registry-IsMetered local_id o
  add_local_member-IsMetered local_id o (some s) timestamp =
      let (r, version) = next_version_locked (empty_registry rt local_id o) timestamp in
      let member : Member2 = record {
        state = copy_member_state s;
        liveness = up;
        version = version;
        expiry = int64 0;
      } in
      replace_member-IsMetered r local_id member member (λ k. refl) (λ k. refl)
        (frame-IsMetered _ timestamp (empty_registry-IsMetered local_id o))

  pub new_registry-IsMetered :
      (local_id : String) (timestamp : ℕ) (opts : List Opt)
      → IsMetered (new_registry rt local_id timestamp opts)
  unfolding new_registry
  new_registry-IsMetered local_id timestamp opts =
      let options = apply_all opts default_options in
      add_local_member-IsMetered local_id options options.local_member timestamp
