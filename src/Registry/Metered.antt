-- ===== src/Registry/Metered.antt =====
-- The gauges of the registry against its members. Each gauge holds one value for each rendering of
-- its labels, so it is compared with the number of members whose labels are rendered so.
use fuddle.Rpc.{Member2, MemberState}
use fuddle.StringMap.{lookup}
use fuddle.StringMap.Count.{
  IsDistinct, count, weight, count-insert, count-erase, insert-IsDistinct, erase-IsDistinct,
}
use fuddle.Metrics.{Runtime, value_at, update_key, value_at-inc, value_at-dec}
use fuddle.Registry.Options.{Opt, Options, options_of}
use fuddle.Registry.State.{
  Registry, Metrics, count_labels, owned_labels, count_in, count_out, set_member_locked,
  delete_member_locked, empty_registry, add_local_member, new_registry,
}
use fuddle.Registry.Runs.{Op, run}
use fuddle.Registry.Runs.Kept.{IsStable, KeepsDeletes}
use fuddle.Registry.Runs.Sweep.{run-stable}
use fuddle.Prelude.{
  ℕ, String, ◌≡◌, refl, sym, subst, ◌∙◌, ◌+◌, Bool, ◌&&◌, Option, none, some, List, pos, ◌+ℤ◌, ◌-ℤ◌,
  arith, string_dec, is_yes,
}

pub replace_count : (c c' w w' : ℕ) → c' + w ≡ c + w' → pos c -ℤ pos w +ℤ pos w' ≡ pos c'
unfolding ◌+ℤ◌ ◌-ℤ◌
replace_count c c' w w' h = ground arith

remove_count : (c c' w : ℕ) → c' + w ≡ c → pos c -ℤ pos w ≡ pos c'
unfolding ◌-ℤ◌
remove_count c c' w h = ground arith

module _ (rt : Runtime) where
  -- Is the member counted under the key k of the gauge of all members, or of owned ones?
  abbrev pub counts_at : String → Member2 → Bool
  counts_at k m = is_yes (string_dec (update_key rt (count_labels rt m)) k)

  abbrev pub owned_counts_at : String → String → Member2 → Bool
  owned_counts_at local k m =
      is_yes (string_dec m.version.owner_id local)
      && is_yes (string_dec (update_key rt (owned_labels rt m)) k)

  pub record IsMetered (r : Registry) : Type 0 where
    pub distinct : IsDistinct r.members
    pub counted :
        (k : String) → value_at k r.metrics.members_count ≡ pos (count (counts_at k) r.members)
    pub owned :
        (k : String)
        → value_at k r.metrics.members_owned ≡ pos (count (owned_counts_at r.local_id k) r.members)

  counted_in :
      (k local : String) (m : Member2) (g : Metrics)
      → value_at k (count_in rt local m g).members_count
        ≡ value_at k g.members_count +ℤ pos (weight (counts_at k) (some m))
  unfolding count_in ◌+ℤ◌
  counted_in k local m g = ground (arith, value_at-inc rt (count_labels rt m) k g.members_count)

  counted_out :
      (k local : String) (o : Option Member2) (g : Metrics)
      → value_at k (count_out rt local o g).members_count
        ≡ value_at k g.members_count -ℤ pos (weight (counts_at k) o)
  unfolding count_out ◌-ℤ◌
  counted_out k local none g = ground arith
  counted_out k local (some m) g =
      ground (arith, value_at-dec rt (count_labels rt m) k g.members_count)

  owned_in :
      (k local : String) (m : Member2) (g : Metrics)
      → value_at k (count_in rt local m g).members_owned
        ≡ value_at k g.members_owned +ℤ pos (weight (owned_counts_at local k) (some m))
  unfolding count_in ◌+ℤ◌
  owned_in k local m g = ground (arith, value_at-inc rt (owned_labels rt m) k g.members_owned)

  owned_out :
      (k local : String) (o : Option Member2) (g : Metrics)
      → value_at k (count_out rt local o g).members_owned
        ≡ value_at k g.members_owned -ℤ pos (weight (owned_counts_at local k) o)
  unfolding count_out ◌-ℤ◌
  owned_out k local none g = ground arith
  owned_out k local (some m) g =
      ground (arith, value_at-dec rt (owned_labels rt m) k g.members_owned)

  set_member-IsMetered :
      (r : Registry) (m : Member2) → IsMetered r → IsMetered (set_member_locked rt r m)
  unfolding set_member_locked
  set_member-IsMetered r m h = record {
    distinct = insert-IsDistinct m.state.id m r.members h.distinct;
    counted = λ k.
        counted_in k r.local_id m (count_out rt r.local_id (lookup m.state.id r.members) r.metrics)
        ∙ rw (counted_out k r.local_id (lookup m.state.id r.members) r.metrics, h.counted k)
            (replace_count _ _ _ _ (count-insert (counts_at k) m.state.id m r.members h.distinct));
    owned = λ k.
        owned_in k r.local_id m (count_out rt r.local_id (lookup m.state.id r.members) r.metrics)
        ∙ rw (owned_out k r.local_id (lookup m.state.id r.members) r.metrics, h.owned k)
            (replace_count _ _ _ _
              (count-insert (owned_counts_at r.local_id k) m.state.id m r.members h.distinct));
  }

  delete_member-IsMetered :
      (r : Registry) (id : String) → IsMetered r → IsMetered (delete_member_locked rt r id)
  unfolding delete_member_locked
  delete_member-IsMetered r id h = record {
    distinct = erase-IsDistinct id r.members h.distinct;
    counted = λ k.
        counted_out k r.local_id (lookup id r.members) r.metrics
        ∙ rw (h.counted k) (remove_count _ _ _ (count-erase (counts_at k) id r.members h.distinct));
    owned = λ k.
        owned_out k r.local_id (lookup id r.members) r.metrics
        ∙ rw (h.owned k) (
            remove_count _ _ _
              (count-erase (owned_counts_at r.local_id k) id r.members h.distinct));
  }

  IsMetered-stable : IsStable rt IsMetered
  IsMetered-stable = record {
    frame = λ r r' c h. record {
      distinct = subst IsDistinct (sym c.members) h.distinct;
      counted = λ k. rw (c.metrics, c.members) (h.counted k);
      owned = λ k. rw (c.metrics, c.members, c.local) (h.owned k);
    };
    stored = λ r m _ _ h. set_member-IsMetered r m h;
    heard = λ r id now _ h. record { distinct = h.distinct; counted = h.counted; owned = h.owned };
  }

  IsMetered-deletes : KeepsDeletes rt IsMetered
  IsMetered-deletes = record { deleted = λ r id _ h. delete_member-IsMetered r id h }

  empty_registry-IsMetered : (id : String) (o : Options) → IsMetered (empty_registry id o)
  unfolding empty_registry count lookup
  empty_registry-IsMetered id o = record { distinct = tt; counted = λ k. refl; owned = λ k. refl }

  add_local_member-IsMetered :
      (r : Registry) (o : Option MemberState) (now : ℕ)
      → IsMetered r
      → IsMetered (add_local_member rt r o now)
  unfolding add_local_member
  add_local_member-IsMetered r none now h = h
  add_local_member-IsMetered r (some state) now h =
      set_member-IsMetered _ _
        (record { distinct = h.distinct; counted = h.counted; owned = h.owned })

  new_registry-IsMetered :
      (local_id : String) (opts : List Opt) (clock : ℕ)
      → IsMetered (new_registry rt local_id opts clock)
  unfolding new_registry
  new_registry-IsMetered local_id opts clock =
      let options = options_of opts clock in
      add_local_member-IsMetered (empty_registry local_id options) options.local_member options.now
        (empty_registry-IsMetered local_id options)

  -- From the start and after any calls, at each key the gauge of all members holds the number of
  -- members with that status and owner, and the gauge of owned members the number of those that this
  -- node owns with that status; the map has one entry for each id.
  pub run-IsMetered :
      (local_id : String) (opts : List Opt) (clock : ℕ) (ops : List Op)
      → IsMetered (run rt (new_registry rt local_id opts clock) ops)
  run-IsMetered local_id opts clock ops =
      run-stable IsMetered-stable IsMetered-deletes _ ops
        (new_registry-IsMetered local_id opts clock)
