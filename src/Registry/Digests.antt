-- ===== src/Registry/Digests.antt =====
-- Digest (pkg/registry/registry/replicarepair.go): what it holds, and how much.
use fuddle.Rpc.{Member2, MonotonicTimestamp}
use fuddle.StringMap.{StringMap, lookup, insert, erase, lookup-insert}
use fuddle.StringMap.Count.{IsDistinct, insert-IsDistinct, length-insert-le}
use fuddle.Registry.State.{Registry}
use fuddle.Registry.Repair.{timestamp_of, digest_priority, digest_members, digest_rest, digest}
use Prim.Native.Nat.{max}
use fuddle.Prelude.{
  ℕ, ◌<◌, ◌≤◌, String, ◌≡◌, refl, sym, subst, ◌⊎◌, inl, Bool, true, false, none, some, List, [],
  ◌∷◌, arith, pos, pos_part, ℤ, leb_ℤ, length, if_intro,
}

-- There is one entry for each id, the timestamp of the member's entry, or 0 for a member that is not
-- known.
abbrev pub IsDigestOf : StringMap Member2 → StringMap MonotonicTimestamp → Type 0
IsDigestOf members d =
    IsDistinct d
    × ((id : String)
        → (lookup id d ≡ none) ⊎ (lookup id d ≡ some (timestamp_of (lookup id members))))

insert-IsDigestOf :
    (members : StringMap Member2) (id : String) (d : StringMap MonotonicTimestamp)
    → IsDigestOf members d
    → IsDigestOf members (insert id (timestamp_of (lookup id members)) d)
insert-IsDigestOf members id d h = (
  insert-IsDistinct id (timestamp_of (lookup id members)) d h.0,
  λ j. ground (arith, h.1 j, lookup-insert id j (timestamp_of (lookup id members)) d),
)

-- The loops keep a property of digests that each written entry keeps.
module _ (members : StringMap Member2) (limit : ℤ) where
  -- At least one entry is written before the limit is looked at.
  abbrev most : ℕ
  most = max 1 (pos_part limit)

  pub record IsWithin (d : StringMap MonotonicTimestamp) : Type 0 where
    pub faithful : IsDigestOf members d
    pub bounded : length d ≤ max 1 (pos_part limit)

  write :
      (id : String) (d : StringMap MonotonicTimestamp)
      → IsDigestOf members d
      → length d < most
      → IsWithin (insert id (timestamp_of (lookup id members)) d)
  write id d h l = record {
    faithful = insert-IsDigestOf members id d h;
    bounded = omega (arith, length-insert-le id (timestamp_of (lookup id members)) d);
  }

  digest_members-IsWithin :
      (ids : List String) (d : StringMap MonotonicTimestamp)
      → IsDigestOf members d
      → length d < most
      → IsWithin (digest_members ids limit members d)
  unfolding digest_members
  digest_members-IsWithin [] d h l = record { faithful = h; bounded = omega arith }
  digest_members-IsWithin (id ∷ ids) d h l =
      let d' = insert id (timestamp_of (lookup id members)) d in
      let w = write id d h l in
      if_intro IsWithin (leb_ℤ limit (pos (length d'))) (λ _. w)
        (λ more. digest_members-IsWithin ids d' w.faithful (ground arith))

  abbrev PriorityResult : Registry × StringMap MonotonicTimestamp × Bool → Type 0
  PriorityResult (r, d, returned) =
      (r.members ≡ members)
      × IsDigestOf members d
      × (length d ≤ most)
      × (returned ≡ false → length d < most)

  digest_priority_result :
      (ids : List String) (r : Registry) (d : StringMap MonotonicTimestamp)
      → r.members ≡ members
      → IsDigestOf members d
      → length d < most
      → PriorityResult (digest_priority ids limit r d)
  unfolding digest_priority
  digest_priority_result [] r d e h l = (e, h, omega arith, λ _. l)
  digest_priority_result (id ∷ ids) r d e h l =
      let d' = insert id (timestamp_of (lookup id r.members)) d in
      let w =
        subst (λ ms. IsWithin (insert id (timestamp_of (lookup id ms)) d)) (sym e)
          (write id d h l) in
      let r' = record r { priority_members = erase id r.priority_members } in
      if_intro PriorityResult (leb_ℤ limit (pos (length d')))
        (λ _. (e, w.faithful, w.bounded, λ never. cc))
        (λ more. digest_priority_result ids r' d' e w.faithful (ground arith))

  digest_rest-IsWithin :
      (shuffled : List String) (x : Registry × StringMap MonotonicTimestamp × Bool)
      → PriorityResult x
      → IsWithin (digest_rest shuffled limit x).1
  unfolding digest_rest
  digest_rest-IsWithin shuffled (r, d, true) h = record { faithful = h.1; bounded = h.2 }
  digest_rest-IsWithin shuffled (r, d, false) h =
      subst (λ ms. IsWithin (digest_members shuffled limit ms d)) (sym h.0)
        (digest_members-IsWithin shuffled d h.1 (h.3 refl))

-- A digest has one entry for each id, and at most as many as the limit, but one where the limit is not
-- positive; each gives the timestamp of the registry's own entry, or 0 for a member that the registry does not know.
pub digest-IsWithin :
    (r : Registry) (ids shuffled : List String) (limit : ℤ)
    → IsWithin r.members limit (digest r ids shuffled limit).1
unfolding digest lookup
digest-IsWithin r ids shuffled limit =
    digest_rest-IsWithin r.members limit shuffled (digest_priority ids limit r [])
      (digest_priority_result r.members limit ids r [] refl (tt, λ id. inl refl) (omega arith))
