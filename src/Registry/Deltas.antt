-- ===== src/Registry/Deltas.antt =====
-- Delta (pkg/registry/registry/replicarepair.go): what is sent back for a digest, and what becomes a
-- priority for the next digest.
use mathlib.Core.List.{Mem, mem-cons_self, mem-cons_of_mem}
use fuddle.Rpc.{Member2, MonotonicTimestamp}
use fuddle.StringMap.{StringMap, lookup, insert}
use fuddle.StringMap.Count.{IsDistinct}
use fuddle.Registry.Version.{compare_timestamps, copy_member}
use fuddle.Registry.State.{Registry}
use fuddle.Registry.Repair.{is_newer, with_copy, delta_from, delta}
use fuddle.Prelude.{
  ◌<◌, String, ◌≡◌, refl, subst, ◌⊎◌, Bool, true, false, Option, none, some, List, [], ◌∷◌, arith,
  All, if_intro, string_dec, if◌then◌else◌,
}

-- `b` is later than `a`, by its time or, at the same time, by its counter.
abbrev pub IsLater : MonotonicTimestamp → MonotonicTimestamp → Type 0
IsLater b a = (a.timestamp < b.timestamp) ⊎ ((a.timestamp ≡ b.timestamp) × (a.counter < b.counter))

is_newer-IsLater :
    (ts : MonotonicTimestamp) (m : Member2)
    → (is_newer ts (some m) ≡ true → IsLater m.version.timestamp ts)
      × (IsLater m.version.timestamp ts → is_newer ts (some m) ≡ true)
unfolding is_newer compare_timestamps
is_newer-IsLater ts m = (λ h. ground arith, λ h. ground arith)

-- What a member of the answer is: a copy of an entry that is later than the digest says.
abbrev pub IsSent : StringMap Member2 → StringMap MonotonicTimestamp → Member2 → Type 0
IsSent members d u =
    (id : String) × (ts : MonotonicTimestamp) × (m : Member2) × (lookup id d ≡ some ts)
    × (lookup id members ≡ some m)
    × IsLater m.version.timestamp ts
    × (u ≡ copy_member m)

lookup_head {ℓ} :
    {V : Type ℓ} (k : String) (v : V) (m : StringMap V) → lookup k ((k, v) ∷ m) ≡ some v
unfolding lookup
lookup_head k v m = ground arith

abbrev pub has_mark : Option (Unit {0}) → Bool
has_mark none = false
has_mark (some u) = true

module _ (members : StringMap Member2) where
  -- The step of the loop, on the answer.
  abbrev send : String → MonotonicTimestamp → List Member2 → List Member2
  send id ts ms = if is_newer ts (lookup id members) then with_copy (lookup id members) ms else ms

  IsSent-weaken :
      (j : String) (ts : MonotonicTimestamp) (d : StringMap MonotonicTimestamp) (u : Member2)
      → lookup j d ≡ none
      → IsSent members d u
      → IsSent members ((j, ts) ∷ d) u
  unfolding lookup
  IsSent-weaken j ts d u fresh s = (s.0, s.1, s.2, ground arith, s.4, s.5, s.6)

  All-IsSent-weaken :
      (j : String) (ts : MonotonicTimestamp) (d : StringMap MonotonicTimestamp) (us : List Member2)
      → lookup j d ≡ none
      → All (IsSent members d) us
      → All (IsSent members ((j, ts) ∷ d)) us
  All-IsSent-weaken j ts d [] fresh h = tt
  All-IsSent-weaken j ts d (u ∷ us) fresh h =
      (IsSent-weaken j ts d u fresh h.0, All-IsSent-weaken j ts d us fresh h.1)

  send-All :
      (P : Member2 → Type 0) (id : String) (ts : MonotonicTimestamp) (o : Option Member2)
      (ms : List Member2)
      → ((m : Member2) → o ≡ some m → is_newer ts o ≡ true → P (copy_member m))
      → All P ms
      → All P (if is_newer ts o then with_copy o ms else ms)
  unfolding with_copy
  send-All P id ts none ms new h = if_intro (All P) (is_newer ts none) (λ _. h) (λ _. h)
  send-All P id ts (some m) ms new h =
      if_intro (All P) (is_newer ts (some m)) (λ e. (new m refl e, h)) (λ _. h)

  delta_from_sound :
      (d : StringMap MonotonicTimestamp) (p : StringMap (Unit {0}))
      → IsDistinct d
      → All (IsSent members d) (delta_from members d p).0
  unfolding delta_from
  delta_from_sound [] p k = tt
  delta_from_sound ((j, ts) ∷ d) p k =
      let q = if is_newer ts (lookup j members) then p else insert j tt p in
      send-All (IsSent members ((j, ts) ∷ d)) j ts (lookup j members) (delta_from members d q).0
        (λ m e newer. (
          j,
          ts,
          m,
          here,
          e,
          (is_newer-IsLater ts m).0 (subst (λ o. is_newer ts o ≡ true) e newer),
          refl,
        ))
        (All-IsSent-weaken j ts d (delta_from members d q).0 k.0 (delta_from_sound d q k.1))
    where
      here : lookup j ((j, ts) ∷ d) ≡ some ts
      here = lookup_head j ts d

  send-mem :
      (u : Member2) (ts : MonotonicTimestamp) (o : Option Member2) (ms : List Member2)
      → Mem u ms
      → Mem u (if is_newer ts o then with_copy o ms else ms)
  unfolding with_copy
  send-mem u ts none ms h = if_intro (Mem u) (is_newer ts none) (λ _. h) (λ _. h)
  send-mem u ts (some m) ms h =
      if_intro (Mem u) (is_newer ts (some m)) (λ _. mem-cons_of_mem _ h) (λ _. h)

  send-mem_self :
      (m : Member2) (ts : MonotonicTimestamp) (ms : List Member2)
      → is_newer ts (some m) ≡ true
      → Mem (copy_member m) (if is_newer ts (some m) then with_copy (some m) ms else ms)
  unfolding with_copy
  send-mem_self m ts ms h = rw h mem-cons_self

  delta_from_complete :
      (d : StringMap MonotonicTimestamp) (p : StringMap (Unit {0})) (id : String)
      (ts : MonotonicTimestamp) (m : Member2)
      → lookup id d ≡ some ts
      → lookup id members ≡ some m
      → IsLater m.version.timestamp ts
      → Mem (copy_member m) (delta_from members d p).0
  unfolding delta_from lookup
  delta_from_complete [] p id ts m e known later = cc
  delta_from_complete ((j, ts') ∷ d) p id ts m e known later =
      let q = if is_newer ts' (lookup j members) then p else insert j tt p in
      let ms = (delta_from members d q).0 in
      elim (string_dec j id) [
        | yes same ↦
            let at : ts' ≡ ts = ground arith in
            rw (same, at, known) (send-mem_self m ts _ ((is_newer-IsLater ts m).1 later))
        | no differ ↦
            send-mem (copy_member m) ts' (lookup j members) ms
              (delta_from_complete d q id ts m (ground arith) known later)
      ]

-- The answer to a digest with one entry for each id holds copies of members whose timestamp is later
-- than the digest says, and of every such member.
pub delta_members :
    (r : Registry) (d : StringMap MonotonicTimestamp)
    → IsDistinct d
    → All (IsSent r.members d) (delta r d).1
      × ((id : String) (ts : MonotonicTimestamp) (m : Member2)
          → lookup id d ≡ some ts
          → lookup id r.members ≡ some m
          → IsLater m.version.timestamp ts
          → Mem (copy_member m) (delta r d).1)
unfolding delta
delta_members r d k = (
  delta_from_sound r.members d r.priority_members k,
  λ id ts m. delta_from_complete r.members d r.priority_members id ts m,
)
