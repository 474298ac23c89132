-- ===== src/Fcm/Occurrences.antt =====
-- How often an id occurs in a list, and in the clusters of a map (Fcm.Server).
use fuddle.Fcm.World.{Cluster}
use fuddle.Fcm.Cluster.{fuddle_ids, member_ids, stop, stop_all, take_at, shutdown}
use fuddle.StringMap.{StringMap, lookup, erase, insert}
use fuddle.Prelude.{
  ℕ, zero, suc, ◌+◌, ◌≤◌, String, ◌≡◌, refl, ap, Option, none, some, List, [], ◌∷◌, ◌++◌, map, ite,
  string_dec, arith, length,
}

unfoldable pub occurrences : String → List String → ℕ
occurrences x [] = 0
occurrences x (y ∷ ys) = let n = occurrences x ys in ite (string_dec y x) (suc n) n

pub occurrences-append :
    (x : String) (ys zs : List String)
    → occurrences x (ys ++ zs) ≡ occurrences x ys + occurrences x zs
unfolding occurrences
occurrences-append x [] zs = omega arith
occurrences-append x (y ∷ ys) zs = ground (arith, occurrences-append x ys zs)

pub occurrences-cons :
    (x y : String) (ys : List String)
    → occurrences x (y ∷ ys) ≡ occurrences x (y ∷ []) + occurrences x ys
unfolding occurrences
occurrences-cons x y ys = ground arith

-- Stopping a node takes away at most its own id.
pub occurrences-stop :
    (x id : String) (ys : List String)
    → occurrences x ys ≤ occurrences x (stop id ys) + occurrences x (id ∷ [])
unfolding occurrences stop
occurrences-stop x id [] = omega arith
occurrences-stop x id (y ∷ ys) = ground (arith, occurrences-stop x id ys)

occurrences-stop_all :
    (x : String) (ids ys : List String)
    → occurrences x ys ≤ occurrences x (stop_all ids ys) + occurrences x ids
unfolding occurrences stop_all
occurrences-stop_all x [] ys = omega arith
occurrences-stop_all x (id ∷ ids) ys =
    ground (arith, occurrences-stop_all x ids (stop id ys), occurrences-stop x id ys)

-- The ids of all nodes of a cluster, and of all clusters of a map.
unfoldable pub node_ids : Cluster → List String
unfolding fuddle_ids member_ids
node_ids c = fuddle_ids c ++ member_ids c

pub node_ids_lem :
    (x : String) (c : Cluster)
    → occurrences x (node_ids c) ≡ occurrences x (fuddle_ids c) + occurrences x (member_ids c)
unfolding node_ids
node_ids_lem x c = occurrences-append x (fuddle_ids c) (member_ids c)

unfoldable pub all_ids : StringMap Cluster → List String
unfolding node_ids
all_ids [] = []
all_ids ((id, c) ∷ m) = node_ids c ++ all_ids m

pub occurrences-shutdown :
    (x : String) (c : Cluster) (ys : List String)
    → occurrences x ys ≤ occurrences x (shutdown c ys) + occurrences x (node_ids c)
unfolding shutdown node_ids
occurrences-shutdown x c ys =
    let a = occurrences-append x (fuddle_ids c) (member_ids c) in
    let b = occurrences-stop_all x (member_ids c) ys in
    let d = occurrences-stop_all x (fuddle_ids c) (stop_all (member_ids c) ys) in
    omega (arith, a, b, d)

pub all_ids-erase :
    (x id : String) (m : StringMap Cluster)
    → occurrences x (all_ids (erase id m)) ≤ occurrences x (all_ids m)
unfolding all_ids erase
all_ids-erase x id [] = omega arith
all_ids-erase x id ((j, c) ∷ m) = ground (
  arith,
  all_ids-erase x id m,
  occurrences-append x (node_ids c) (all_ids m),
  occurrences-append x (node_ids c) (all_ids (erase id m)),
)

-- The clusters other than the one that is found have the other ids.
pub all_ids-found :
    (x id : String) (m : StringMap Cluster) (c : Cluster)
    → lookup id m ≡ some c
    → occurrences x (all_ids (erase id m)) + occurrences x (node_ids c) ≤ occurrences x (all_ids m)
unfolding all_ids erase lookup
all_ids-found x id [] c e = absurd (ground (arith, e))
all_ids-found x id ((j, d) ∷ m) c e = ground (
  arith,
  e,
  all_ids-found x id m c,
  all_ids-erase x id m,
  occurrences-append x (node_ids d) (all_ids m),
  occurrences-append x (node_ids d) (all_ids (erase id m)),
)

pub all_ids-insert :
    (x id : String) (c : Cluster) (m : StringMap Cluster)
    → occurrences x (all_ids (insert id c m))
      ≡ occurrences x (node_ids c) + occurrences x (all_ids (erase id m))
unfolding all_ids insert
all_ids-insert x id c m = occurrences-append x (node_ids c) (all_ids (erase id m))

-- What was taken out of a list, with the rest, makes up the list; nothing is found in an empty one.
abbrev pub IsTaken {ℓ} : {A : Type ℓ} → (A → String) → List A → Option (A × List A) → Type 0
IsTaken f xs none = map f xs ≡ []
IsTaken f xs (some r) =
    ((x : String) → occurrences x (map f xs) ≡ occurrences x (f r.0 ∷ map f r.1))
    × (length (map f xs) ≡ suc (length (map f r.1)))

pub take_at-IsTaken {ℓ} :
    {A : Type ℓ} (f : A → String) (i : ℕ) (xs : List A) → IsTaken f xs (take_at i xs)
unfolding occurrences take_at
take_at-IsTaken f i [] = refl
take_at-IsTaken f zero (z ∷ xs) = ((λ x. refl), refl)
take_at-IsTaken {A} f (suc i) (z ∷ xs) = later (take_at i xs) (take_at-IsTaken f i xs)
  where
    later :
        (o : Option (A × List A))
        → IsTaken f xs o
        → IsTaken f (z ∷ xs) (elim o [ none ↦ some (z, xs) | some (y, ys) ↦ some (y, z ∷ ys) ])
    later none h = ((λ x. refl), refl)
    later (some (y, ys)) h = ((λ x. let k = h.0 x in ground (arith, k)), ap suc h.1)
