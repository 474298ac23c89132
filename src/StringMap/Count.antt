-- ===== src/StringMap/Count.antt =====
-- Maps with one entry for each key, and the number of their entries that pass a test.
use fuddle.Prelude.{
  ℕ, suc, ◌+◌, ◌≤◌, String, ◌≡◌, refl, Bool, Option, none, some, [], ◌∷◌, arith, length,
  if◌then◌else◌,
}
use fuddle.StringMap.{StringMap, lookup, erase, insert, lookup-erase}

module _ {ℓ} {V : Type ℓ} where
  -- No key occurs twice.
  abbrev pub IsDistinct : StringMap V → Type ℓ
  IsDistinct [] = Unit
  IsDistinct ((k, v) ∷ m) = (lookup k m ≡ none) × IsDistinct m

  pub erase_absent : (k : String) (m : StringMap V) → lookup k m ≡ none → erase k m ≡ m
  unfolding lookup erase
  erase_absent k [] h = refl
  erase_absent k ((j, v) ∷ m) h = ground (arith, erase_absent k m)

  pub erase-IsDistinct : (k : String) (m : StringMap V) → IsDistinct m → IsDistinct (erase k m)
  unfolding erase
  erase-IsDistinct k [] d = d
  erase-IsDistinct k ((j, v) ∷ m) d = ground (arith, erase-IsDistinct k m d.1, lookup-erase k j m)

  pub insert-IsDistinct :
      (k : String) (v : V) (m : StringMap V) → IsDistinct m → IsDistinct (insert k v m)
  unfolding insert
  insert-IsDistinct k v m d = ground (arith, erase-IsDistinct k m d, lookup-erase k k m)

  -- The number of entries whose value passes a test, and what one entry adds to it.
  unfoldable pub count : (V → Bool) → StringMap V → ℕ
  count p [] = 0
  count p ((k, v) ∷ m) = let rest = count p m in if p v then suc rest else rest

  abbrev pub weight : (V → Bool) → Option V → ℕ
  weight p none = 0
  weight p (some v) = if p v then 1 else 0

  pub count-erase :
      (p : V → Bool) (k : String) (m : StringMap V)
      → IsDistinct m
      → count p (erase k m) + weight p (lookup k m) ≡ count p m
  unfolding count lookup erase
  count-erase p k [] d = omega arith
  count-erase p k ((j, v) ∷ m) d = ground (arith, count-erase p k m d.1, erase_absent k m)

  pub count-insert :
      (p : V → Bool) (k : String) (v : V) (m : StringMap V)
      → IsDistinct m
      → count p (insert k v m) + weight p (lookup k m) ≡ count p m + weight p (some v)
  unfolding count insert
  count-insert p k v m d = ground (arith, count-erase p k m d)

  pub length-erase-le : (k : String) (m : StringMap V) → length (erase k m) ≤ length m
  unfolding erase
  length-erase-le k [] = omega arith
  length-erase-le k ((j, v) ∷ m) = ground (arith, length-erase-le k m)

  pub length-insert-le :
      (k : String) (v : V) (m : StringMap V) → length (insert k v m) ≤ length m + 1
  unfolding insert
  length-insert-le k v m = ground (arith, length-erase-le k m)
