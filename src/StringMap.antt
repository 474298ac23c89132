-- ===== src/StringMap.antt =====
-- Go's `map[string]V`, as an association list. The list's order is that of one iteration; nothing
-- that the model computes with a key depends on it.
pub mod Count
use fuddle.Prelude.{ℕ, String, ◌≡◌, refl, Option, none, some, List, [], ◌∷◌, ite, string_dec, arith}

abbrev pub StringMap {ℓ} : Type ℓ → Type ℓ
StringMap V = List (String × V)

module _ {ℓ} {V : Type ℓ} where
  -- `v, ok := m[k]`
  unfoldable pub lookup : String → StringMap V → Option V
  lookup k [] = none
  lookup k ((j, v) ∷ m) = ite (string_dec j k) (some v) (lookup k m)

  -- `delete(m, k)`
  unfoldable pub erase : String → StringMap V → StringMap V
  erase k [] = []
  erase k ((j, v) ∷ m) = let rest = erase k m in ite (string_dec j k) rest ((j, v) ∷ rest)

  -- `m[k] = v`
  unfoldable pub insert : String → V → StringMap V → StringMap V
  insert k v m = (k, v) ∷ erase k m

  pub lookup-erase :
      (k j : String) (m : StringMap V)
      → lookup j (erase k m) ≡ ite (string_dec k j) none (lookup j m)
  unfolding lookup erase
  lookup-erase k j [] = ground arith
  lookup-erase k j ((i, v) ∷ m) = ground (arith, lookup-erase k j m)

  pub lookup-insert :
      (k j : String) (v : V) (m : StringMap V)
      → lookup j (insert k v m) ≡ ite (string_dec k j) (some v) (lookup j m)
  unfolding lookup insert
  lookup-insert k j v m = ground (arith, lookup-erase k j m)

a_map : lookup {V = ℕ} "b" (insert "a" 3 (insert "b" 4 [])) ≡ some 4
unfolding lookup insert erase string_dec
a_map = refl
