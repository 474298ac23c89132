-- ===== src/Prelude/Tests.antt =====
-- Boolean tests on numbers and texts, the conditional, and ways to split on a computed value.
use Prim.Native.Nat.{ℕ, ◌<◌, compare, Ordering}
use Prim.Native.String.{String}
use mathlib.Core.Path.{◌≡◌, refl, sym, ◌∙◌}
use mathlib.Core.Logic.{◌≢◌, ◌⊎◌, inl, inr, ite}
use mathlib.Core.Bool.{Bool, true, false}
use mathlib.Core.Option.{Option, none, some}
use native.Mathlib.Omega.{arith}
use text.Mathlib.Text.{◌==◌ as str_eq}
use text.Mathlib.TextEquality.{eq_iff}

-- These compute to `compare`, which `ground` and `grind` read with no lemma listed.
abbrev pub ltb : ℕ → ℕ → Bool
ltb a b = elim (compare a b) [ Ordering.lt ↦ true | _ ↦ false ]

abbrev pub leb : ℕ → ℕ → Bool
leb a b = elim (compare a b) [ Ordering.gt ↦ false | _ ↦ true ]

infix 1 if◌then◌else◌
abbrev pub if◌then◌else◌ {ℓ} : {A : Type ℓ} → Bool → A → A → A
if true then x else y = x
if false then x else y = y

pub lt→ltb : (a b : ℕ) → a < b → ltb a b ≡ true
lt→ltb a b h = ground arith

pub Bool-cases : (b : Bool) → (b ≡ true) ⊎ (b ≡ false)
Bool-cases true = inl refl
Bool-cases false = inr refl

pub Option-cases {ℓ} : {A : Type ℓ} (o : Option A) → (o ≡ none) ⊎ ((a : A) × (o ≡ some a))
Option-cases none = inl refl
Option-cases (some a) = inr (a, refl)

dec_of_test : (a b : String) (t : Bool) → str_eq a b ≡ t → Dec (a ≡ b)
dec_of_test a b true e = yes ((eq_iff a b).0 e)
dec_of_test a b false e = no (λ p. cc ((eq_iff a b).1 p))

-- `a == b` on strings, as a decision: `ite (string_dec a b) x y`.
unfoldable pub string_dec : Discrete String
unfolding dec_of_test
string_dec a b = dec_of_test a b (str_eq a b) refl

-- Two literals that the test tells apart.
pub ne_of_test : (a b : String) → str_eq a b ≡ false → a ≢ b
ne_of_test a b e p = cc (sym e ∙ (eq_iff a b).1 p)

-- A decision as a Boolean, for conditions joined by `&&`.
abbrev pub is_yes {ℓ} : {P : Type ℓ} → Dec P → Bool
is_yes (yes p) = true
is_yes (no n) = false

-- A property of both branches is one of the whole; each branch has its test's outcome.
pub if_intro {ℓ κ} :
    {A : Type ℓ} (P : A → Type κ) (b : Bool) {x y : A}
    → (b ≡ true → P x)
    → (b ≡ false → P y)
    → P (if b then x else y)
if_intro P true f g = f refl
if_intro P false f g = g refl

pub ite_intro {ℓ κ μ} :
    {A : Type ℓ} {Q : Type μ} (P : A → Type κ) (d : Dec Q) {x y : A}
    → (Q → P x)
    → (¬ Q → P y)
    → P (ite d x y)
ite_intro P (yes q) f g = f q
ite_intro P (no n) f g = g n
