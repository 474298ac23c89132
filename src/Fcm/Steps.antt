-- ===== src/Fcm/Steps.antt =====
-- The rules for what holds after a chain of steps that may fail (Fcm.World).
use fuddle.Fcm.World.{World, Step, ◌>>=◌, return, repeat}
use fuddle.Prelude.{ℕ, zero, suc, Option, none, some, List, ◌∷◌, ◌+◌, subst, arith}

-- `P` after a failure, `Q` of the result after a success.
abbrev pub Outcome {ℓ} :
    {A : Type ℓ} → (World → Type 0) → (A → World → Type 0) → Option A → World → Type 0
Outcome P Q none w = P w
Outcome P Q (some a) w = Q a w

-- The step keeps `P`, whether it fails or not.
abbrev pub Keeps {ℓ} : {A : Type ℓ} → (World → Type 0) → Step A → Type 0
Keeps P m = (w : World) → P w → P (m w).0

-- From a world with `P` the step leads to `Q` of its result, or fails with `F`.
abbrev pub Leads {ℓ} :
    {A : Type ℓ} → (P F : World → Type 0) → (A → World → Type 0) → Step A → Type 0
Leads P F Q m = (w : World) → P w → Outcome F Q (m w).1 (m w).0

pub Leads-bind {ℓ κ} :
    {A : Type ℓ} {B : Type κ} (P F : World → Type 0) (M : A → World → Type 0)
    (Q : B → World → Type 0) (m : Step A) (f : A → Step B)
    → Leads P F M m
    → ((a : A) → Leads (M a) F Q (f a))
    → Leads P F Q (m >>= f)
Leads-bind {A} {B} P F M Q m f k e w p = step (m w).1 (m w).0 (k w p)
  where
    step :
        (o : Option A) (v : World)
        → Outcome F M o v
        → let r : World × Option B = elim o [ none ↦ (v, none) | some a ↦ f a v ] in
          Outcome F Q r.1 r.0
    step none v q = q
    step (some a) v q = e a v q

-- A loop whose body counts up.
pub Leads-repeat {ℓ} :
    {A : Type ℓ} (S : ℕ → World → Type 0) (F : World → Type 0) (body : ℕ → Step A) (i n k : ℕ)
    → ((j c : ℕ) → Leads (S c) F (λ x. S (suc c)) (body j))
    → Leads (S k) F (λ xs. S (k + n)) (repeat body i n)
unfolding repeat
Leads-repeat S F body i zero k h = λ w p. subst (λ c. S c w) (omega arith) p
Leads-repeat {A} S F body i (suc n) k h =
    Leads-bind (S k) F (λ x. S (suc k)) (λ xs. S (k + suc n)) (body i)
      (λ x. repeat body (suc i) n >>= λ xs. return (x ∷ xs)) (h i k)
      (λ x.
        Leads-bind (S (suc k)) F (λ xs. S (suc k + n)) (λ (xs : List A). S (k + suc n))
          (repeat body (suc i) n) (λ xs. return (x ∷ xs))
          (Leads-repeat S F body (suc i) n (suc k) h)
          (λ xs w p. subst (λ c. S c w) (omega arith) p))

module _ (P : World → Type 0) where
  -- What holds after the first step, and is kept by the others, holds after the chain.
  pub after-bind {ℓ κ} :
      {A : Type ℓ} {B : Type κ} (m : Step A) (f : A → Step B) (w : World)
      → P (m w).0
      → ((a : A) → Keeps P (f a))
      → P ((m >>= f) w).0
  after-bind {A} {B} m f w p e = step (m w).1 (m w).0 p
    where
      step :
          (o : Option A) (v : World)
          → P v
          → let r : World × Option B = elim o [ none ↦ (v, none) | some a ↦ f a v ] in P r.0
      step none v q = q
      step (some a) v q = e a v q

  pub Keeps-bind {ℓ κ} :
      {A : Type ℓ} {B : Type κ} (m : Step A) (f : A → Step B)
      → Keeps P m
      → ((a : A) → Keeps P (f a))
      → Keeps P (m >>= f)
  Keeps-bind m f k e w p = after-bind m f w (k w p) e

  pub Keeps-repeat {ℓ} :
      {A : Type ℓ} (body : ℕ → Step A) (i n : ℕ)
      → ((j : ℕ) → Keeps P (body j))
      → Keeps P (repeat body i n)
  unfolding repeat
  Keeps-repeat body i zero k = λ w p. p
  Keeps-repeat body i (suc n) k =
      Keeps-bind (body i) (λ x. repeat body (suc i) n >>= λ xs. return (x ∷ xs)) (k i)
        (λ x.
          Keeps-bind (repeat body (suc i) n) (λ xs. return (x ∷ xs)) (Keeps-repeat body (suc i) n k)
            (λ xs w p. p))
