-- ===== src/Sockets.antt =====
-- The sockets of a process, as numbers: what pkg/server, pkg/admin/server and pkg/gossip open and
-- close, and how a call may end that opens some.
use native.Mathlib.Decide.{ℕ_discrete}
use fuddle.Prelude.{
  ℕ, ◌≡◌, refl, Bool, false, not, ◌&&◌, ◌||◌, ◌++◌, is_yes, List, [], ◌∷◌, arith, if◌then◌else◌,
  Option, none, some,
}

unfoldable pub has : ℕ → List ℕ → Bool
has s [] = false
has s (t ∷ ts) = is_yes (ℕ_discrete t s) || has s ts

-- Those of the second list that are not in the first.
unfoldable pub close_sockets : List ℕ → List ℕ → List ℕ
unfolding has
close_sockets closed [] = []
close_sockets closed (s ∷ opened) =
    let others = close_sockets closed opened in if has s closed then others else s ∷ others

pub has-close_sockets :
    (s : ℕ) (closed opened : List ℕ)
    → has s (close_sockets closed opened) ≡ has s opened && not (has s closed)
unfolding close_sockets has
has-close_sockets s closed [] = refl
has-close_sockets s closed (t ∷ opened) = ground (arith, has-close_sockets s closed opened)

pub has-append : (s : ℕ) (ts us : List ℕ) → has s (ts ++ us) ≡ has s ts || has s us
unfolding has
has-append s [] us = refl
has-append s (t ∷ ts) us = ground (arith, has-append s ts us)

-- An error, or a panic.
pub data Outcome {ℓ} (A : Type ℓ) : Type ℓ where
  returned : A → Outcome A
  failed panicked : Outcome A

unfoldable pub after {ℓ κ} :
    {A : Type ℓ} {B : Type κ}
    → Outcome A × List ℕ
    → (A → List ℕ → Outcome B × List ℕ)
    → Outcome B × List ℕ
after (returned a, opened) next = next a opened
after (failed, opened) next = (failed, opened)
after (panicked, opened) next = (panicked, opened)

-- A server listens on the listener that it was given, or on one that `net.ListenTCP` returns. If that
-- fails, the log line reads the address of the listener, which is nil.
unfoldable pub listen : (given listened : Option ℕ) → List ℕ → Outcome ℕ × List ℕ
listen (some ln) listened opened = (returned ln, opened)
listen none (some ln) opened = (returned ln, ln ∷ opened)
listen none none opened = (panicked, opened)

-- What holds of the result and of the sockets if a call returns.
abbrev pub Returns {ℓ} : {A : Type ℓ} → (A → List ℕ → Type 0) → Outcome A × List ℕ → Type 0
Returns P (returned a, opened) = P a opened
Returns P (failed, opened) = Unit
Returns P (panicked, opened) = Unit

pub after-Returns {ℓ κ} :
    {A : Type ℓ} {B : Type κ} (P : A → List ℕ → Type 0) (Q : B → List ℕ → Type 0)
    (x : Outcome A × List ℕ) (next : A → List ℕ → Outcome B × List ℕ)
    → Returns P x
    → ((a : A) (opened : List ℕ) → P a opened → Returns Q (next a opened))
    → Returns Q (after x next)
unfolding after
after-Returns P Q (returned a, opened) next p q = q a opened p
after-Returns P Q (failed, opened) next p q = tt
after-Returns P Q (panicked, opened) next p q = tt
