-- ===== src/Fcm/Forwarded.antt =====
-- What the proxy's connections write, of what they read.
use mathlib.Core.List.{append-nil}
use fuddle.Fcm.Proxy.{
  Phase, reading, ended, checking, writing, failed, Direction, Move, read, read_fails, check, write,
  write_fails, start_forward, after_read, after_write, forward_at, forward, ProxyConn, Side,
  downstream, upstream, new_proxy_conn, conn_step,
}
use fuddle.Prelude.{
  String, Bool, true, false, ◌≡◌, refl, sym, subst, ap, ◌∙◌, List, [], ◌∷◌, ◌++◌, if◌then◌else◌,
  arith,
}

-- The first list is the second one with some chunks left out.
pub data Thinned : List String → List String → Type 0 where
  done : Thinned [] []
  keep : {xs ys : List String} (x : String) → Thinned xs ys → Thinned (x ∷ xs) (x ∷ ys)
  skip : {xs ys : List String} (y : String) → Thinned xs ys → Thinned xs (y ∷ ys)

-- The chunk that the loop holds.
abbrev pub carried : Phase → List String
carried reading = []
carried ended = []
carried (checking chunk) = chunk ∷ []
carried (writing chunk) = chunk ∷ []
carried (failed chunk) = chunk ∷ []

abbrev pub IsFaithful : Bool → Direction → Type 0
IsFaithful blocked d =
    Thinned (d.written ++ carried d.phase) d.taken
    × (blocked ≡ false → d.written ++ carried d.phase ≡ d.taken)

keep_last :
    {xs ys : List String} (c : String) → Thinned xs ys → Thinned (xs ++ (c ∷ [])) (ys ++ (c ∷ []))
keep_last c done = keep c done
keep_last c (keep x t) = keep x (keep_last c t)
keep_last c (skip y t) = skip y (keep_last c t)

Thinned-trans : {xs ys zs : List String} → Thinned ys zs → Thinned xs ys → Thinned xs zs
Thinned-trans done t = t
Thinned-trans (keep y u) (keep _ t) = keep y (Thinned-trans u t)
Thinned-trans (keep y u) (skip _ t) = skip y (Thinned-trans u t)
Thinned-trans (skip z u) t = skip z (Thinned-trans u t)

without_last : (xs : List String) (c : String) → Thinned xs (xs ++ (c ∷ []))
without_last [] c = skip c done
without_last (x ∷ xs) c = keep x (without_last xs c)

-- A step that leaves what was written and what is held, and what was read, as they are.
IsFaithful-same :
    (blocked : Bool) (d e : Direction)
    → IsFaithful blocked d
    → e.written ++ carried e.phase ≡ d.written ++ carried d.phase
    → e.taken ≡ d.taken
    → IsFaithful blocked e
IsFaithful-same blocked d e f w t = (
  subst (λ l. Thinned l e.taken) (sym w)
      (subst (Thinned (d.written ++ carried d.phase)) (sym t) f.0),
  λ b. w ∙ f.1 b ∙ sym t,
)

-- The chunk that is held is let go; then the flag is set.
IsFaithful-less :
    (d e : Direction) (chunk : String)
    → IsFaithful true d
    → d.written ++ carried d.phase ≡ e.written ++ (chunk ∷ [])
    → e.written ++ carried e.phase ≡ e.written
    → e.taken ≡ d.taken
    → IsFaithful true e
IsFaithful-less d e chunk f w n t = (
  subst (λ l. Thinned l e.taken) (sym n)
      (subst (Thinned e.written) (sym t)
        (Thinned-trans (subst (λ l. Thinned l d.taken) w f.0) (without_last e.written chunk))),
  λ b. absurd (ground (arith, b)),
)

module _ (blocked closed : Bool) (d : Direction) where
  forward_at-IsFaithful :
      (phase : Phase) (move : Move)
      → d.phase ≡ phase
      → IsFaithful blocked d
      → IsFaithful blocked (forward_at phase blocked closed move d)
  unfolding forward_at after_read after_write
  forward_at-IsFaithful reading (read chunk) e f = opened closed
    where
      before : d.written ++ carried d.phase ≡ d.written
      before = ap (λ p. d.written ++ carried p) e ∙ append-nil d.written

      opened : (closed : Bool) → IsFaithful blocked (after_read closed chunk d)
      opened true =
          IsFaithful-same blocked d (record d { phase = ended }) f
            (append-nil d.written ∙ sym before) refl
      opened false = (
        keep_last chunk (subst (λ l. Thinned l d.taken) before f.0),
        λ b. ap (λ l. l ++ (chunk ∷ [])) (sym before ∙ f.1 b),
      )
  forward_at-IsFaithful reading read_fails e f =
      IsFaithful-same blocked d (record d { phase = ended }) f
        (ap (λ p. d.written ++ carried p) (sym e)) refl
  forward_at-IsFaithful (checking chunk) check e f = tested blocked f
    where
      tested :
          (blocked : Bool)
          → IsFaithful blocked d
          → IsFaithful blocked (record d { phase = if blocked then reading else writing chunk })
      tested true f =
          IsFaithful-less d (record d { phase = reading }) chunk f
            (ap (λ p. d.written ++ carried p) e) (append-nil d.written) refl
      tested false f =
          IsFaithful-same false d (record d { phase = writing chunk }) f
            (ap (λ p. d.written ++ carried p) (sym e)) refl
  forward_at-IsFaithful (writing chunk) write e f = opened closed
    where
      opened : (closed : Bool) → IsFaithful blocked (after_write closed chunk d)
      opened true =
          IsFaithful-same blocked d (record d { phase = failed chunk }) f
            (ap (λ p. d.written ++ carried p) (sym e)) refl
      opened false =
          IsFaithful-same blocked d (after_write false chunk d) f
            (append-nil (d.written ++ (chunk ∷ [])) ∙ ap (λ p. d.written ++ carried p) (sym e)) refl
  forward_at-IsFaithful (writing chunk) write_fails e f =
      IsFaithful-same blocked d (record d { phase = failed chunk }) f
        (ap (λ p. d.written ++ carried p) (sym e)) refl
  forward_at-IsFaithful phase move e f = f

-- Both directions of a connection.
abbrev pub IsFaithfulConn : ProxyConn → Type 0
IsFaithfulConn c = IsFaithful c.blocked c.to_downstream × IsFaithful c.blocked c.to_upstream

pub IsFaithful-blocked : (b : Bool) (d : Direction) → IsFaithful b d → IsFaithful true d
IsFaithful-blocked b d f = (f.0, λ e. absurd (ground (arith, e)))

pub conn_step-IsFaithfulConn :
    (side : Side) (move : Move) (c : ProxyConn)
    → IsFaithfulConn c
    → IsFaithfulConn (conn_step side move c)
unfolding conn_step forward
conn_step-IsFaithfulConn downstream move c f = (
  forward_at-IsFaithful c.blocked c.closed c.to_downstream c.to_downstream.phase move refl f.0,
  f.1,
)
conn_step-IsFaithfulConn upstream move c f =
    (f.0, forward_at-IsFaithful c.blocked c.closed c.to_upstream c.to_upstream.phase move refl f.1)

pub new_proxy_conn-IsFaithfulConn : IsFaithfulConn new_proxy_conn
unfolding new_proxy_conn start_forward
new_proxy_conn-IsFaithfulConn = ((done, λ b. refl), (done, λ b. refl))
