-- ===== src/Client/Pending/Window.antt =====
-- The queue of pending updates holds the latest updates, one more than its limit.
use fuddle.Rpc.{Member2}
use fuddle.Client.Pending.{PendingUpdates, new_pending_updates, push, take, close, rest, closed}
use fuddle.Prelude.{
  ℕ, zero, suc, ◌+◌, ◌-◌, ◌≤◌, ◌≡◌, refl, sym, ap, ◌∙◌, true, false, List, [], ◌∷◌, ◌++◌, length,
  length-append, ltb, if◌then◌else◌, arith, lt→ltb,
}
use native.Mathlib.Decide.{dec_le}
use mathlib.Core.List.{append_assoc, append-nil}

unfoldable pub push_all : PendingUpdates → List Member2 → PendingUpdates
push_all p [] = p
push_all p (u ∷ us) = push_all (push p u) us

-- The last n of a list, which is what a queue that drops its oldest keeps.
unfoldable pub drop : ℕ → List Member2 → List Member2
drop zero us = us
drop (suc n) [] = []
drop (suc n) (u ∷ us) = drop n us

unfoldable pub last : ℕ → List Member2 → List Member2
last n us = drop (length us - n) us

drop_nil : (n : ℕ) → drop n [] ≡ []
unfolding drop
drop_nil zero = refl
drop_nil (suc n) = refl

drop_none :
    (limit : ℕ) (us : List Member2) (u : Member2)
    → length us ≤ limit
    → (if ltb limit (length (drop 0 us)) then rest (drop 0 us) else drop 0 us) ++ u ∷ []
      ≡ drop 0 (us ++ u ∷ [])
unfolding drop
drop_none limit us u short = ground arith

drop-append :
    (n : ℕ) (us : List Member2) (u : Member2)
    → n ≤ length us
    → drop n (us ++ u ∷ []) ≡ drop n us ++ u ∷ []
unfolding drop
drop-append zero us u h = refl
drop-append (suc n) [] u h = absurd (omega arith)
drop-append (suc n) (v ∷ us) u h = drop-append n us u (omega arith)

rest-drop : (n : ℕ) (us : List Member2) → rest (drop n us) ≡ drop (suc n) us
unfolding drop rest
rest-drop zero [] = refl
rest-drop zero (u ∷ us) = refl
rest-drop (suc n) [] = refl
rest-drop (suc n) (u ∷ us) = rest-drop n us

length-drop : (n : ℕ) (us : List Member2) → n ≤ length us → length (drop n us) + n ≡ length us
unfolding drop
length-drop zero us h = omega arith
length-drop (suc n) [] h = absurd (omega arith)
length-drop (suc n) (u ∷ us) h = omega (arith, length-drop n us (omega arith))

-- The queue is open, has this limit, and holds the last limit + 1 of the updates pushed so far.
pub record IsWindow (limit : ℕ) (us : List Member2) (p : PendingUpdates) : Type 0 where
  pub limited : p.limit ≡ limit
  pub open_still : p.closed ≡ false
  pub window : p.pending ≡ last (suc limit) us

kept-window :
    (limit : ℕ) (us : List Member2) (u : Member2)
    → let ps = last (suc limit) us in
      (if ltb limit (length ps) then rest ps else ps) ++ u ∷ [] ≡ last (suc limit) (us ++ u ∷ [])
unfolding last
kept-window limit us u = elim (dec_le (length us) limit) [
  | yes short ↦
      let none_dropped : length us - suc limit ≡ 0 = omega arith in
      let none_later : length (us ++ u ∷ []) - suc limit ≡ 0 =
        omega (arith, length-append us (u ∷ [])) in
      rw (none_dropped, none_later) (drop_none limit us u short)
  | no long ↦
      let later : length (us ++ u ∷ []) - suc limit ≡ suc (length us - suc limit) =
        omega (arith, length-append us (u ∷ [])) in
      let full : ltb limit (length (drop (length us - suc limit) us)) ≡ true =
        lt→ltb _ _ (omega (arith, length-drop (length us - suc limit) us (omega arith))) in
      rw (full, later)
        (ap (λ xs. xs ++ u ∷ []) (rest-drop (length us - suc limit) us)
          ∙ sym (drop-append (suc (length us - suc limit)) us u (omega arith)))
]

push-IsWindow :
    (limit : ℕ) (us : List Member2) (p : PendingUpdates) (u : Member2)
    → IsWindow limit us p
    → IsWindow limit (us ++ u ∷ []) (push p u)
unfolding push
push-IsWindow limit us p u w = record {
  limited = ground (arith, w.limited, w.open_still);
  open_still = ground (arith, w.open_still);
  window = rw w.open_still (rw (w.limited, w.window) (kept-window limit us u));
}

push_all-IsWindow :
    (limit : ℕ) (us vs : List Member2) (p : PendingUpdates)
    → IsWindow limit us p
    → IsWindow limit (us ++ vs) (push_all p vs)
unfolding push_all
push_all-IsWindow limit us [] p w = rw (append-nil us) w
push_all-IsWindow limit us (v ∷ vs) p w =
    rw (← append_assoc us (v ∷ []) vs)
      (push_all-IsWindow limit (us ++ v ∷ []) vs (push p v) (push-IsWindow limit us p v w))

-- After any pushes a new queue is open and holds the last limit + 1 of the updates, the oldest first:
-- one more than the limit.
pub push_all-new_pending_updates :
    (limit : ℕ) (us : List Member2) → IsWindow limit us (push_all (new_pending_updates limit) us)
unfolding new_pending_updates last drop
push_all-new_pending_updates limit us =
    push_all-IsWindow limit [] us (new_pending_updates limit)
      (record { limited = refl; open_still = refl; window = sym (drop_nil (0 - suc limit)) })

push-closed : (p : PendingUpdates) (u : Member2) → p.closed ≡ true → (push p u).closed ≡ true
unfolding push
push-closed p u e = ground arith

length-rest-le : (us : List Member2) → length (rest us) ≤ length us
unfolding rest
length-rest-le [] = omega arith
length-rest-le (u ∷ us) = omega arith

length-push_closed :
    (p : PendingUpdates) (u : Member2)
    → p.closed ≡ true
    → length (push p u).pending ≤ length p.pending
unfolding push
length-push_closed p u e = ground (arith, length-rest-le p.pending)

closed_stays :
    (p : PendingUpdates) (us : List Member2)
    → p.closed ≡ true
    → (take (push_all p us) ≡ closed) × (length (push_all p us).pending ≤ length p.pending)
unfolding push_all take
closed_stays p [] e = (ground arith, omega arith)
closed_stays p (u ∷ us) e =
    let (t, l) = closed_stays (push p u) us (push-closed p u e) in
    (t, omega (arith, length-push_closed p u e))

-- A closed queue hands out nothing and takes nothing in, also after further pushes.
pub close-take :
    (p : PendingUpdates) (us : List Member2)
    → (take (push_all (close p) us) ≡ closed)
      × (length (push_all (close p) us).pending ≤ length p.pending)
unfolding close
close-take p us = closed_stays (close p) us refl
