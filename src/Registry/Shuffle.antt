-- ===== src/Registry/Shuffle.antt =====
-- shuffleStrings of pkg/registry/registry/replicarepair.go. `rand.Perm` is a parameter: its result is
-- a permutation of the indices.
use mathlib.Core.List.{
  Mem, Mem-prop, foldr, Perm, Nodup, Nodup-cons, Nodup-nil, not-mem-nil, mem-cons, mem-cons_self,
  mem-cons_of_mem, mem-map, map,
}
use mathlib.Core.List.Perm
use mathlib.Core.Path.{ap₂}
use mathlib.Core.Logic.Or
use native.Mathlib.Bridge.{le_prop}
use native.Mathlib.Nat.{ℕ_set}
use mathlib.Core.Logic.{∥∥₁_elim}
use fuddle.Prelude.{
  ℕ, zero, suc, ◌<◌, String, ◌≡◌, ◌≢◌, refl, sym, subst, ap, ◌∙◌, List, [], ◌∷◌, length, length-map,
  arith,
}

-- `res[v] = s`; a write out of range would panic, and there is none.
unfoldable pub set : List String → ℕ → String → List String
set [] v s = []
set (x ∷ xs) zero s = s ∷ xs
set (x ∷ xs) (suc v) s = x ∷ set xs v s

-- `make([]string, n)`
unfoldable pub make_strings : ℕ → List String
make_strings zero = []
make_strings (suc n) = "" ∷ make_strings n

-- The loop over `perm`.
unfoldable pub shuffle_from : List ℕ → List String → List String → List String
unfolding set
shuffle_from [] src res = res
shuffle_from (v ∷ perm) [] res = res
shuffle_from (v ∷ perm) (s ∷ src) res = shuffle_from perm src (set res v s)

unfoldable pub shuffle_strings : List String → (perm : List ℕ) → List String
unfolding make_strings shuffle_from
shuffle_strings src perm = shuffle_from perm src (make_strings (length src))

-- 0, 1, ..., n - 1
unfoldable pub indices : ℕ → List ℕ
indices zero = []
indices (suc n) = 0 ∷ map suc (indices n)

at : List String → ℕ → String
at [] v = ""
at (x ∷ xs) zero = x
at (x ∷ xs) (suc v) = at xs v

length-set : (xs : List String) (v : ℕ) (s : String) → length (set xs v s) ≡ length xs
unfolding set
length-set [] v s = refl
length-set (x ∷ xs) zero s = refl
length-set (x ∷ xs) (suc v) s = ap suc (length-set xs v s)

at-set_self : (xs : List String) (v : ℕ) (s : String) → v < length xs → at (set xs v s) v ≡ s
unfolding set at
at-set_self [] v s h = absurd (omega arith)
at-set_self (x ∷ xs) zero s h = refl
at-set_self (x ∷ xs) (suc v) s h = at-set_self xs v s (omega arith)

at-set_ne : (xs : List String) (v w : ℕ) (s : String) → w ≢ v → at (set xs v s) w ≡ at xs w
unfolding set at
at-set_ne [] v w s n = refl
at-set_ne (x ∷ xs) zero zero s n = absurd (n refl)
at-set_ne (x ∷ xs) zero (suc w) s n = refl
at-set_ne (x ∷ xs) (suc v) zero s n = refl
at-set_ne (x ∷ xs) (suc v) (suc w) s n = at-set_ne xs v w s (λ e. n (ap suc e))

-- The loop leaves the places that it does not write.
at-shuffle_from :
    (perm : List ℕ) (src res : List String) (v : ℕ)
    → ¬ Mem v perm
    → at (shuffle_from perm src res) v ≡ at res v
unfolding shuffle_from
at-shuffle_from [] src res v n = refl
at-shuffle_from (w ∷ perm) [] res v n = refl
at-shuffle_from (w ∷ perm) (s ∷ src) res v n =
    at-shuffle_from perm src (set res w s) v (λ m. n (mem-cons_of_mem w m))
    ∙ at-set_ne res w v s (λ e. n (subst (λ x. Mem v (x ∷ perm)) e mem-cons_self))

length-shuffle_from :
    (perm : List ℕ) (src res : List String) → length (shuffle_from perm src res) ≡ length res
unfolding shuffle_from
length-shuffle_from [] src res = refl
length-shuffle_from (w ∷ perm) [] res = refl
length-shuffle_from (w ∷ perm) (s ∷ src) res =
    length-shuffle_from perm src (set res w s) ∙ length-set res w s

-- Read at the places of `perm`, the result is the source.
map-shuffle_from :
    (perm : List ℕ) (src res : List String)
    → length perm ≡ length src
    → Nodup perm
    → ((v : ℕ) → Mem v perm → v < length res)
    → map (at (shuffle_from perm src res)) perm ≡ src
unfolding shuffle_from
map-shuffle_from [] [] res l d b = refl
map-shuffle_from [] (s ∷ src) res l d b = absurd (omega (arith, l))
map-shuffle_from (v ∷ perm) [] res l d b = absurd (omega (arith, l))
map-shuffle_from (v ∷ perm) (s ∷ src) res l d b =
    let k : (¬ Mem v perm) × Nodup perm = Nodup-cons.0 d in
    let rest =
      map-shuffle_from perm src (set res v s) (omega (arith, l)) k.1
        (λ w m. subst (λ n. w < n) (sym (length-set res v s)) (b w (mem-cons_of_mem v m))) in
    let first =
      at-shuffle_from perm src (set res v s) v k.0 ∙ at-set_self res v s (b v mem-cons_self) in
    ap₂ ◌∷◌ first rest

map-indices : (xs : List String) → map (at xs) (indices (length xs)) ≡ xs
unfolding indices at
map-indices [] = refl
map-indices (x ∷ xs) = ap (λ l. x ∷ l) (shifted x xs (indices (length xs)) ∙ map-indices xs)
  where
    shifted :
        (x : String) (xs : List String) (is : List ℕ)
        → map (at (x ∷ xs)) (map suc is) ≡ map (at xs) is
    shifted x xs [] = refl
    shifted x xs (i ∷ is) = ap (λ l. at xs i ∷ l) (shifted x xs is)

mem_of_map_suc : (a : ℕ) (l : List ℕ) → Mem (suc a) (map suc l) → Mem a l
mem_of_map_suc a l m =
    ∥∥₁_elim (mem-map.0 m) Mem-prop (λ t. subst (λ x. Mem x l) (pred_eq t.0 a t.2) t.1)
  where
    pred_eq : (x y : ℕ) → suc x ≡ suc y → x ≡ y
    pred_eq x y e = omega (arith, e)

zero_not_mem : (l : List ℕ) → ¬ Mem 0 (map suc l)
zero_not_mem l m = ∥∥₁_elim (mem-map.0 m) (hlevel) (λ t. omega (arith, t.2))

Nodup-map-suc : (l : List ℕ) → Nodup l → Nodup (map suc l)
Nodup-map-suc [] d = Nodup-nil
Nodup-map-suc (a ∷ l) d =
    let k : (¬ Mem a l) × Nodup l = Nodup-cons.0 d in
    Nodup-cons.1 ((λ m. k.0 (mem_of_map_suc a l m)), Nodup-map-suc l k.1)

indices-Nodup : (n : ℕ) → Nodup (indices n)
unfolding indices
indices-Nodup zero = Nodup-nil
indices-Nodup (suc n) =
    Nodup-cons.1 (zero_not_mem (indices n), Nodup-map-suc (indices n) (indices-Nodup n))

mem_indices-lt : (n v : ℕ) → Mem v (indices n) → v < n
unfolding indices
mem_indices-lt zero v m = absurd (not-mem-nil m)
mem_indices-lt (suc n) zero m = omega arith
mem_indices-lt (suc n) (suc v) m =
    Or.elim le_prop (mem-cons.0 m) (λ e. absurd (omega (arith, e)))
      (λ m'. let h : v < n = mem_indices-lt n v (mem_of_map_suc v (indices n) m') in omega arith)

length_fold : (l : List ℕ) → foldr (λ (x n : ℕ). suc n) 0 l ≡ length l
length_fold [] = refl
length_fold (x ∷ l) = ap suc (length_fold l)

length-perm : (l k : List ℕ) → Perm l k → length l ≡ length k
length-perm l k p =
    sym (length_fold l)
    ∙ Perm.foldr-eq ℕ_set (λ (x n : ℕ). suc n) (λ a b x. refl) p 0
    ∙ length_fold k

length-indices : (n : ℕ) → length (indices n) ≡ n
unfolding indices
length-indices zero = refl
length-indices (suc n) = ap suc (length-map suc (indices n) ∙ length-indices n)

length-make_strings : (n : ℕ) → length (make_strings n) ≡ n
unfolding make_strings
length-make_strings zero = refl
length-make_strings (suc n) = ap suc (length-make_strings n)

-- With a permutation of the indices, the shuffled list is a permutation of the source.
pub shuffle_strings-perm :
    (src : List String) (perm : List ℕ)
    → Perm perm (indices (length src))
    → Perm (shuffle_strings src perm) src
unfolding shuffle_strings
shuffle_strings-perm src perm p =
    let n = length src in
    let res = make_strings n in
    let long : length (shuffle_strings src perm) ≡ n =
      length-shuffle_from perm src res ∙ length-make_strings n in
    let read : map (at (shuffle_strings src perm)) perm ≡ src =
      map-shuffle_from perm src res (length-perm perm (indices n) p ∙ length-indices n)
        (Perm.nodup (Perm.symm p) (indices-Nodup n))
        (λ v m.
          subst (λ k. v < k) (sym (length-make_strings n))
            (mem_indices-lt n v ((Perm.mem_iff p).0 m))) in
    subst (Perm (shuffle_strings src perm)) read (
      subst (λ l. Perm l (map (at (shuffle_strings src perm)) perm))
        (ap (λ k. map (at (shuffle_strings src perm)) (indices k)) (sym long)
          ∙ map-indices (shuffle_strings src perm))
        (Perm.map (at (shuffle_strings src perm)) (Perm.symm p)))
