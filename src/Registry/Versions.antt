-- ===== src/Registry/Versions.antt =====
-- How the versions of the entries move.
use fuddle.Rpc.{Member2}
use fuddle.StringMap.{lookup, lookup-insert}
use fuddle.Metrics.{Runtime}
use fuddle.Registry.Version.Order.{IsNewer, compare_versions-IsNewer, IsNewer-trans}
use fuddle.Registry.State.{Registry, set_member_locked, outdated}
use fuddle.Registry.Runs.{Op, IsSweep, run}
use fuddle.Registry.Runs.Kept.{IsStable}
use fuddle.Registry.Runs.Stable.{run-stable_no_sweep}
use fuddle.Prelude.{
  String, ◌≡◌, refl, sym, subst, ◌⊎◌, inl, inr, false, Option, none, some, List, All, ite_intro,
  string_dec,
}

-- The entry is still m, or has a newer version.
abbrev pub IsSince : Member2 → Option Member2 → Type 0
IsSince m none = ⊥
IsSince m (some m') = (m' ≡ m) ⊎ IsNewer m'.version m.version

IsSince-stored :
    (m new : Member2) (o : Option Member2)
    → outdated o new.version ≡ false
    → IsSince m o
    → IsSince m (some new)
unfolding outdated
IsSince-stored m new none e h = absurd h
IsSince-stored m new (some m') e (inl p) = inr (
    (compare_versions-IsNewer m.version new.version).0
      (subst (λ x. outdated (some x) new.version ≡ false) p e))
IsSince-stored m new (some m') e (inr k) = inr (
    IsNewer-trans m.version m'.version new.version k
      ((compare_versions-IsNewer m'.version new.version).0 e))

module _ (rt : Runtime) (id : String) (m : Member2) where
  IsSince-stable : IsStable rt (λ r. IsSince m (lookup id r.members))
  unfolding set_member_locked
  IsSince-stable = record {
    frame = λ r r' c h. subst (λ ms. IsSince m (lookup id ms)) (sym c.members) h;
    stored = λ r new n e h. subst (IsSince m) (sym (lookup-insert new.state.id id new r.members)) (
        ite_intro (IsSince m) (string_dec new.state.id id)
          (λ p.
            IsSince-stored m new (lookup new.state.id r.members) e
              (subst (λ k. IsSince m (lookup k r.members)) (sym p) h))
          (λ _. h));
    heard = λ r _ now _ h. h;
  }

-- As long as the failure detector is not called, a member stays in the map, and its entry is the
-- same one or has a version that is newer: by its time, or by its counter within one owner and
-- millisecond.
pub run-IsSince :
    (rt : Runtime) (r : Registry) (ops : List Op) (id : String) (m : Member2)
    → All (λ op. ¬ IsSweep op) ops
    → lookup id r.members ≡ some m
    → IsSince m (lookup id (run rt r ops).members)
run-IsSince rt r ops id m calm e =
    run-stable_no_sweep (IsSince-stable rt id m) r ops calm (subst (IsSince m) (sym e) (inl refl))
