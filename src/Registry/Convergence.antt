-- ===== src/Registry/Convergence.antt =====
-- Updates from other nodes that arrive in any order, and more than once.
use fuddle.Rpc.{Member2}
use fuddle.StringMap.{lookup}
use fuddle.Metrics.{Runtime}
use fuddle.Registry.Version.Order.{IsNewer, compare_versions-IsNewer}
use fuddle.Registry.State.{Registry, outdated}
use fuddle.Registry.Members.{remote_update}
use fuddle.Registry.Replication.{concerns, replicated, remote_update-lookup, remote_update-local}
use fuddle.Client.{apply_updates}
use fuddle.Prelude.{
  String, ◌≡◌, ◌≢◌, ◌⊎◌, inl, inr, refl, sym, subst, ap, ◌∙◌, true, false, not, ◌&&◌, Option, some,
  List, [], ◌∷◌, ◌++◌, All, arith, if_intro,
}

-- The update is of another member, or it is `m`, or it is older.
abbrev pub YieldsTo : Member2 → Member2 → Type 0
YieldsTo m u = (u.state.id ≢ m.state.id) ⊎ ((u ≡ m) ⊎ IsNewer m.version u.version)

-- The entry is `m` already, or it is older.
abbrev pub Awaits : Member2 → Option Member2 → Type 0
Awaits m o = (o ≡ some m) ⊎ (outdated o m.version ≡ false)

module _ (local : String) (m : Member2) where
  misses : (u : Member2) → u.state.id ≢ m.state.id → concerns local m.state.id u ≡ false
  misses u n = ground (arith, n)

  replicated-Awaits :
      (u : Member2) (o : Option Member2)
      → YieldsTo m u
      → Awaits m o
      → Awaits m (replicated local m.state.id u o)
  unfolding outdated
  replicated-Awaits u o (inl n) w = rw (misses u n) w
  replicated-Awaits u o (inr (inl e)) w =
      if_intro (Awaits m) (concerns local m.state.id u && not (outdated o u.version))
        (λ _. inl (ap some e)) (λ _. w)
  replicated-Awaits u o (inr (inr h)) w =
      if_intro (Awaits m) (concerns local m.state.id u && not (outdated o u.version))
        (λ _. inr ((compare_versions-IsNewer u.version m.version).1 h)) (λ _. w)

  -- An older update does not replace it.
  stays : (u : Member2) → IsNewer m.version u.version → outdated (some m) u.version ≡ true
  unfolding outdated
  stays u h = ground (arith, compare_versions-IsNewer m.version u.version, h)

  replicated-stays : (u : Member2) → YieldsTo m u → replicated local m.state.id u (some m) ≡ some m
  replicated-stays u (inl n) = rw (misses u n) refl
  replicated-stays u (inr (inl e)) =
      if_intro (λ o. o ≡ some m) (concerns local m.state.id u && not (outdated (some m) u.version))
        (λ _. ap some e) (λ _. refl)
  replicated-stays u (inr (inr h)) = ground (arith, stays u h)

  replicated-comes :
      (o : Option Member2)
      → concerns local m.state.id m ≡ true
      → Awaits m o
      → replicated local m.state.id m o ≡ some m
  replicated-comes o c (inl e) =
      if_intro (λ o. o ≡ some m) (concerns local m.state.id m && not (outdated o m.version))
        (λ _. refl) (λ _. e)
  replicated-comes o c (inr e) = rw (c, e) refl

module _ (rt : Runtime) (m : Member2) where
  after_it :
      (vs : List Member2) (r : Registry)
      → All (YieldsTo m) vs
      → lookup m.state.id r.members ≡ some m
      → lookup m.state.id (apply_updates rt r vs).members ≡ some m
  unfolding apply_updates
  after_it [] r b e = e
  after_it (u ∷ vs) r b e = after_it vs (remote_update rt r u) b.1 (
      remote_update-lookup rt r u m.state.id
      ∙ ap (replicated r.local_id m.state.id u) e
      ∙ replicated-stays r.local_id m u b.0)

  -- The newest update of a member wins: a node that receives updates of other nodes, among them `m`,
  -- of which all others are of other members, are `m` again, or are older than `m`, ends with the entry
  -- `m`, in whatever order they come, if it accepts `m` at all: it is not the node's own entry and not
  -- owned by the node, and the entry that was there before is `m` itself or older.
  pub newest_update-wins :
      (us vs : List Member2) (r : Registry)
      → concerns r.local_id m.state.id m ≡ true
      → All (YieldsTo m) us
      → All (YieldsTo m) vs
      → Awaits m (lookup m.state.id r.members)
      → lookup m.state.id (apply_updates rt r (us ++ m ∷ vs)).members ≡ some m
  unfolding apply_updates
  newest_update-wins [] vs r c a b w =
      after_it vs (remote_update rt r m) b
        (remote_update-lookup rt r m m.state.id ∙ replicated-comes r.local_id m _ c w)
  newest_update-wins (u ∷ us) vs r c a b w =
      newest_update-wins us vs (remote_update rt r u)
        (ap (λ l. concerns l m.state.id m) (remote_update-local rt r u) ∙ c) a.1 b
        (subst (Awaits m) (sym (remote_update-lookup rt r u m.state.id))
          (replicated-Awaits r.local_id m u _ a.0 w))
