-- ===== src/Registry/Keys.antt =====
-- Each member stands in the map under its own id.
use fuddle.Rpc.{Member2}
use fuddle.StringMap.{lookup, lookup-insert, lookup-erase}
use fuddle.Metrics.{Runtime}
use fuddle.Registry.State.{Registry, set_member_locked, delete_member_locked}
use fuddle.Registry.Runs.Kept.{IsStable, KeepsDeletes}
use fuddle.Prelude.{String, ◌≡◌, sym, ap, ◌∙◌, some, arith}

abbrev pub IsKeyed : Registry → Type 0
IsKeyed r = (id : String) (m : Member2) → lookup id r.members ≡ some m → m.state.id ≡ id

module _ (rt : Runtime) where
  set_member-IsKeyed : (r : Registry) (m : Member2) → IsKeyed r → IsKeyed (set_member_locked rt r m)
  unfolding set_member_locked
  set_member-IsKeyed r m h id n e = ground (arith, h id n, lookup-insert m.state.id id m r.members)

  delete_member-IsKeyed :
      (r : Registry) (id : String) → IsKeyed r → IsKeyed (delete_member_locked rt r id)
  unfolding delete_member_locked
  delete_member-IsKeyed r id h j n e = ground (arith, h j n, lookup-erase id j r.members)

  pub IsKeyed-stable : IsStable rt IsKeyed
  IsKeyed-stable = record {
    frame = λ r r' c h id m e. h id m (sym (ap (lookup id) c.members) ∙ e);
    stored = λ r m _ _ h. set_member-IsKeyed r m h;
    heard = λ r id now _ h. h;
  }

  pub IsKeyed-deletes : KeepsDeletes rt IsKeyed
  IsKeyed-deletes = record { deleted = λ r id _ h. delete_member-IsKeyed r id h }
