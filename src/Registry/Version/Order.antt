-- ===== src/Registry/Version/Order.antt =====
-- compareVersions as an order: what it means for one version to be newer than another.
use fuddle.Rpc.{Version2}
use fuddle.Registry.Version.{compare_versions}
use fuddle.Prelude.{◌<◌, ◌≡◌, ◌⊎◌, ◌↔◌, pos, leb_ℤ, false, arith}

-- `v` is newer than `u`: made later, or by the same owner in the same millisecond with a greater
-- counter.
abbrev pub IsNewer : Version2 → Version2 → Type 0
IsNewer v u =
    (u.timestamp.timestamp < v.timestamp.timestamp)
    ⊎ ((u.owner_id ≡ v.owner_id)
        × (u.timestamp.timestamp ≡ v.timestamp.timestamp)
        × (u.timestamp.counter < v.timestamp.counter))

-- An update at version v replaces an entry at version u exactly if v is newer than u.
pub compare_versions-IsNewer :
    (u v : Version2) → (leb_ℤ (compare_versions u v) (pos 0) ≡ false) ↔ IsNewer v u
unfolding compare_versions
compare_versions-IsNewer u v = (forward, backward)
  where
    forward : leb_ℤ (compare_versions u v) (pos 0) ≡ false → IsNewer v u
    forward h = ground arith

    backward : IsNewer v u → leb_ℤ (compare_versions u v) (pos 0) ≡ false
    backward h = ground arith

pub IsNewer-irrefl : (v : Version2) → ¬ IsNewer v v
IsNewer-irrefl v h = ground arith

pub IsNewer-trans : (u v w : Version2) → IsNewer v u → IsNewer w v → IsNewer w u
IsNewer-trans u v w h k = ground arith
