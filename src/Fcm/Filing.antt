-- ===== src/Fcm/Filing.antt =====
-- The steps by which the clusters of the server of pkg/fcm stay filed under their ids.
use fuddle.Fcm.World.{World, Cluster}
use fuddle.Fcm.Cluster.{Net, fuddle_ids, member_ids, empty_cluster, shutdown}
use fuddle.Fcm.Manager.{Manager, get, add, delete}
use fuddle.Fcm.Api.{Response, done}
use fuddle.Fcm.Server.{Server, world_of, after, after_at, remove_cluster}
use fuddle.Fcm.Occurrences.{
  occurrences, occurrences-shutdown, node_ids, all_ids, all_ids-erase, all_ids-found,
  all_ids-insert,
}
use fuddle.Fcm.Accounts.{IsBalanced}
use fuddle.Fcm.Removing.{IsCovered}
use fuddle.StringMap.{StringMap, lookup, erase, insert, lookup-erase, lookup-insert}
use fuddle.StringMap.Count.{IsDistinct, erase-IsDistinct, insert-IsDistinct}
use fuddle.Prelude.{
  ◌≤◌, String, ◌≡◌, refl, ◌∙◌, Option, none, some, arith, Bool, true, false, if◌then◌else◌,
}

-- Every cluster of the map is there under its own id.
abbrev pub IsFiledAt : StringMap Cluster → Type 0
IsFiledAt m = (id : String) (c : Cluster) → lookup id m ≡ some c → c.id ≡ id

-- One cluster for each id, under its own; an id occurs among the nodes of the clusters at most as
-- often as a node of that id runs.
abbrev pub IsFiled : Server → Type 0
IsFiled s =
    IsDistinct s.clusters.clusters
    × IsFiledAt s.clusters.clusters
    × ((x : String)
        → occurrences x (all_ids s.clusters.clusters) ≤ occurrences x s.clusters.running)

insert-IsFiledAt :
    (id : String) (c : Cluster) (m : StringMap Cluster)
    → c.id ≡ id
    → IsFiledAt m
    → IsFiledAt (insert id c m)
insert-IsFiledAt id c m e f j d h = ground (arith, e, h, lookup-insert id j c m, f j d)

-- The clusters stay filed when the methods of one of them have changed the machine.
pub after_at-IsFiled :
    (s : Server) (id : String) (c : Cluster) (w : World)
    → get id s.clusters ≡ some c
    → IsFiled s
    → IsCovered (world_of s c) w
    → IsFiled (after_at id w s)
unfolding after_at after get world_of
after_at-IsFiled s id c w e f k = (
  insert-IsDistinct id w.cluster s.clusters.clusters f.0,
  insert-IsFiledAt id w.cluster s.clusters.clusters (k.1 ∙ f.1 id c e) f.1,
  λ x.
      let a = f.2 x in
      let b = all_ids-found x id s.clusters.clusters c e in
      let d = all_ids-insert x id w.cluster s.clusters.clusters in
      let g = k.0 x in omega (arith, a, b, d, g),
)

pub after-IsFiled :
    (s : Server) (c : Cluster) (w : World)
    → IsFiled s
    → ((x : String) → occurrences x (node_ids c) ≡ 0)
    → IsBalanced (world_of s c) w
    → IsFiled (after w s)
unfolding after world_of
after-IsFiled s c w f z b =
    (f.0, f.1, λ x. let a = f.2 x in let d = b.0 x in let e = z x in omega (arith, a, d, e))

erase-IsFiledAt : (id : String) (m : StringMap Cluster) → IsFiledAt m → IsFiledAt (erase id m)
erase-IsFiledAt id m f j d h = ground (arith, h, lookup-erase id j m, f j d)

pub remove_cluster-IsFiled :
    (net : Net) (id : String) (s : Server) → IsFiled s → IsFiled (remove_cluster net id s).0
unfolding remove_cluster delete
remove_cluster-IsFiled net id s f = found (lookup id s.clusters.clusters) refl
  where
    found :
        (o : Option Cluster)
        → lookup id s.clusters.clusters ≡ o
        → let r : Manager × Bool = elim o [
          | none ↦ (s.clusters, false)
          | some c ↦ (
            record s.clusters {
              clusters = erase id s.clusters.clusters;
              running = shutdown c s.clusters.running;
            },
            true,
          )
        ] in
          let t : Server × Response =
            if r.1 then (record s { clusters = r.0 }, done) else (s, done) in
          IsFiled t.0
    found none e = f
    found (some c) e = (
      erase-IsDistinct id s.clusters.clusters f.0,
      erase-IsFiledAt id s.clusters.clusters f.1,
      λ x.
          let a = f.2 x in
          let b = all_ids-found x id s.clusters.clusters c e in
          let d = occurrences-shutdown x c s.clusters.running in omega (arith, a, b, d),
    )

pub add-IsFiled :
    (s : Server) (id log_dir : String) (w : World)
    → IsFiled s
    → IsBalanced (world_of s (empty_cluster id log_dir)) w
    → let t : Server = after w s in IsFiled (record t { clusters = add w.cluster t.clusters })
unfolding after world_of add empty_cluster node_ids fuddle_ids member_ids occurrences
add-IsFiled s id log_dir w f b = (
  insert-IsDistinct w.cluster.id w.cluster s.clusters.clusters f.0,
  insert-IsFiledAt w.cluster.id w.cluster s.clusters.clusters refl f.1,
  λ x.
      let a = f.2 x in
      let d = b.0 x in
      let e = all_ids-erase x w.cluster.id s.clusters.clusters in
      let g = all_ids-insert x w.cluster.id w.cluster s.clusters.clusters in
      omega (arith, a, d, e, g),
)
