-- ===== src/Tests/Data.antt =====
-- A small registry: node "n1" with its own entry, a member that it owns, and one of node "n2", which
-- has left.
use Prim.Native.String.{◌++◌ as ◌<>◌}
use fuddle.Rpc.{Liveness, up, down, left, other, MemberState, Version2, Member2}
use fuddle.StringMap.{lookup}
use fuddle.Metrics.{Runtime}
use fuddle.Registry.State.{Registry}
use fuddle.Registry.Keys.{IsKeyed}
use fuddle.Prelude.{ℕ, String, some, List, [], ◌∷◌, int64, ◌≢◌, refl, arith, ne_of_test}

abbrev pub join_all : List String → String → String
join_all [] sep = ""
join_all (s ∷ ss) sep = s <> (sep <> join_all ss sep)

abbrev pub liveness_name : Liveness → String
liveness_name up = "up"
liveness_name down = "down"
liveness_name left = "left"
liveness_name (other n) = "?"

abbrev pub plain_runtime : Runtime
plain_runtime = record {
  to_lower = λ s. s;
  sort_by_label = λ ls. ls;
  join = join_all;
  liveness_string = liveness_name;
}

abbrev pub state : String → MemberState
state id = record {
  id = id;
  status = "active";
  service = "clock";
  locality = record { region = "eu"; availability_zone = "eu-1" };
  started = int64 1;
  revision = "v1";
  metadata = ("k", "v") ∷ [];
}

abbrev pub version : String → (timestamp counter : ℕ) → Version2
version owner timestamp counter = record {
  owner_id = owner;
  timestamp = record { timestamp = int64 timestamp; counter = counter };
}

abbrev pub entry : String → Liveness → Version2 → ℕ → Member2
entry id l v expiry = record { state = state id; liveness = l; version = v; expiry = int64 expiry }

abbrev pub node : Member2
node = entry "n1" up (version "n1" 10 0) 0

abbrev pub worker : Member2
worker = entry "m1" up (version "n1" 100 0) 0

abbrev pub stray : Member2
stray = entry "m2" up (version "n2" 200 3) 0

abbrev pub with_worker : Member2 → Registry
with_worker m = record {
  local_id = "n1";
  members = ("n1", node) ∷ ("m1", m) ∷ ("m2", stray) ∷ [];
  last_seen = ("n1", int64 10) ∷ ("m1", int64 100) ∷ [];
  subs = [];
  last_version = some (version "n1" 100 0);
  left_nodes = ("n2", int64 300) ∷ [];
  priority_members = [];
  heartbeat_timeout = int64 20000;
  reconnect_timeout = int64 300000;
  tombstone_timeout = int64 1800000;
  metrics = record {
    members_count = record { values = [] };
    members_owned = record { values = [] };
  };
  next_handle = 0;
  calls = [];
}

abbrev pub registry : Registry
registry = with_worker worker

pub m1-ne-n1 : ◌≢◌ {A = String} "m1" "n1"
m1-ne-n1 = ne_of_test "m1" "n1" refl

pub registry-IsKeyed : IsKeyed registry
unfolding lookup
registry-IsKeyed id m e = ground arith

pub n2-ne-n1 : ◌≢◌ {A = String} "n2" "n1"
n2-ne-n1 = ne_of_test "n2" "n1" refl

pub m2-ne-n1 : ◌≢◌ {A = String} "m2" "n1"
m2-ne-n1 = ne_of_test "m2" "n1" refl

pub with_worker-IsKeyed :
    (l : Liveness) (v : Version2) (x : ℕ) → IsKeyed (with_worker (entry "m1" l v x))
unfolding lookup
with_worker-IsKeyed l v x id m e = ground arith
