-- ===== src/Fcm/World.antt =====
-- The data of pkg/fcm/cluster/cluster.go, and what the methods of a cluster change: the cluster
-- itself, the listeners that are open and the nodes that run. A step may fail, and what it did before
-- stays done.
use fuddle.Prelude.{
  String, Bool, false, ◌&&◌, Option, none, some, List, [], ◌∷◌, ℤ, leb_ℤ, ℕ, zero, suc, string_dec,
  is_yes, if◌then◌else◌,
}

pub data Resource : Type 0 where
  tcp proxy : (addr : String) → Resource
  udp : (port : ℤ) → Resource

-- With the ports of its configuration that the cluster sets or reads.
pub record FuddleNode : Type 0 where
  pub node_id : String
  pub gossip_port : ℤ
  pub rpc_bind_port : ℤ
  pub rpc_adv_port : ℤ
  pub admin_port : ℤ
  pub seeds : List String

-- With the addresses of the nodes that it connects to.
pub record MemberNode : Type 0 where
  pub id : String
  pub fuddle_addrs : List String

-- The sets of nodes, in the order in which a loop over the map visits them.
pub record Cluster : Type 0 where
  pub id : String
  pub fuddle_nodes : List FuddleNode
  pub member_nodes : List MemberNode
  pub log_dir : String

-- `resources`: listeners that no node has, the latest first. `running`: the ids of the Fuddle nodes
-- and members that were started and not shut down, the latest first. `cluster`: the receiver.
pub record World : Type 0 where
  pub resources : List Resource
  pub running : List String
  pub cluster : Cluster

abbrev pub Step {ℓ} : Type ℓ → Type ℓ
Step A = World → World × Option A

infixl 5 ◌>>=◌ ◌>>◌
abbrev pub ◌>>=◌ {ℓ κ} : {A : Type ℓ} {B : Type κ} → Step A → (A → Step B) → Step B
◌>>=◌ m f w = let (w', o) = m w in elim o [ none ↦ (w', none) | some a ↦ f a w' ]

abbrev pub ◌>>◌ {ℓ} : {B : Type ℓ} → Step (Unit {0}) → Step B → Step B
m >> k = m >>= λ _. k

abbrev pub return {ℓ} : {A : Type ℓ} → A → Step A
return a w = (w, some a)

-- A call whose result is an argument of the model.
abbrev pub attempt {ℓ} : {A : Type ℓ} → Option A → Step A
attempt o w = (w, o)

-- A listener that is asked for, and opened if there is a result.
abbrev pub opening {ℓ} : {A : Type ℓ} → (A → Resource) → Option A → Step A
opening resource none w = (w, none)
opening resource (some a) w = (record w { resources = resource a ∷ w.resources }, some a)

abbrev pub same : Resource → Resource → Bool
same (tcp a) (tcp b) = is_yes (string_dec a b)
same (tcp a) (proxy b) = false
same (tcp a) (udp b) = false
same (proxy a) (tcp b) = false
same (proxy a) (proxy b) = is_yes (string_dec a b)
same (proxy a) (udp b) = false
same (udp a) (tcp b) = false
same (udp a) (proxy b) = false
same (udp a) (udp b) = leb_ℤ a b && leb_ℤ b a

-- Without one listener: the latest one like `resource`.
unfoldable pub without : Resource → List Resource → List Resource
without resource [] = []
without resource (r ∷ rs) =
    let rest = without resource rs in if same resource r then rs else r ∷ rest

-- The node takes over the listeners that it is given, and no other.
unfoldable pub take_over : List Resource → List Resource → List Resource
unfolding without
take_over [] open_ones = open_ones
take_over (r ∷ rs) open_ones = take_over rs (without r open_ones)

-- NewNode with these listeners as its options, and the proxy of the node that is made of it.
unfoldable pub start_fuddle : (given : List Resource) → FuddleNode → Step (Unit {0})
unfolding take_over
start_fuddle given node w = (
  record w {
    resources = take_over given w.resources;
    running = node.node_id ∷ w.running;
    cluster = record w.cluster { fuddle_nodes = node ∷ w.cluster.fuddle_nodes };
  },
  some tt,
)

abbrev pub start_member : MemberNode → Step (Unit {0})
start_member node w = (
  record w {
    running = node.id ∷ w.running;
    cluster = record w.cluster { member_nodes = node ∷ w.cluster.member_nodes };
  },
  some tt,
)

abbrev pub current : Step World
current w = (w, some w)

-- `n` more rounds of a loop, from the counter `i`, with the results of its body.
unfoldable pub repeat {ℓ} : {A : Type ℓ} → (ℕ → Step A) → (i n : ℕ) → Step (List A)
repeat body i zero = return []
repeat body i (suc n) = body i >>= λ x. repeat body (suc i) n >>= λ xs. return (x ∷ xs)
