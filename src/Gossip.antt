-- ===== src/Gossip.antt =====
-- pkg/gossip: what a node tells the memberlist library of itself, and what it does when the library
-- tells of others. The transport is a copy of the library's, and what it and the library return are
-- arguments; a socket is a number. Callbacks change a state `S`, and get the clock's reading.
use fuddle.Config.{Config, join_addr}
use fuddle.Logger.{Level, debug_level, info_level, warn_level, error_level}
use fuddle.Sockets.{close_sockets, Outcome, returned, failed}
use fuddle.StringMap.{StringMap, insert}
use fuddle.Prelude.{
  ℕ, String, Bool, true, false, Option, none, some, List, [], ◌∷◌, ℤ, ite, string_dec, is_yes, ◌||◌,
}

pub record Node : Type 0 where
  pub id : String
  pub rpc_addr : String

-- The fields of `memberlist.Node` that are read.
pub record Peer : Type 0 where
  pub name : String
  pub meta : String

abbrev pub Callback : Type 0 → Type 0
Callback S = Node → (clock : ℕ) → S → S

pub record Options (S : Type 0) : Type 0 where
  pub on_join : Option (Callback S)
  pub on_leave : Option (Callback S)
  pub tcp_listener : Option ℕ
  pub udp_listener : Option ℕ

pub data Opt (S : Type 0) : Type 0 where
  with_on_join with_on_leave : Callback S → Opt S
  with_tcp_listener with_udp_listener : (ln : ℕ) → Opt S

pub record Delegate : Type 0 where
  pub state : String

unfoldable pub new_delegate : String → Delegate
new_delegate state = record { state = state }

unfoldable pub node_meta : Delegate → (limit : ℕ) → String
node_meta d limit = d.state

-- The fields of `memberlist.Config` that are set.
pub record MemberlistConfig (S : Type 0) : Type 0 where
  pub name : String
  pub bind_addr : String
  pub bind_port : ℤ
  pub advertise_addr : String
  pub advertise_port : ℤ
  pub suspicion_mult : ℕ
  pub transport : ℕ × ℕ
  pub delegate : Delegate
  pub on_join : Option (Callback S)
  pub on_leave : Option (Callback S)

-- A call of the library, or of its copy: on an error it has closed some sockets.
pub data Called (A : Type 0) : Type 0 where
  called : A → Called A
  fails : (closed : List ℕ) → Called A

module _ {S : Type 0} where
  unfoldable pub default_options : Options S
  default_options = record {
    on_join = none;
    on_leave = none;
    tcp_listener = none;
    udp_listener = none;
  }

  unfoldable pub apply : Opt S → Options S → Options S
  apply (with_on_join cb) o = record o { on_join = some cb }
  apply (with_on_leave cb) o = record o { on_leave = some cb }
  apply (with_tcp_listener ln) o = record o { tcp_listener = some ln }
  apply (with_udp_listener ln) o = record o { udp_listener = some ln }

  unfoldable pub apply_all : List (Opt S) → Options S → Options S
  unfolding apply
  apply_all [] o = o
  apply_all (opt ∷ opts) o = apply_all opts (apply opt o)

  -- The event delegate: `NotifyJoin` and `NotifyLeave` call their callback, if there is one, and
  -- `NotifyUpdate` does nothing.
  unfoldable pub notify : Option (Callback S) → Peer → (clock : ℕ) → S → S
  notify none n clock s = s
  notify (some cb) n clock s = cb (record { id = n.name; rpc_addr = n.meta }) clock s

  unfoldable pub notify_update : MemberlistConfig S → Peer → S → S
  notify_update conf n s = s

  unfoldable pub memberlist_config :
      (itoa : ℤ → String) → Config → Options S → (transport : ℕ × ℕ) → MemberlistConfig S
  unfolding new_delegate join_addr
  memberlist_config itoa conf options transport = record {
    name = conf.node_id;
    bind_addr = conf.gossip.bind_addr;
    bind_port = conf.gossip.bind_port;
    advertise_addr = conf.gossip.adv_addr;
    advertise_port = conf.gossip.adv_port;
    suspicion_mult = 3;
    transport = transport;
    delegate = new_delegate (join_addr itoa conf.rpc.adv_addr conf.rpc.adv_port);
    on_join = options.on_join;
    on_leave = options.on_leave;
  }

-- The results of the calls of `NewGossip`: `newTransport` for the listeners that it is given, and
-- `memberlist.Create` and `Join`.
pub record Calls : Type 0 where
  pub new_transport : (tcp udp : Option ℕ) → Called (ℕ × ℕ)
  pub create : Called (Unit {0})
  pub join : Called (Unit {0})

module _ {S : Type 0} where
  unfoldable pub after_join :
      MemberlistConfig S → Called (Unit {0}) → List ℕ → Outcome (MemberlistConfig S) × List ℕ
  after_join conf (fails closed) opened = (failed, close_sockets closed opened)
  after_join conf (called tt) opened = (returned conf, opened)

  unfoldable pub after_create :
      Called (Unit {0})
      → Calls
      → (seeds : List String) → MemberlistConfig S
      → List ℕ
      → Outcome (MemberlistConfig S) × List ℕ
  unfolding after_join
  after_create (fails closed) calls seeds conf opened = (failed, close_sockets closed opened)
  after_create (called tt) calls [] conf opened = (returned conf, opened)
  after_create (called tt) calls (seed ∷ seeds) conf opened = after_join conf calls.join opened

  unfoldable pub after_transport :
      (itoa : ℤ → String)
      → Config
      → Options S
      → Calls
      → Called (ℕ × ℕ)
      → List ℕ
      → Outcome (MemberlistConfig S) × List ℕ
  unfolding after_create memberlist_config
  after_transport itoa conf options calls (fails closed) opened =
      (failed, close_sockets closed opened)
  after_transport itoa conf options calls (called (tcp, udp)) opened =
      after_create calls.create calls conf.gossip.seeds
        (memberlist_config itoa conf options (tcp, udp)) (tcp ∷ udp ∷ opened)

  -- The memberlist's configuration stands for the `Gossip`.
  unfoldable pub new_gossip :
      (itoa : ℤ → String)
      → Config
      → List (Opt S)
      → Calls
      → List ℕ
      → Outcome (MemberlistConfig S) × List ℕ
  unfolding default_options apply_all after_transport
  new_gossip itoa conf opts calls opened =
      let options = apply_all opts default_options in
      after_transport itoa conf options calls
        (calls.new_transport options.tcp_listener options.udp_listener) opened

  -- The memberlist leaves its cluster, and its transport closes its sockets.
  unfoldable pub shutdown : MemberlistConfig S → List ℕ → List ℕ
  unfolding close_sockets
  shutdown conf opened = let (tcp, udp) = conf.transport in close_sockets (tcp ∷ udp ∷ []) opened

-- `Nodes`, of the names of the memberlist's members.
unfoldable pub nodes : List Peer → StringMap (Unit {0})
unfolding insert
nodes [] = []
nodes (m ∷ ms) = insert m.name tt (nodes ms)

-- What `Write` passes on to the logger of a node, and whether it returns.
pub record Written : Type 0 where
  pub lines : List (Level × String)
  pub panics : Bool

at_level : String → String → List (Level × String)
at_level level message = ite (string_dec level "DEBUG") ((debug_level, message) ∷ []) (
    ite (string_dec level "INFO") ((info_level, message) ∷ []) (
      ite (string_dec level "WARN") ((warn_level, message) ∷ [])
        (ite (string_dec level "ERR") ((error_level, message) ∷ []) [])))

-- `matches`: what the regular expression finds in the trimmed line, the whole first. The code reads
-- the third and the fourth, also after it has found that there are fewer.
written : (matches : List String) → Written
unfolding at_level
written (all ∷ head ∷ level ∷ message ∷ more) = record {
  lines = at_level level message;
  panics = false;
}
written (all ∷ head ∷ level ∷ []) = record {
  lines = (error_level, "unrecognised log") ∷ [];
  panics =
      is_yes (string_dec level "DEBUG")
      || is_yes (string_dec level "INFO")
      || is_yes (string_dec level "WARN")
      || is_yes (string_dec level "ERR");
}
written matches = record { lines = (error_level, "unrecognised log") ∷ []; panics = true }

-- `trim_space` and `find_submatch` are the library's.
unfoldable pub write :
    (trim_space : String → String) → (find_submatch : String → List String) → (b : String) → Written
unfolding written
write trim_space find_submatch b = written (find_submatch (trim_space b))
