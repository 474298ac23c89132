-- ===== src/Config.antt =====
-- pkg/config: the configuration of a node. Marshalling it for a log line is output.
use Prim.Native.String.{◌++◌ as ◌<>◌}
use fuddle.Prelude.{String, List, [], ℤ, pos}

pub record Rpc : Type 0 where
  pub bind_addr : String
  pub bind_port : ℤ
  pub adv_addr : String
  pub adv_port : ℤ

pub record Gossip : Type 0 where
  pub bind_addr : String
  pub bind_port : ℤ
  pub adv_addr : String
  pub adv_port : ℤ
  pub seeds : List String

pub record Admin : Type 0 where
  pub bind_addr : String
  pub bind_port : ℤ
  pub adv_addr : String
  pub adv_port : ℤ

-- Durations count nanoseconds.
pub record Registry : Type 0 where
  pub heartbeat_timeout : ℤ
  pub reconnect_timeout : ℤ
  pub tombstone_timeout : ℤ

pub record Config : Type 0 where
  pub node_id : String
  pub rpc : Rpc
  pub gossip : Gossip
  pub admin : Admin
  pub registry : Registry

unfoldable pub default_rpc_config : Rpc
default_rpc_config = record {
  bind_addr = "0.0.0.0";
  bind_port = pos 8110;
  adv_addr = "";
  adv_port = pos 8110;
}

unfoldable pub default_gossip_config : Gossip
default_gossip_config = record {
  bind_addr = "0.0.0.0";
  bind_port = pos 8111;
  adv_addr = "";
  adv_port = pos 8111;
  seeds = [];
}

unfoldable pub default_admin_config : Admin
default_admin_config = record {
  bind_addr = "0.0.0.0";
  bind_port = pos 8112;
  adv_addr = "";
  adv_port = pos 8112;
}

unfoldable pub default_registry_config : Registry
default_registry_config = record {
  heartbeat_timeout = pos 20000000000;
  reconnect_timeout = pos 300000000000;
  tombstone_timeout = pos 1800000000000;
}

-- `random_id`: the first eight characters of a fresh uuid.
unfoldable pub default_config : (random_id : String) → Config
unfolding default_rpc_config default_gossip_config default_admin_config default_registry_config
default_config random_id = record {
  node_id = "fuddle-" <> random_id;
  rpc = default_rpc_config;
  gossip = default_gossip_config;
  admin = default_admin_config;
  registry = default_registry_config;
}

-- `fmt.Sprintf("%s:%d", addr, port)`, where `itoa` writes a number.
unfoldable pub join_addr : (itoa : ℤ → String) → (addr : String) → (port : ℤ) → String
join_addr itoa addr port = addr <> (":" <> itoa port)
