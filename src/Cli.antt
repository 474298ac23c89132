-- ===== src/Cli.antt =====
-- pkg/cli/start: the flags of `fuddle start`, the configuration that they give, and the command. What
-- cobra parses is an argument.
use fuddle.Config as Config
use fuddle.Config.{Config, Admin, Gossip, Rpc}
use fuddle.Logger.{string_to_level}
use fuddle.Metrics.{Runtime}
use fuddle.Node.Start.{with_log_level, Running, Calls, start_node, shutdown}
use fuddle.Sockets.{Outcome, returned, failed, panicked}
use fuddle.Prelude.{ℕ, zero, suc, String, Bool, List, [], ◌∷◌, ℤ, pos, negsuc, ite, string_dec}

pub record Flags : Type 0 where
  pub gossip_bind_addr : String
  pub gossip_bind_port : ℤ
  pub gossip_adv_addr : String
  pub gossip_adv_port : ℤ
  pub gossip_seeds : String
  pub rpc_bind_addr : String
  pub rpc_bind_port : ℤ
  pub rpc_adv_addr : String
  pub rpc_adv_port : ℤ
  pub admin_bind_addr : String
  pub admin_bind_port : ℤ
  pub admin_adv_addr : String
  pub admin_adv_port : ℤ
  pub log_level : String

-- Those that are not given.
unfoldable pub default_flags : Flags
default_flags = record {
  gossip_bind_addr = "0.0.0.0";
  gossip_bind_port = pos 8111;
  gossip_adv_addr = "";
  gossip_adv_port = pos 0;
  gossip_seeds = "";
  rpc_bind_addr = "0.0.0.0";
  rpc_bind_port = pos 8110;
  rpc_adv_addr = "";
  rpc_adv_port = pos 0;
  admin_bind_addr = "0.0.0.0";
  admin_bind_port = pos 8112;
  admin_adv_addr = "";
  admin_adv_port = pos 0;
  log_level = "info";
}

-- An advertised address or port, or where it is empty or 0 the one that is bound.
unfoldable pub addr_or : (adv bind : String) → String
addr_or adv bind = ite (string_dec adv "") bind adv

unfoldable pub port_or : (adv bind : ℤ) → ℤ
port_or (pos zero) bind = bind
port_or (pos (suc n)) bind = pos (suc n)
port_or (negsuc n) bind = negsuc n

-- `split` is `strings.Split` at commas.
unfoldable pub configured : (split : String → List String) → Flags → Config → Config
unfolding addr_or port_or
configured split f conf = record conf {
  gossip = record {
    bind_addr = f.gossip_bind_addr;
    bind_port = f.gossip_bind_port;
    adv_addr = addr_or f.gossip_adv_addr f.gossip_bind_addr;
    adv_port = port_or f.gossip_adv_port f.gossip_bind_port;
    seeds = ite (string_dec f.gossip_seeds "") conf.gossip.seeds (split f.gossip_seeds);
  };
  rpc = record {
    bind_addr = f.rpc_bind_addr;
    bind_port = f.rpc_bind_port;
    adv_addr = addr_or f.rpc_adv_addr f.rpc_bind_addr;
    adv_port = port_or f.rpc_adv_port f.rpc_bind_port;
  };
  admin = record {
    bind_addr = f.admin_bind_addr;
    bind_port = f.admin_bind_port;
    adv_addr = addr_or f.admin_adv_addr f.admin_bind_addr;
    adv_port = port_or f.admin_adv_port f.admin_bind_port;
  };
}

-- What comes after NewNode: an error is printed, and the command waits for a signal as it does for a
-- node; then it shuts the node down, which is nil after an error.
unfoldable pub interrupted : Outcome Running × List ℕ → Outcome Running × List ℕ
unfolding shutdown
interrupted (returned n, opened) = shutdown n opened
interrupted (failed, opened) = (panicked, opened)
interrupted (panicked, opened) = (panicked, opened)

unfoldable pub run :
    Runtime
    → (itoa : ℤ → String) → (dial : String → Bool) → (split : String → List String) → Flags
    → (random_id : String) → Calls
    → (started clock : ℕ) → List ℕ
    → Outcome Running × List ℕ
unfolding Config.default_config configured string_to_level start_node interrupted
run rt itoa dial split f random_id calls started clock opened = interrupted (
    start_node rt itoa dial (configured split f (Config.default_config random_id))
      (with_log_level (string_to_level f.log_level) ∷ []) calls started clock opened)
