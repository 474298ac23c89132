-- ===== src/Registry/Options.antt =====
-- pkg/registry/registry/options.go. The collector and the logger are output and have no option here.
use fuddle.Prelude.{ℕ, ◌*◌, Option, none, some, List, [], ◌∷◌, int64}
use fuddle.Rpc.{MemberState}

pub record Options : Type 0 where
  pub local_member : Option MemberState
  pub heartbeat_timeout : ℕ
  pub reconnect_timeout : ℕ
  pub tombstone_timeout : ℕ
  pub now : ℕ

-- `clock` is what `time.Now().UnixMilli()` returns.
unfoldable pub default_options : ℕ → Options
default_options clock = record {
  local_member = none;
  heartbeat_timeout = int64 (20 * 1000);
  reconnect_timeout = int64 (5 * 60 * 1000);
  tombstone_timeout = int64 (30 * 60 * 1000);
  now = clock;
}

pub data Opt : Type 0 where
  with_local_member : MemberState → Opt
  with_heartbeat_timeout with_reconnect_timeout with_tombstone_timeout with_now_time : ℕ → Opt

unfoldable pub apply : Opt → Options → Options
apply (with_local_member m) opts = record opts { local_member = some m }
apply (with_heartbeat_timeout t) opts = record opts { heartbeat_timeout = t }
apply (with_reconnect_timeout t) opts = record opts { reconnect_timeout = t }
apply (with_tombstone_timeout t) opts = record opts { tombstone_timeout = t }
apply (with_now_time t) opts = record opts { now = t }

-- `for _, o := range opts { o.apply(options) }`
unfoldable pub apply_all : List Opt → Options → Options
unfolding apply
apply_all [] options = options
apply_all (o ∷ opts) options = apply_all opts (apply o options)

-- The options of one call: the defaults at the clock's reading, then each option in turn.
unfoldable pub options_of : List Opt → ℕ → Options
unfolding apply_all default_options
options_of opts clock = apply_all opts (default_options clock)
