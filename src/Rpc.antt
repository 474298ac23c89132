-- ===== src/Rpc.antt =====
-- The messages of the fuddle-rpc package that the registry keeps and sends, with the fields that
-- the sources read and write (copyMember, copyMemberState and copyVersion list them all). Pointers
-- to messages are values: no code changes a message that another holder can see.
use fuddle.Prelude.{ℕ, String, Bool}
use fuddle.StringMap.{StringMap}

pub data Liveness : Type 0 where
  up down left : Liveness
  -- any other number that the wire carries
  other : ℕ → Liveness

pub record Locality : Type 0 where
  pub region : String
  pub availability_zone : String

pub record MemberState : Type 0 where
  pub id : String
  pub status : String
  pub service : String
  pub locality : Locality
  pub started : ℕ
  pub revision : String
  pub metadata : StringMap String

-- `timestamp` is an int64, `counter` a uint64.
pub record MonotonicTimestamp : Type 0 where
  pub timestamp : ℕ
  pub counter : ℕ

pub record Version2 : Type 0 where
  pub owner_id : String
  pub timestamp : MonotonicTimestamp

pub record Member2 : Type 0 where
  pub state : MemberState
  pub liveness : Liveness
  pub version : Version2
  pub expiry : ℕ

pub record SubscribeRequest : Type 0 where
  pub owner_only : Bool
  pub known_members : StringMap Version2
