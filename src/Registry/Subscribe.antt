-- ===== src/Registry/Subscribe.antt =====
-- pkg/registry/registry/registry.go: subscriptions, and the updates that a subscriber has missed.
use fuddle.Rpc.{left, Member2, Version2, SubscribeRequest}
use fuddle.StringMap.{StringMap, lookup}
use fuddle.Registry.Version.{compare_versions}
use fuddle.Registry.State.{Registry, SubHandle, Call}
use native.Mathlib.Decide.{ℕ_discrete}
use fuddle.Prelude.{
  ℕ, suc, String, Bool, true, false, ◌||◌, ◌&&◌, Option, none, some, List, [], ◌∷◌, ◌++◌, pos,
  ltb_ℤ, ite, string_dec, is_yes, if◌then◌else◌, int64, inc_uint64,
}

-- Is `m` to be sent to a subscriber that knows the version `known`?
unfoldable pub owner_only_wanted : String → Option Version2 → Member2 → Bool
owner_only_wanted local none m = is_yes (string_dec m.version.owner_id local)
owner_only_wanted local (some known) m =
    (is_yes (string_dec m.version.owner_id local) || is_yes (string_dec known.owner_id local))
    && ltb_ℤ (pos 0) (compare_versions known m.version)

unfoldable pub wanted : Option Version2 → Member2 → Bool
wanted none m = true
wanted (some known) m = ltb_ℤ (pos 0) (compare_versions known m.version)

-- The update that removes a member which the subscriber knows and the registry does not.
unfoldable pub left_update : String → Version2 → Member2
left_update id known = record {
  state = record {
    id = id;
    status = "";
    service = "";
    locality = record { region = ""; availability_zone = "" };
    started = int64 0;
    revision = "";
    metadata = [];
  };
  liveness = left;
  version = record {
    owner_id = known.owner_id;
    timestamp = record {
      timestamp = known.timestamp.timestamp;
      counter = inc_uint64 known.timestamp.counter;
    };
  };
  expiry = int64 0;
}

-- The loops over the members, and over the versions that the subscriber knows.
unfoldable pub owner_only_members : String → StringMap Version2 → StringMap Member2 → List Member2
unfolding owner_only_wanted
owner_only_members local known [] = []
owner_only_members local known ((id, m) ∷ ms) =
    let rest = owner_only_members local known ms in
    if owner_only_wanted local (lookup id known) m then m ∷ rest else rest

unfoldable pub missed_members : StringMap Version2 → StringMap Member2 → List Member2
unfolding wanted
missed_members known [] = []
missed_members known ((id, m) ∷ ms) =
    let rest = missed_members known ms in if wanted (lookup id known) m then m ∷ rest else rest

unfoldable pub is_some : Option Member2 → Bool
is_some none = false
is_some (some m) = true

unfoldable pub owner_only_lost : String → StringMap Member2 → StringMap Version2 → List Member2
unfolding is_some left_update
owner_only_lost local members [] = []
owner_only_lost local members ((id, known) ∷ ks) =
    let rest = owner_only_lost local members ks in
    if is_some (lookup id members)
    then rest
    else ite (string_dec known.owner_id local) (left_update id known ∷ rest) rest

unfoldable pub lost_members : StringMap Member2 → StringMap Version2 → List Member2
unfolding is_some left_update
lost_members members [] = []
lost_members members ((id, known) ∷ ks) =
    let rest = lost_members members ks in
    if is_some (lookup id members) then rest else left_update id known ∷ rest

unfoldable pub owner_only_updates : Registry → StringMap Version2 → List Member2
unfolding owner_only_members owner_only_lost
owner_only_updates r known =
    owner_only_members r.local_id known r.members ++ owner_only_lost r.local_id r.members known

unfoldable pub all_updates : Registry → StringMap Version2 → List Member2
unfolding missed_members lost_members
all_updates r known = missed_members known r.members ++ lost_members r.members known

unfoldable pub updates : Registry → SubscribeRequest → List Member2
unfolding owner_only_updates all_updates
updates r req =
    if req.owner_only
    then owner_only_updates r req.known_members
    else all_updates r req.known_members

-- A new subscription and its handle.
unfoldable pub add_sub : Registry → Bool → Registry × ℕ
add_sub r owner_only = (
  record r {
    subs = record { handle = r.next_handle; owner_only = owner_only } ∷ r.subs;
    next_handle = suc r.next_handle;
  },
  r.next_handle,
)

unfoldable pub subscribe_local : Registry → Registry × ℕ
unfolding add_sub
subscribe_local r = add_sub r true

-- `for _, update := range r.updatesLocked(req) { onUpdate(update) }`
unfoldable pub send_all : ℕ → List Member2 → List Call → List Call
send_all handle [] calls = calls
send_all handle (m ∷ ms) calls = send_all handle ms (record { handle = handle; update = m } ∷ calls)

-- A nil request asks for everything.
unfoldable pub or_all : Option SubscribeRequest → SubscribeRequest
or_all none = record { owner_only = false; known_members = [] }
or_all (some req) = req

unfoldable pub subscribe : Registry → Option SubscribeRequest → Registry × ℕ
unfolding add_sub send_all or_all updates
subscribe r req =
    let (r', handle) = add_sub r (or_all req).owner_only in
    (record r' { calls = send_all handle (updates r' (or_all req)) r'.calls }, handle)

-- `delete(r.subs, handle)`, which the returned function does.
unfoldable pub drop_sub : ℕ → List SubHandle → List SubHandle
drop_sub handle [] = []
drop_sub handle (s ∷ subs) =
    let rest = drop_sub handle subs in ite (ℕ_discrete s.handle handle) rest (s ∷ rest)

unfoldable pub unsubscribe : Registry → ℕ → Registry
unfolding drop_sub
unsubscribe r handle = record r { subs = drop_sub handle r.subs }
