-- ===== src/Registry/Subscribing.antt =====
-- Subscribe (pkg/registry/registry/registry.go): a subscriber is sent everything that it has missed.
use mathlib.Core.List.{
  Mem, Mem-prop, not-mem-nil, eq-or-mem_of_mem-cons, mem-cons_self, mem-cons_of_mem,
  mem-append_left, mem-append_right,
}
use mathlib.Core.Logic.Or
use fuddle.Rpc.{left, Member2, Version2, SubscribeRequest}
use fuddle.StringMap.{StringMap, lookup}
use fuddle.Registry.Version.{compare_versions}
use fuddle.Registry.Version.Order.{IsNewer}
use fuddle.Registry.State.{Registry, Call}
use fuddle.Registry.Runs.Kept.{send_all-append}
use fuddle.Registry.Subscribe.{
  wanted, left_update, missed_members, lost_members, all_updates, is_some, send_all, subscribe,
  add_sub, or_all, updates,
}
use fuddle.Prelude.{
  ℕ, String, ◌≡◌, refl, subst, ◌++◌, inc_uint64, ap, ◌∙◌, Bool, true, false, none, some, List, [],
  ◌∷◌, arith, string_dec, if◌then◌else◌,
}

newer-wanted : (v : Version2) (m : Member2) → IsNewer m.version v → wanted (some v) m ≡ true
unfolding wanted compare_versions
newer-wanted v m h = ground arith

mem-if :
    (u m : Member2) (b : Bool) (us : List Member2) → Mem u us → Mem u (if b then m ∷ us else us)
mem-if u m true us h = mem-cons_of_mem m h
mem-if u m false us h = h

mem-unless :
    (u m : Member2) (b : Bool) (us : List Member2) → Mem u us → Mem u (if b then us else m ∷ us)
mem-unless u m true us h = h
mem-unless u m false us h = mem-cons_of_mem m h

missed-mem :
    (known : StringMap Version2) (ms : StringMap Member2) (id : String) (m : Member2)
    → lookup id ms ≡ some m
    → wanted (lookup id known) m ≡ true
    → Mem m (missed_members known ms)
unfolding missed_members lookup
missed-mem known [] id m e w = absurd (ground arith)
missed-mem known ((j, n) ∷ ms) id m e w = elim (string_dec j id) [
  | yes p ↦
      let same : n ≡ m = ground arith in
      let accepted : wanted (lookup j known) n ≡ true = ground arith in
      rw (accepted, same) mem-cons_self
  | no differ ↦ mem-if m n (wanted (lookup j known) n) _ (missed-mem known ms id m (ground arith) w)
]

lost-mem :
    (members : StringMap Member2) (known : StringMap Version2) (id : String) (v : Version2)
    → lookup id known ≡ some v
    → lookup id members ≡ none
    → Mem (left_update id v) (lost_members members known)
unfolding lost_members lookup is_some
lost-mem members [] id v e n = absurd (ground arith)
lost-mem members ((j, w) ∷ ks) id v e n = elim (string_dec j id) [
  | yes p ↦
      let same : w ≡ v = ground arith in
      let gone : lookup j members ≡ none = ground arith in rw (gone, same, p) mem-cons_self
  | no differ ↦
      mem-unless _ (left_update j w) (is_some (lookup j members)) _
        (lost-mem members ks id v (ground arith) n)
]

-- What a subscriber that knows these versions has missed of the entries: one that it does not know
-- or that is newer than what it knows.
pub data IsMissed (members : StringMap Member2) (known : StringMap Version2)
    : Member2 → Type 0 where
  unknown :
      (id : String) (m : Member2)
      → lookup id members ≡ some m
      → lookup id known ≡ none
      → IsMissed members known m
  newer :
      (id : String) (m : Member2) (v : Version2)
      → lookup id members ≡ some m
      → lookup id known ≡ some v
      → IsNewer m.version v
      → IsMissed members known m

missed-all_updates :
    (r : Registry) (known : StringMap Version2) (u : Member2)
    → IsMissed r.members known u
    → Mem u (all_updates r known)
unfolding all_updates wanted
missed-all_updates r known u (unknown id m e n) =
    mem-append_left _ (missed-mem known r.members id m e (ap (λ o. wanted o m) n))
missed-all_updates r known u (newer id m v e k h) =
    mem-append_left _
      (missed-mem known r.members id m e (ap (λ o. wanted o m) k ∙ newer-wanted v m h))

lost-all_updates :
    (r : Registry) (known : StringMap Version2) (id : String) (v : Version2)
    → lookup id known ≡ some v
    → lookup id r.members ≡ none
    → Mem (left_update id v) (all_updates r known)
unfolding all_updates
lost-all_updates r known id v k n = mem-append_right _ (lost-mem r.members known id v k n)

-- A call once made stays in the log, and each update that is to be sent is in it.
kept-send_all :
    (handle : ℕ) (ms : List Member2) (calls : List Call) (c : Call)
    → Mem c calls
    → Mem c (send_all handle ms calls)
unfolding send_all
kept-send_all handle [] calls c h = h
kept-send_all handle (m ∷ ms) calls c h = kept-send_all handle ms _ c (mem-cons_of_mem _ h)

abbrev pub call_of : ℕ → Member2 → Call
call_of handle u = record { handle = handle; update = u }

sent-send_all :
    (handle : ℕ) (u : Member2) (ms : List Member2) (calls : List Call)
    → Mem u ms
    → Mem (call_of handle u) (send_all handle ms calls)
unfolding send_all
sent-send_all handle u [] calls h = absurd (not-mem-nil h)
sent-send_all handle u (m ∷ ms) calls h =
    Or.elim Mem-prop (eq-or-mem_of_mem-cons h)
      (λ e.
        kept-send_all handle ms _ (call_of handle u)
          (subst (λ x. Mem (call_of handle u) (call_of handle x ∷ calls)) e mem-cons_self))
      (λ k. sent-send_all handle u ms (call_of handle m ∷ calls) k)

-- The update tells that the member left, one step of the counter after the known version.
abbrev pub IsLeft : String → Version2 → Member2 → Type 0
IsLeft id v u =
    (u.state.id ≡ id)
    × (u.liveness ≡ left)
    × (u.version.owner_id ≡ v.owner_id)
    × (u.version.timestamp.timestamp ≡ v.timestamp.timestamp)
    × (u.version.timestamp.counter ≡ inc_uint64 v.timestamp.counter)

left_update-IsLeft : (id : String) (v : Version2) → IsLeft id v (left_update id v)
unfolding left_update
left_update-IsLeft id v = (refl, refl, refl, refl, refl)

-- The calls `new`, of the subscription `handle`, tell a subscriber what it has missed.
pub record IsToldAll (members : StringMap Member2) (known : StringMap Version2) (handle : ℕ)
    (new : List Call) : Type 0 where
  pub entries : (u : Member2) → IsMissed members known u → Mem (call_of handle u) new
  pub gone :
      (id : String) (v : Version2)
      → lookup id known ≡ some v
      → lookup id members ≡ none
      → (u : Member2) × IsLeft id v u × Mem (call_of handle u) new

abbrev pub all_members : StringMap Version2 → SubscribeRequest
all_members known = record { owner_only = false; known_members = known }

-- Subscribe of all members calls the function of the new subscription, and before that keeps the
-- calls that were made: with each entry that the subscriber does not know or that is newer than what
-- it knows; and for each member that it knows and the registry does not have, with an update that the
-- member left, of the owner and the timestamp that it knows and the next counter.
pub subscribe-IsToldAll :
    (r : Registry) (known : StringMap Version2)
    → let (r', handle) = subscribe r (some (all_members known)) in
      (new : List Call) × (r'.calls ≡ new ++ r.calls) × IsToldAll r.members known handle new
unfolding subscribe add_sub or_all updates
subscribe-IsToldAll r known =
    let us = all_updates r known in
    (
      send_all r.next_handle us [],
      send_all-append r.next_handle us [] r.calls,
      record {
        entries = λ u m. sent-send_all r.next_handle u us [] (missed-all_updates r known u m);
        gone = λ id v k n. (
          left_update id v,
          left_update-IsLeft id v,
          sent-send_all r.next_handle (left_update id v) us [] (lost-all_updates r known id v k n),
        );
      },
    )
