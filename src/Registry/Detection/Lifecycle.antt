-- ===== src/Registry/Detection/Lifecycle.antt =====
-- A member that falls silent, through the rounds of the failure detector that mark it down, mark it
-- left and remove it.
use fuddle.Rpc.{Member2, Liveness, up, down, left}
use fuddle.StringMap.{lookup}
use fuddle.Metrics.{Runtime}
use fuddle.Registry.State.{Registry}
use fuddle.Registry.Liveness.{update_liveness}
use fuddle.Registry.Keys.{IsKeyed}
use fuddle.Registry.Rounds.{SkipsMember}
use fuddle.Registry.Detection.{IsRenewed}
use fuddle.Registry.Detection.Round.{silent_member_down, down_member_left, left_member_removed}
use fuddle.Prelude.{
  ℕ, ◌+◌, ◌^◌, ◌<◌, String, ◌≡◌, ◌≢◌, refl, sym, subst, ◌∙◌, Option, none, some, List, ◌∷◌, ◌++◌,
  arith, int64,
}

-- A round that visits the member once, at this time by the clock of its visit.
pub record Tick (rt : Runtime) (id : String) : Type 0 where
  pub before : List (String × ℕ)
  pub after : List (String × ℕ)
  pub clock : ℕ
  pub time : ℕ
  pub skips_before : SkipsMember rt id before
  pub skips_after : SkipsMember rt id after

abbrev pub tick : (rt : Runtime) (id : String) → Registry → Tick rt id → Registry
tick rt id r k = update_liveness rt r (k.before ++ (id, k.clock) ∷ k.after) (int64 k.time)

abbrev pub entry_after : (rt : Runtime) (id : String) → Registry → Tick rt id → Option Member2
entry_after rt id r k = lookup id (tick rt id r k).members

-- A later registry of the same node, before another round: whatever happened since, the member's entry
-- is the same.
pub record IsLater (id owner : String) (o : Option Member2) (r : Registry) : Type 0 where
  pub keyed : IsKeyed r
  pub entry : lookup id r.members ≡ o
  pub local : r.local_id ≡ owner

found :
    (m : Member2) (l : Liveness) (x : ℕ) (owner : String) (clock : ℕ) (o : Option Member2)
    → IsRenewed m l x owner clock o
    → (m' : Member2) × (o ≡ some m') × IsRenewed m l x owner clock (some m')
found m l x owner clock none h = absurd h
found m l x owner clock (some m') h = (m', refl, h)

IsRenewed-again :
    (m m' : Member2) (l l' : Liveness) (x x' : ℕ) (owner : String) (clock clock' : ℕ)
    (o : Option Member2)
    → IsRenewed m l x owner clock (some m')
    → IsRenewed m' l' x' owner clock' o
    → IsRenewed m l' x' owner clock' o
IsRenewed-again m m' l l' x x' owner clock clock' none h k = k
IsRenewed-again m m' l l' x x' owner clock clock' (some e) h k = (k.0 ∙ h.0, k.1, k.2, k.3, k.4)

module _ (rt : Runtime) (id owner : String) (foreign : id ≢ owner) (m : Member2) where
  -- The entry of a round that marked the member down is marked left by a later one.
  marked_left :
      (clock expiry tombstone : ℕ) (o : Option Member2) (r : Registry) (k : Tick rt id)
      → IsRenewed m down (int64 expiry) owner clock o
      → IsLater id owner o r
      → r.tombstone_timeout ≡ int64 tombstone
      → clock < k.clock
      → expiry < k.time
      → k.time + tombstone < 2 ^ 63
      → IsRenewed m left (int64 (k.time + tombstone)) owner k.clock (entry_after rt id r k)
  marked_left clock expiry tombstone o r k h later ts newer late bound =
      let (m', e, h') = found m down (int64 expiry) owner clock o h in
      let marked =
        (down_member_left rt r id m' k.before k.after k.clock k.time later.keyed k.skips_before
            k.skips_after (λ p. foreign (p ∙ later.local)) (later.entry ∙ e) tombstone
            (h'.3 ∙ sym later.local) h'.1 (omega (arith, h'.4, newer)) ts bound).0
          (omega (arith, h'.2, late)) in
      IsRenewed-again m m' down left (int64 expiry) (int64 (k.time + tombstone)) owner clock k.clock
        _ h'
        (subst
          (λ l. IsRenewed m' left (int64 (k.time + tombstone)) l k.clock (entry_after rt id r k))
          later.local marked)

  -- The entry of a round that marked the member left is removed by a later one.
  removed :
      (clock expiry : ℕ) (o : Option Member2) (r : Registry) (k : Tick rt id)
      → IsRenewed m left (int64 expiry) owner clock o
      → IsLater id owner o r
      → expiry < k.time
      → entry_after rt id r k ≡ none
  removed clock expiry o r k h later late =
      let (m', e, h') = found m left (int64 expiry) owner clock o h in
      left_member_removed rt r id m' k.before k.after k.clock k.time later.keyed k.skips_before
        k.skips_after (λ p. foreign (p ∙ later.local)) (later.entry ∙ e) h'.1
        (omega (arith, h'.2, late))

-- A member that this node owns, is up and was last heard of at `seen`, is marked down by a round that
-- visits it once later than a heartbeat timeout after that, left by one later than a reconnect timeout
-- after the first, and removed by one later than a tombstone timeout after the second, if nothing
-- changes its entry between these rounds; the entry is older than the visit of the first, whose clock
-- is behind that of the second, and times do not overflow.
pub silent_member-expires :
    (rt : Runtime) (id : String) (m : Member2) (r r' r'' : Registry) (k k' k'' : Tick rt id)
    (seen heartbeat reconnect tombstone : ℕ)
    → IsKeyed r
    → id ≢ r.local_id
    → lookup id r.members ≡ some m
    → m.version.owner_id ≡ r.local_id
    → m.liveness ≡ up
    → lookup id r.last_seen ≡ some (int64 seen)
    → r.heartbeat_timeout ≡ int64 heartbeat
    → r.reconnect_timeout ≡ int64 reconnect
    → r'.tombstone_timeout ≡ int64 tombstone
    → IsLater id r.local_id (entry_after rt id r k) r'
    → IsLater id r.local_id (entry_after rt id r' k') r''
    → m.version.timestamp.timestamp < k.clock
    → k.clock < k'.clock
    → seen + heartbeat < k.time
    → k.time + reconnect < k'.time
    → k'.time + tombstone < k''.time
    → k''.time < 2 ^ 63
    → IsRenewed m down (int64 (k.time + reconnect)) r.local_id k.clock (entry_after rt id r k)
      × IsRenewed m left (int64 (k'.time + tombstone)) r.local_id k'.clock (entry_after rt id r' k')
      × (entry_after rt id r'' k'' ≡ none)
silent_member-expires rt id m r r' r'' k k' k'' seen heartbeat reconnect tombstone keyed foreign
      entry own is_up last hb rc ts later later' older newer t t' t'' bound =
    let first =
      silent_member_down rt r id m k.before k.after k.clock k.time keyed k.skips_before
        k.skips_after foreign entry seen heartbeat reconnect own is_up older last hb rc
        (omega (arith, t, t', t'', bound)) (omega (arith, t, t', t'', bound))
        (omega (arith, t', t'', bound)) t in
    let second =
      marked_left rt id r.local_id foreign m k.clock (k.time + reconnect) tombstone _ r' k' first
        later ts newer t' (omega (arith, t'', bound)) in
    (
      first,
      second,
      removed rt id r.local_id foreign m k'.clock (k'.time + tombstone) _ r'' k'' second later' t'',
    )
