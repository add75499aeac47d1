-- ===== src/RedisCache/SingleFlight.antt =====
-- `withSingleFlight` of api/src/services/cache.ts: the map of computations under way, the lock in Redis,
-- and the poll of an instance that does not hold the lock. What Redis answers is an oracle.
use c_address_onboarding_bri.Prelude.{
  ℕ, zero, suc, String, Bool, true, false, Option, none, some, if◌then◌else◌, ltb, List, [], ◌∷◌,
  ◌==◌,
}
use c_address_onboarding_bri.Json.{◌+++◌}
use c_address_onboarding_bri.JsMap.{JsMap}
use c_address_onboarding_bri.JsMap

unfoldable pub lock_key : String → String
lock_key key = "lock:" +++ key

-- `acquireRedisLock`: no client, `SET … PX … NX` answers, or it fails.
pub data LockAnswer : Type 0 where
  no_redis set_ok exists failed : LockAnswer

unfoldable pub acquire_redis_lock : LockAnswer → Bool
acquire_redis_lock no_redis = true
acquire_redis_lock set_ok = true
acquire_redis_lock exists = false
acquire_redis_lock failed = true

-- A promise in the map, by its number, and where its computation stands.
pub data Phase : Type 0 where
  acquiring : Phase
  polling : Phase
  computing : Bool → Phase

pub record Flight : Type 0 where
  pub key : String
  pub phase : Phase

-- The promises that are pending, by number, with `inFlightMap`.
pub record Flights : Type 0 where
  pub in_flight_map : JsMap ℕ
  pub pending : List (ℕ × Flight)
  pub next_id : ℕ

-- A call either shares a promise or starts one.
pub data Joined : Type 0 where
  shares : ℕ → Joined
  starts : ℕ → Joined

unfoldable pub with_single_flight : String → Flights → Flights × Joined
with_single_flight key f = elim (JsMap.get key f.in_flight_map) [
  | some id ↦ (f, shares id)
  | none ↦ (
    record {
      in_flight_map = JsMap.set key f.next_id f.in_flight_map;
      pending = (f.next_id, record { key = key; phase = acquiring }) ∷ f.pending;
      next_id = suc f.next_id;
    },
    starts f.next_id,
  )
]

abbrev pub set_phase : ℕ → Phase → List (ℕ × Flight) → List (ℕ × Flight)
set_phase id phase [] = []
set_phase id phase ((i, f) ∷ fs) =
    if i == id then (i, record f { phase = phase }) ∷ fs else (i, f) ∷ set_phase id phase fs

-- After the lock is answered: compute at once, or poll.
unfoldable pub lock_answered : ℕ → LockAnswer → Flights → Flights
lock_answered id a f = record f {
  pending = set_phase id (if acquire_redis_lock a then computing true else polling) f.pending;
}

-- After the poll is left without a value, `fn` is called without the lock.
unfoldable pub poll_left : ℕ → Flights → Flights
poll_left id f = record f { pending = set_phase id (computing false) f.pending }

abbrev pub drop_id : ℕ → List (ℕ × Flight) → List (ℕ × Flight)
drop_id id [] = []
drop_id id ((i, f) ∷ fs) = if i == id then fs else (i, f) ∷ drop_id id fs

-- The `finally` block of a promise of a key; the lock is released in the background.
unfoldable pub settled : ℕ → String → Flights → Flights
settled id key f = record f {
  in_flight_map = JsMap.delete key f.in_flight_map;
  pending = drop_id id f.pending;
}

-- What one round of the poll finds: a stale-while-revalidate entry, a plain value, then the lock.
pub data LockFound (T : Type 0) : Type 0 where
  no_client : LockFound T
  cannot_read : LockFound T
  held : LockFound T
  released : Option T → LockFound T

pub record Round (T : Type 0) : Type 0 where
  pub now : ℕ
  pub swr_found : Option T
  pub raw_found : Option T
  pub lock_found : LockFound T

-- How a poll ends: with a value, or by calling `fn`.
pub data PollEnd (T : Type 0) : Type 0 where
  found : T → PollEnd T
  calls_fn : PollEnd T

module _ {T : Type 0} where
  -- The body of the loop after the pause: the end of the poll, or none to go round again.
  unfoldable pub poll_once : Round T → Option (PollEnd T)
  poll_once r = elim r.swr_found [
    | some v ↦ some (found v)
    | none ↦ elim r.raw_found [
      | some v ↦ some (found v)
      | none ↦ elim r.lock_found [
        | no_client ↦ none
        | cannot_read ↦ some calls_fn
        | held ↦ none
        | released none ↦ some calls_fn
        | released (some v) ↦ some (found v)
      ]
    ]
  ]

  abbrev pub or_round : Option (PollEnd T) → Option (PollEnd T) → Option (PollEnd T)
  or_round none rest = rest
  or_round (some e) rest = some e

  -- `while (Date.now() < deadline)`, on fuel; `rounds i` has the clock at the test of round `i`.
  unfoldable pub poll : ℕ → ℕ → (ℕ → Round T) → ℕ → Option (PollEnd T)
  poll zero deadline rounds i = none
  poll (suc fuel) deadline rounds i =
      let rest = poll fuel deadline rounds (suc i) in
      if ltb (rounds i).now deadline then or_round (poll_once (rounds i)) rest else some calls_fn
