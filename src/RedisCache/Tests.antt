-- ===== src/RedisCache/Tests.antt =====
-- The cache at concrete inputs, over a server that is a table.
use c_address_onboarding_bri.Prelude.{ℕ, zero, suc, none, some, ◌≡◌, refl, ◌+◌, ◌*◌, ◌≤◌, [], arith}
use c_address_onboarding_bri.JsMap
use c_address_onboarding_bri.RedisCache.{RedisServer}
use c_address_onboarding_bri.RedisCache.TableServer.{Store, table_server}
use c_address_onboarding_bri.RedisCache.Swr.{Stored, CacheMetrics}
use c_address_onboarding_bri.RedisCache.SingleFlight.{
  Flights, with_single_flight, starts, shares, Round, held, released, PollEnd, found, poll,
  poll_once, lock_answered, settled, set_ok,
}
use c_address_onboarding_bri.RedisCache.Flights.{
  start, called, lock_comes, IsSingle, flights-IsSingle, poll_ends,
}

abbrev server : RedisServer (Stored ℕ) (Store (Stored ℕ))
server = table_server

abbrev empty : Store (Stored ℕ)
empty = λ k. none

abbrev no_reads : CacheMetrics
no_reads = record { hits = 0; misses = 0 }

abbrev idle : Flights
idle = record { in_flight_map = []; pending = []; next_id = 0 }

abbrev flying : Flights
flying = lock_answered 0 set_ok (with_single_flight "k" idle).0

second_shares : (with_single_flight "k" flying).1 ≡ shares 0
unfolding with_single_flight lock_answered JsMap.get JsMap.set
second_shares = refl

starts_after : (with_single_flight "k" (settled 0 "k" flying)).1 ≡ starts 1
unfolding with_single_flight lock_answered settled JsMap.get JsMap.set JsMap.delete
starts_after = refl

flights-IsSingle_example : IsSingle "k" flying
flights-IsSingle_example =
    flights-IsSingle flying
      (lock_comes 0 set_ok (with_single_flight "k" idle).0 (called "k" idle start)) "k"

-- The lock is held for one round, then it is released and the value is there.
abbrev waiting : ℕ → Round ℕ
waiting zero = record { now = 5; swr_found = none; raw_found = none; lock_found = held }
waiting (suc i) = record {
  now = 5 + 50 * suc i;
  swr_found = none;
  raw_found = none;
  lock_found = released (some 7);
}

paced : (k : ℕ) → (waiting k).now + 50 ≤ (waiting (suc k)).now
paced zero = omega arith
paced (suc k) = omega arith

poll_finds : poll 3 5000 waiting 0 ≡ some (found 7)
unfolding poll poll_once
poll_finds = refl

poll_ends_example : (e : PollEnd ℕ) × (poll 101 (5 + 5000) waiting 0 ≡ some e)
poll_ends_example = poll_ends 100 5000 5 waiting (omega arith) (omega arith) paced
