-- ===== src/RedisCache.antt =====
-- The operations of api/src/services/cache.ts that other parts use for single values: `cacheGet`, `cacheSet`,
-- `cacheSetNX`, `cacheDel`. The Redis server is an interface; times are in milliseconds.
pub mod TableServer
pub mod Swr
pub mod SingleFlight
pub mod Flights
mod Tests
use c_address_onboarding_bri.Prelude.{
  ℕ, String, Bool, true, false, Option, none, some, ◌+◌, ◌*◌, ◌≤◌, ◌<◌, ◌≡◌, ◌≢◌,
}

-- The commands GET, SET EX, SET EX NX and DEL at a time, with what their documentation says of them.
pub record RedisServer (V R : Type 0) : Type 0 where
  pub get : ℕ → String → R → Option V
  pub set : ℕ → String → V → ℕ → R → R
  pub del : ℕ → String → R → R
  pub get_set :
      (now later : ℕ) (k : String) (v : V) (seconds : ℕ) (r : R)
      → now ≤ later
      → later < now + seconds * 1000
      → get later k (set now k v seconds r) ≡ some v
  pub get_set_expired :
      (now later : ℕ) (k : String) (v : V) (seconds : ℕ) (r : R)
      → now + seconds * 1000 ≤ later
      → get later k (set now k v seconds r) ≡ none
  pub get_set_other :
      (now later : ℕ) (k j : String) (v : V) (seconds : ℕ) (r : R)
      → j ≢ k
      → get later j (set now k v seconds r) ≡ get later j r
  pub get_del : (now later : ℕ) (k : String) (r : R) → get later k (del now k r) ≡ none
  pub get_del_other :
      (now later : ℕ) (k j : String) (r : R) → j ≢ k → get later j (del now k r) ≡ get later j r

-- `getClient()`: no client, one whose commands fail, or one whose commands reach the server.
pub data Client (R : Type 0) : Type 0 where
  no_client : Client R
  failing : R → Client R
  connected : R → Client R

module _ {V R : Type 0} (server : RedisServer V R) where
  unfoldable pub cache_get : ℕ → String → Client R → Option V
  cache_get now k no_client = none
  cache_get now k (failing r) = none
  cache_get now k (connected r) = server.get now k r

  unfoldable pub cache_set : ℕ → String → V → ℕ → Client R → Client R
  cache_set now k v seconds no_client = no_client
  cache_set now k v seconds (failing r) = failing r
  cache_set now k v seconds (connected r) = connected (server.set now k v seconds r)

  unfoldable pub cache_del : ℕ → String → Client R → Client R
  cache_del now k no_client = no_client
  cache_del now k (failing r) = failing r
  cache_del now k (connected r) = connected (server.del now k r)

  -- SET with NX sets nothing if there is a value.
  unfoldable pub cache_set_nx : ℕ → String → V → ℕ → Client R → Client R × Bool
  cache_set_nx now k v seconds no_client = (no_client, true)
  cache_set_nx now k v seconds (failing r) = (failing r, false)
  cache_set_nx now k v seconds (connected r) = elim (server.get now k r) [
    | none ↦ (connected (server.set now k v seconds r), true)
    | some w ↦ (connected r, false)
  ]
