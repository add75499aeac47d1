-- ===== src/RedisCache/Swr.antt =====
-- Stale-while-revalidate of api/src/services/cache.ts: `swrGet`, `swrSet`, and the reads of `getOrCompute`
-- over them, with the counts of hits and misses.
use c_address_onboarding_bri.Prelude.{
  ℕ, suc, String, Bool, true, false, Option, none, some, ◌+◌, ◌*◌, ◌≤◌, ◌≡◌, if◌then◌else◌, ltb,
  leb, arith, Bool-cases, inl, inr, ap, ◌∙◌,
}
use c_address_onboarding_bri.Json.{◌+++◌}
use c_address_onboarding_bri.RedisCache.{RedisServer, Client, no_client, failing, connected}

unfoldable pub swr_extension_seconds : ℕ
swr_extension_seconds = 5

unfoldable pub build_cache_key : String → String → String → String
build_cache_key cache_version namespace discriminator =
    "v" +++ cache_version +++ ":" +++ namespace +++ ":" +++ discriminator

pub record SwrEntry (T : Type 0) : Type 0 where
  pub value : T
  pub expires_at : ℕ

-- A text of Redis as `JSON.parse` reads it: an entry, JSON without these fields (such as the `1` of a
-- lock), or a text that is not JSON.
pub data Stored (T : Type 0) : Type 0 where
  entry : SwrEntry T → Stored T
  other_json : Stored T
  not_json : Stored T

pub record CacheMetrics : Type 0 where
  pub hits : ℕ
  pub misses : ℕ

unfoldable pub record_hit : CacheMetrics → CacheMetrics
record_hit m = record m { hits = suc m.hits }

unfoldable pub record_miss : CacheMetrics → CacheMetrics
record_miss m = record m { misses = suc m.misses }

-- What `getOrCompute` does with what it finds: return it, return it and revalidate in the background
-- under single flight, or compute under single flight.
pub data Decision (T : Type 0) : Type 0 where
  return_fresh : T → Decision T
  return_stale : T → Decision T
  compute : Decision T

-- `through_json` is `JSON.parse(JSON.stringify(value))`, none if the text cannot be made.
module _ {T R : Type 0} (server : RedisServer (Stored T) R) (undefined : T)
    (through_json : T → Option T) where
  -- The value and whether it is stale; `undefined` is what a missing field reads as.
  abbrev pub parsed : ℕ → Option (Stored T) → CacheMetrics → CacheMetrics × Option (T × Bool)
  parsed now none m = (record_miss m, none)
  parsed now (some (entry e)) m = (record_hit m, some (e.value, ltb e.expires_at now))
  parsed now (some other_json) m = (record_hit m, some (undefined, false))
  parsed now (some not_json) m = (record_miss (record_hit m), none)

  unfoldable pub swr_get : ℕ → String → Client R → CacheMetrics → CacheMetrics × Option (T × Bool)
  swr_get now key no_client m = (m, none)
  swr_get now key (failing r) m = (record_miss m, none)
  swr_get now key (connected r) m = parsed now (server.get now key r) m

  abbrev pub stored_as : ℕ → String → Option T → ℕ → R → R
  stored_as now key none ttl_seconds r = r
  stored_as now key (some value) ttl_seconds r =
      server.set now key (entry (record { value = value; expires_at = now + ttl_seconds * 1000 }))
        (ttl_seconds + swr_extension_seconds) r

  -- A value whose text cannot be made is not stored; the error is logged.
  unfoldable pub swr_set : ℕ → String → T → ℕ → Client R → Client R
  swr_set now key value ttl_seconds no_client = no_client
  swr_set now key value ttl_seconds (failing r) = failing r
  swr_set now key value ttl_seconds (connected r) =
      connected (stored_as now key (through_json value) ttl_seconds r)

  abbrev pub decide : Option (T × Bool) → Decision T
  decide none = compute
  decide (some (value, false)) = return_fresh value
  decide (some (value, true)) = return_stale value

  unfoldable pub get_or_compute : ℕ → String → Client R → CacheMetrics → CacheMetrics × Decision T
  get_or_compute now key client m =
      let (after, found) = swr_get now key client m in (after, decide found)

  abbrev written : ℕ → ℕ → T → SwrEntry T
  written now ttl value = record { value = value; expires_at = now + ttl * 1000 }

  get-written :
      (now later ttl : ℕ) (key : String) (value : T) (r : R)
      → now ≤ later
      → server.get later key (server.set now key (entry (written now ttl value)) (ttl + 5) r) ≡ (
          if ltb later (now + (ttl + 5) * 1000) then some (entry (written now ttl value)) else none)
  get-written now later ttl key value r h = elim (Bool-cases (ltb later (now + (ttl + 5) * 1000))) [
    | inl e ↦
        rw e (
          server.get_set now later key (entry (written now ttl value)) (ttl + 5) r h (ground arith))
    | inr e ↦ rw e (
        server.get_set_expired now later key (entry (written now ttl value)) (ttl + 5) r
          (ground arith))
  ]

  -- After a value was computed for a key and stored in a server that is reached, if nothing else is stored
  -- under the key, `getOrCompute` of this key returns what JSON makes of it as fresh until the time to live
  -- is over, then returns it as stale and revalidates for five seconds, then computes again; it counts one
  -- hit while the value is there, and one miss after.
  get_or_compute-swr_set :
      (now later ttl : ℕ) (key : String) (value read : T) (r : R) (m : CacheMetrics)
      → through_json value ≡ some read
      → now ≤ later
      → get_or_compute later key (swr_set now key value ttl (connected r)) m ≡ (
          if leb later (now + ttl * 1000)
          then (record_hit m, return_fresh read)
          else if ltb later (now + (ttl + 5) * 1000)
          then (record_hit m, return_stale read)
          else (record_miss m, compute))
  unfolding get_or_compute swr_get swr_set swr_extension_seconds
  get_or_compute-swr_set now later ttl key value read r m json h =
      ap
        (λ o.
          let f = parsed later (server.get later key (stored_as now key o ttl r)) m in
          (f.0, decide f.1))
        json
      ∙ ap (λ o. ((parsed later o m).0, decide (parsed later o m).1))
          (get-written now later ttl key read r h)
      ∙ ground arith
