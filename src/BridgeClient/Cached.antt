-- ===== src/BridgeClient/Cached.antt =====
-- The reads of the client through its cache: `getQuote`, `getStatus`, `health`, `triggerBackgroundRefresh`,
-- `invalidateQuoteCache`. Each read is split at its await: `look_up` until the request is made or
-- the value returned, `fetched` after the request; a refresh in the background ends by `refresh_ended`.
use c_address_onboarding_bri.Prelude.{
  or_else, ℕ, String, Bool, true, false, not, Option, none, some, if◌then◌else◌, List, ◌∷◌, ◌===◌,
  any, select,
}
use c_address_onboarding_bri.Prelude.Result.{Result, ok, err}
use c_address_onboarding_bri.Json.{◌+++◌}
use c_address_onboarding_bri.JsText.{is_blank}
use c_address_onboarding_bri.SimpleCache.{SimpleCache}
use c_address_onboarding_bri.SimpleCache
use c_address_onboarding_bri.SdkErrors.{Thrown, bridge_thrown, validation_error}

pub record CacheOptions : Type 0 where
  pub quote_ttl_ms : Option ℕ
  pub status_ttl_ms : Option ℕ
  pub health_ttl_ms : Option ℕ
  pub stale_while_revalidate : Option Bool

-- What is read, with the parameters that its key is made of; a quote's asset is resolved before.
pub data Query : Type 0 where
  quote : String → String → String → Query
  status : String → Query
  health : Query

unfoldable pub cache_key : Query → String
cache_key (quote source_asset amount target_address) =
    "quote:" +++ source_asset +++ ":" +++ amount +++ ":" +++ target_address
cache_key (status tx_hash) = "status:" +++ tx_hash
cache_key health = "health"

unfoldable pub get_cache_option : Query → Option CacheOptions → ℕ → ℕ
get_cache_option q none fallback = fallback
get_cache_option (quote source_asset amount target_address) (some o) fallback =
    or_else o.quote_ttl_ms fallback
get_cache_option (status tx_hash) (some o) fallback = or_else o.status_ttl_ms fallback
get_cache_option health (some o) fallback = or_else o.health_ttl_ms fallback

abbrev pub default_ttl : Query → ℕ
default_ttl (quote source_asset amount target_address) = 15000
default_ttl (status tx_hash) = 5000
default_ttl health = 30000

unfoldable pub get_ttl : Query → Option CacheOptions → ℕ
get_ttl q options = get_cache_option q options (default_ttl q)

unfoldable pub should_use_stale_while_revalidate : Option CacheOptions → Bool
should_use_stale_while_revalidate none = true
should_use_stale_while_revalidate (some o) = or_else o.stale_while_revalidate true

-- The check at the start of `getStatus`; the other reads check nothing.
unfoldable pub check_query : Query → Result Thrown (Unit {0})
check_query (status tx_hash) =
    if is_blank tx_hash then err (bridge_thrown (validation_error none none)) else ok tt
check_query (quote source_asset amount target_address) = ok tt
check_query health = ok tt

pub record ClientState (J : Type 0) : Type 0 where
  pub cache : SimpleCache J
  pub refreshing : List String

-- What a read comes to: a value, with whether a refresh was started, or a request to be made.
pub data Found (J : Type 0) : Type 0 where
  hit : J → Bool → Found J
  miss : Found J

module _ {J : Type 0} (options : Option CacheOptions) where
  -- `this.refreshing` is a set of keys.
  unfoldable pub trigger_background_refresh : String → ClientState J → ClientState J × Bool
  trigger_background_refresh key st =
      if any (λ k. k === key) st.refreshing
      then (st, false)
      else (record st { refreshing = key ∷ st.refreshing }, true)

  abbrev pub served : String → J × Bool → ClientState J → ClientState J × Found J
  served key (value, false) st = (st, hit value false)
  served key (value, true) st =
      let (after, started) = trigger_background_refresh key st in (after, hit value started)

  abbrev pub answered : String → Option (J × Bool) → ClientState J → ClientState J × Found J
  answered key none st = (st, miss)
  answered key (some cached) st = served key cached st

  unfoldable pub look_up : ℕ → Query → ClientState J → ClientState J × Found J
  look_up now q st =
      let (cache, found) = SimpleCache.get now (cache_key q) st.cache in
      let after = record st { cache = cache } in answered (cache_key q) found after

  unfoldable pub store : ℕ → Query → J → ClientState J → ClientState J
  store now q value st = record st {
    cache =
        SimpleCache.set now (cache_key q) value (get_ttl q options)
          (should_use_stale_while_revalidate options) st.cache;
  }

  -- After the request of a miss.
  unfoldable pub fetched : ℕ → Query → Result Thrown J → ClientState J → ClientState J
  fetched now q (ok value) st = store now q value st
  fetched now q (err thrown) st = st

  unfoldable pub refresh_ended : ℕ → Query → Result Thrown J → ClientState J → ClientState J
  refresh_ended now q result st =
      let after = fetched now q result st in
      record after { refreshing = select (λ k. not (k === cache_key q)) after.refreshing }

  unfoldable pub invalidate_quote_cache : String → String → String → ClientState J → ClientState J
  invalidate_quote_cache source_asset amount target_address st = record st {
    cache = SimpleCache.invalidate (cache_key (quote source_asset amount target_address)) st.cache;
  }
