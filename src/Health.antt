-- ===== src/Health.antt =====
-- The health of the service, api/src/services/health.ts, over the providers of RpcPool. How the checks of the
-- database and of Redis end is an argument, and so are the clock, the uptime and the version.
pub mod Overall
mod Tests
use c_address_onboarding_bri.Prelude.{
  ℕ, String, Bool, true, false, not, Option, none, some, ◌-◌, ◌&&◌, ◌||◌, if◌then◌else◌, ltb, List,
  [], ◌∷◌, any, select, length,
}
use c_address_onboarding_bri.RpcPool.{Provider}

pub data Details : Type 0 where
  disabled : Details
  providers : ℕ → ℕ → Details

pub record DependencyHealth : Type 0 where
  pub ok : Bool
  pub critical : Bool
  pub latency_ms : Option ℕ
  pub error : Option String
  pub details : Option Details

pub data Status : Type 0 where
  ok degraded unhealthy : Status

pub record HealthStatus : Type 0 where
  pub status : Status
  pub timestamp : ℕ
  pub version : String
  pub uptime_seconds : ℕ
  pub dependencies : List (String × DependencyHealth)

-- The module's cache.
pub record HealthCache : Type 0 where
  pub cached : Option HealthStatus
  pub cached_at : ℕ

unfoldable pub cache_ttl_ms : ℕ
cache_ttl_ms = 5000

unfoldable pub invalidate_health_cache : HealthCache → HealthCache
invalidate_health_cache c = record { cached = none; cached_at = 0 }

-- How a check ends: with an answer, good or bad, or by throwing.
pub data Ending : Type 0 where
  good : Ending
  bad : Option String → Ending
  thrown : String → Ending

unfoldable pub check_database : ℕ → ℕ → Ending → DependencyHealth
check_database start end good = record {
  ok = true;
  critical = false;
  latency_ms = some (end - start);
  error = none;
  details = none;
}
check_database start end (bad e) = record {
  ok = false;
  critical = false;
  latency_ms = some (end - start);
  error = e;
  details = none;
}
check_database start end (thrown e) = record {
  ok = false;
  critical = false;
  latency_ms = some (end - start);
  error = some e;
  details = none;
}

-- `none`: there is no client. A bad answer to PING is one that is not PONG.
unfoldable pub check_redis : ℕ → ℕ → Option Ending → DependencyHealth
check_redis start end none = record {
  ok = true;
  critical = false;
  latency_ms = none;
  error = none;
  details = some disabled;
}
check_redis start end (some good) = record {
  ok = true;
  critical = false;
  latency_ms = some (end - start);
  error = none;
  details = none;
}
check_redis start end (some (bad e)) = record {
  ok = false;
  critical = false;
  latency_ms = some (end - start);
  error = none;
  details = none;
}
check_redis start end (some (thrown e)) = record {
  ok = false;
  critical = false;
  latency_ms = some (end - start);
  error = some e;
  details = none;
}

-- How `rpcPool.getMetrics()` ends: with the providers, or by throwing.
pub data Metrics : Type 0 where
  listed : List Provider → Metrics
  unreadable : String → Metrics

unfoldable pub check_soroban : ℕ → ℕ → Metrics → DependencyHealth
check_soroban start end (unreadable e) = record {
  ok = false;
  critical = true;
  latency_ms = some (end - start);
  error = some e;
  details = none;
}
check_soroban start end (listed metrics) =
    let healthy_providers = select (λ m. m.healthy) metrics in
    let one = ltb 0 (length healthy_providers) in
    record {
      ok = one;
      critical = true;
      latency_ms = some (end - start);
      error = if one then none else some "No healthy RPC providers";
      details = some (providers (length metrics) (length healthy_providers));
    }

abbrev pub is_down : String × DependencyHealth → Bool
is_down d = not d.1.ok

unfoldable pub status_of : List (String × DependencyHealth) → Status
status_of dependencies =
    if any (λ d. d.1.critical && is_down d) dependencies
    then unhealthy
    else if any is_down dependencies
    then degraded
    else ok

-- What a call meets: when each check ends and how, and what it reads.
pub record Surroundings : Type 0 where
  pub database : Ending
  pub database_end : ℕ
  pub redis : Option Ending
  pub redis_end : ℕ
  pub metrics : Metrics
  pub soroban_end : ℕ
  pub done_at : ℕ
  pub version : String
  pub uptime : ℕ

unfoldable pub check_all : ℕ → Surroundings → HealthStatus
check_all now w =
    let dependencies =
      ("database", check_database now w.database_end w.database)
      ∷ ("redis", check_redis now w.redis_end w.redis)
      ∷ ("soroban", check_soroban now w.soroban_end w.metrics)
      ∷ [] in
    record {
      status = status_of dependencies;
      timestamp = w.done_at;
      version = w.version;
      uptime_seconds = w.uptime;
      dependencies = dependencies;
    }

-- The cached status, while it is one of the last five seconds and no check is forced.
unfoldable pub usable : Bool → ℕ → HealthCache → Option HealthStatus
usable force now c = if not force && ltb (now - c.cached_at) cache_ttl_ms then c.cached else none

unfoldable pub get_health_status :
    Bool → ℕ → Surroundings → HealthCache → HealthCache × HealthStatus
get_health_status force now w c = elim (usable force now c) [
  | some s ↦ (c, s)
  | none ↦
      let result = check_all now w in (record { cached = some result; cached_at = now }, result)
]
