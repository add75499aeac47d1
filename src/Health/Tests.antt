-- ===== src/Health/Tests.antt =====
-- A check with one healthy provider and a bad answer of Redis.
use c_address_onboarding_bri.Prelude.{
  true, false, not, none, some, ◌&&◌, if◌then◌else◌, [], ◌∷◌, ◌≡◌, refl, arith,
}
use c_address_onboarding_bri.RpcPool.{Provider}
use c_address_onboarding_bri.Health.{
  HealthCache, Surroundings, good, bad, ok, listed, degraded, unhealthy, get_health_status, usable,
  cache_ttl_ms,
}
use c_address_onboarding_bri.Health.Overall.{
  is_good, is_good_or_absent, has_healthy, get_health_status_lem,
}

abbrev provider : Provider
provider = record {
  url = "a";
  healthy = true;
  consecutive_failures = 0;
  last_failure_at = none;
  last_latency_ms = none;
  total_requests = 0;
  total_failures = 0;
}

abbrev world : Surroundings
world = record {
  database = good;
  database_end = 12;
  redis = some (bad none);
  redis_end = 13;
  metrics = listed (provider ∷ []);
  soroban_end = 10;
  done_at = 14;
  version = "1";
  uptime = 3;
}

abbrev empty : HealthCache
empty = record { cached = none; cached_at = 0 }

get_health_status_lem_example :
    (get_health_status false 10 world empty).1.status ≡ (
      if not (has_healthy world.metrics)
      then unhealthy
      else if is_good world.database && is_good_or_absent world.redis
      then ok
      else degraded)
    × get_health_status false 20 world (get_health_status false 10 world empty).0
      ≡ get_health_status false 10 world empty
unfolding usable cache_ttl_ms
get_health_status_lem_example =
    get_health_status_lem false 10 20 world world empty refl (omega arith)
