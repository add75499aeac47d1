-- ===== src/Health/Overall.antt =====
-- The overall status of api/src/services/health.ts, and its cache.
use c_address_onboarding_bri.Prelude.{
  ℕ, Bool, true, false, not, Option, none, some, ◌-◌, ◌+◌, ◌<◌, ◌&&◌, if◌then◌else◌, ltb, List, [],
  ◌∷◌, any, select, length, ◌≡◌, refl, sym, ap, ◌∙◌, arith,
}
use c_address_onboarding_bri.RpcPool.{Provider}
use c_address_onboarding_bri.Health.{
  Status, ok, degraded, unhealthy, HealthStatus, HealthCache, Ending, good, bad, thrown,
  check_database, check_redis, check_soroban, status_of, Surroundings, Metrics, listed, unreadable,
  check_all, usable, get_health_status, cache_ttl_ms,
}

-- Whether the answers of the database and of Redis, if there is one, were good.
abbrev pub is_good : Ending → Bool
is_good good = true
is_good (bad e) = false
is_good (thrown e) = false

abbrev pub is_good_or_absent : Option Ending → Bool
is_good_or_absent none = true
is_good_or_absent (some e) = is_good e

-- Whether the pool tells of a healthy provider.
abbrev pub has_healthy : Metrics → Bool
has_healthy (listed ps) = any (λ m. m.healthy) ps
has_healthy (unreadable e) = false

some_healthy :
    (ps : List Provider) → ltb 0 (length (select (λ m. m.healthy) ps)) ≡ any (λ m. m.healthy) ps
some_healthy [] = refl
some_healthy (p ∷ ps) = let rest = some_healthy ps in ground arith

abbrev overall : Ending → Option Ending → Metrics → Status
overall d r m =
    if not (has_healthy m)
    then unhealthy
    else if is_good d && is_good_or_absent r
    then ok
    else degraded

status_of_lem :
    (now t u v : ℕ) (d : Ending) (r : Option Ending) (m : Metrics)
    → status_of (
        ("database", check_database now t d)
        ∷ ("redis", check_redis now u r)
        ∷ ("soroban", check_soroban now v m)
        ∷ [])
      ≡ overall d r m
unfolding status_of check_database check_redis check_soroban
status_of_lem now t u v good none (listed ps) = ground (arith, some_healthy ps)
status_of_lem now t u v good none (unreadable x) = ground arith
status_of_lem now t u v good (some good) (listed ps) = ground (arith, some_healthy ps)
status_of_lem now t u v good (some good) (unreadable x) = ground arith
status_of_lem now t u v good (some (bad e')) (listed ps) = ground (arith, some_healthy ps)
status_of_lem now t u v good (some (bad e')) (unreadable x) = ground arith
status_of_lem now t u v good (some (thrown e')) (listed ps) = ground (arith, some_healthy ps)
status_of_lem now t u v good (some (thrown e')) (unreadable x) = ground arith
status_of_lem now t u v (bad e) none (listed ps) = ground (arith, some_healthy ps)
status_of_lem now t u v (bad e) none (unreadable x) = ground arith
status_of_lem now t u v (bad e) (some good) (listed ps) = ground (arith, some_healthy ps)
status_of_lem now t u v (bad e) (some good) (unreadable x) = ground arith
status_of_lem now t u v (bad e) (some (bad e')) (listed ps) = ground (arith, some_healthy ps)
status_of_lem now t u v (bad e) (some (bad e')) (unreadable x) = ground arith
status_of_lem now t u v (bad e) (some (thrown e')) (listed ps) = ground (arith, some_healthy ps)
status_of_lem now t u v (bad e) (some (thrown e')) (unreadable x) = ground arith
status_of_lem now t u v (thrown e) none (listed ps) = ground (arith, some_healthy ps)
status_of_lem now t u v (thrown e) none (unreadable x) = ground arith
status_of_lem now t u v (thrown e) (some good) (listed ps) = ground (arith, some_healthy ps)
status_of_lem now t u v (thrown e) (some good) (unreadable x) = ground arith
status_of_lem now t u v (thrown e) (some (bad e')) (listed ps) = ground (arith, some_healthy ps)
status_of_lem now t u v (thrown e) (some (bad e')) (unreadable x) = ground arith
status_of_lem now t u v (thrown e) (some (thrown e')) (listed ps) = ground (arith, some_healthy ps)
status_of_lem now t u v (thrown e) (some (thrown e')) (unreadable x) = ground arith

abbrev answer : ℕ → Surroundings → HealthCache → Option HealthStatus → HealthCache × HealthStatus
answer now w c o = elim o [
  | some s ↦ (c, s)
  | none ↦ (record { cached = some (check_all now w); cached_at = now }, check_all now w)
]

-- A call that does not answer from the cache tells unhealthy exactly when no RPC provider is healthy,
-- or the pool's metrics cannot be read, otherwise ok when the database answered well and Redis too or is not in use, otherwise degraded; and
-- a further call in the next five seconds without force gives the same status and checks nothing.
pub get_health_status_lem :
    (force : Bool) (now later : ℕ) (w w' : Surroundings) (c : HealthCache)
    → usable force now c ≡ none
    → later < now + 5000
    → (get_health_status force now w c).1.status ≡ (
        if not (has_healthy w.metrics)
        then unhealthy
        else if is_good w.database && is_good_or_absent w.redis
        then ok
        else degraded)
      × get_health_status false later w' (get_health_status force now w c).0
        ≡ get_health_status force now w c
unfolding get_health_status check_all usable cache_ttl_ms
get_health_status_lem force now later w w' c fresh soon =
    let checked = answer now w c none in
    let first : get_health_status force now w c ≡ checked = ap (λ o. answer now w c o) fresh in
    let recent : ltb (later - now) 5000 ≡ true = ground arith in
    let again : get_health_status false later w' checked.0 ≡ checked =
      ap (λ b. answer later w' checked.0 (if b then checked.0.cached else none)) recent in
    (
      ap (λ q. q.1.status) first
          ∙ status_of_lem now w.database_end w.redis_end w.soroban_end w.database w.redis w.metrics,
      ap (λ q. get_health_status false later w' q.0) first ∙ (again ∙ sym first),
    )
