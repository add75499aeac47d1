-- ===== src/RpcPool/Tests.antt =====
-- The pool at concrete inputs.
use c_address_onboarding_bri.Prelude.{
  ℕ, ◌≡◌, refl, true, false, some, none, [], ◌∷◌, arith, if◌then◌else◌, ◌===◌, inl, inr, String,
  List, get_elem?, ◌+◌, ◌%◌, length,
}
use c_address_onboarding_bri.CircuitBreaker.{CircuitBreaker, open_state}
use c_address_onboarding_bri.RpcPool
use c_address_onboarding_bri.RpcPool.{
  Provider, RpcPool, round_robin, latency, Reply, answers, fails, Outcome, returned, thrown,
  select_provider, healthy_providers, execute_with_failover, execute, Probe, alive, dead,
  run_health_checks, measured, position_at,
}
use c_address_onboarding_bri.RpcPool.Selection.{IsHealthyAt, select_provider-IsHealthyAt}
use c_address_onboarding_bri.RpcPool.RoundRobin.{selections, selections-round_robin}
use c_address_onboarding_bri.RpcPool.Failover.{urls}
use c_address_onboarding_bri.RpcPool.Exhaustive.{Explained, execute_with_failover-Explained}
use c_address_onboarding_bri.RpcPool.Health.{IsSoundAt, execute_with_failover-IsSound}

abbrev first : Provider
first = record {
  url = "https://a";
  healthy = true;
  consecutive_failures = 0;
  last_failure_at = none;
  last_latency_ms = some 40;
  total_requests = 0;
  total_failures = 0;
}

abbrev second : Provider
second = record first { url = "https://b"; last_latency_ms = some 25 }

abbrev down : Provider
down = record first {
  url = "https://c";
  healthy = false;
  consecutive_failures = 3;
  last_failure_at = some 1000;
}

abbrev three : RpcPool
three = record {
  providers = first ∷ down ∷ second ∷ [];
  rr_index = 1;
  strategy = round_robin;
  failure_threshold = 3;
  recovery_interval_ms = 500;
}

abbrev quickest : RpcPool
quickest = record three { strategy = latency }

-- Only the second address answers.
abbrev network : ℕ → String → Reply ℕ
network attempt u = if u === "https://b" then answers 10 15 7 else fails 12 "refused"

abbrev undisturbed : ℕ → RpcPool → RpcPool
undisturbed attempt pool = pool

abbrev draws : ℕ → ℕ
draws attempt = 0

abbrev offline : ℕ → String → Reply ℕ
offline attempt u = fails 12 "refused"

run-offline : (execute_with_failover offline undisturbed draws three).1 ≡ thrown (some "refused")
unfolding execute_with_failover RpcPool.failover RpcPool.target select_provider healthy_providers
    RpcPool.select_by RpcPool.after_call RpcPool.mark_failure
run-offline = refl

select_provider-IsHealthyAt_example : IsHealthyAt three.providers (select_provider 0 three).1
select_provider-IsHealthyAt_example =
    select_provider-IsHealthyAt 0 three (unfold healthy_providers in omega arith)

execute_with_failover-Explained_example :
    Explained network undisturbed draws
      (urls three)
      (execute_with_failover network undisturbed draws three).1
execute_with_failover-Explained_example =
    execute_with_failover-Explained network undisturbed draws (λ attempt q. refl) three

execute_with_failover-IsSound_example :
    IsSoundAt 3 (execute_with_failover network undisturbed draws three).0
execute_with_failover-IsSound_example =
    execute_with_failover-IsSound network undisturbed draws 3 (omega arith) (λ attempt q h. h) three
      (refl, (inr (omega arith), (inl refl, (inr (omega arith), tt))))

abbrev tripped : CircuitBreaker
tripped = record {
  state = open_state;
  failure_count = 5;
  success_count = 0;
  last_failure_time = some 10;
  half_open_requests = 0;
  failure_threshold = 5;
  reset_timeout = 100;
  half_open_max_requests = 3;
}

abbrev probes : ℕ → Probe
probes i = alive 1600 1610

abbrev both_healthy : List (ℕ × Provider)
both_healthy = (0, first) ∷ (1, second) ∷ []

abbrev in_turn : RpcPool
in_turn = record three { strategy = round_robin; providers = first ∷ second ∷ []; rr_index = 1 }

are_both_healthy : healthy_providers in_turn ≡ both_healthy
unfolding healthy_providers
are_both_healthy = refl

selections-round_robin_example :
    get_elem? (selections 3 in_turn) 2
    ≡ some (position_at both_healthy ((in_turn.rr_index + 2) % length both_healthy))
selections-round_robin_example =
    selections-round_robin 3 2 in_turn both_healthy refl are_both_healthy (omega arith)
      (omega arith)
