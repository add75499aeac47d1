-- ===== src/CircuitBreaker/Tests.antt =====
-- The breaker at concrete inputs.
use c_address_onboarding_bri.Prelude.{◌≡◌, refl, ◌↔◌, true, false, some, none, List, [], ◌∷◌, arith}
use c_address_onboarding_bri.CircuitBreaker.{
  CircuitBreaker, closed, open_state, half_open, circuit_open, init, admit, settle, execute,
}
use c_address_onboarding_bri.CircuitBreaker.Invariant.{
  IsConsistent, Event, arrives, ends, run, run-IsConsistent, MayCall, admit_iff,
}
use c_address_onboarding_bri.CircuitBreaker.Recovery.{execute_all, open_recovers}

abbrev two_strikes : CircuitBreaker
two_strikes = record {
  state = closed;
  failure_count = 0;
  success_count = 0;
  last_failure_time = none;
  half_open_requests = 0;
  failure_threshold = 2;
  reset_timeout = 100;
  half_open_max_requests = 2;
}

abbrev tripped : CircuitBreaker
tripped = record two_strikes { state = open_state; failure_count = 2; last_failure_time = some 10 }

abbrev probing : CircuitBreaker
probing = record two_strikes {
  state = half_open;
  last_failure_time = some 10;
  half_open_requests = 2;
}

abbrev interleaved : List Event
interleaved = arrives 1 ∷ arrives 2 ∷ ends 3 false ∷ ends 4 false ∷ arrives 200 ∷ ends 201 true ∷ []

run-interleaved : (run two_strikes interleaved).state ≡ half_open
unfolding run settle admit
run-interleaved =
    unfold c_address_onboarding_bri.CircuitBreaker.Invariant.step
      c_address_onboarding_bri.CircuitBreaker.on_failure
      c_address_onboarding_bri.CircuitBreaker.on_success
      c_address_onboarding_bri.CircuitBreaker.transition
      c_address_onboarding_bri.CircuitBreaker.probe in
    refl

default_threshold : (init none none none).failure_threshold ≡ 5
unfolding init
default_threshold = refl

run-IsConsistent_example : IsConsistent (run two_strikes interleaved)
run-IsConsistent_example = run-IsConsistent two_strikes interleaved (omega arith) (omega arith)

admit_iff_example : ((admit 110 tripped).1 ≡ true) ↔ MayCall 110 tripped
admit_iff_example = admit_iff 110 tripped (λ e. cc)

open_recovers_example :
    ((execute_all true ((110, 111) ∷ (112, 113) ∷ []) tripped).state ≡ closed)
    × ((execute_all true ((110, 111) ∷ (112, 113) ∷ []) tripped).failure_count ≡ 0)
open_recovers_example =
    open_recovers tripped 10 110 111 ((112, 113) ∷ []) refl refl (omega arith) (omega arith)
