-- ===== src/CircuitBreaker.antt =====
-- The circuit breaker, api/src/circuit-breaker.ts. `Date.now()` is the argument `now`. `execute` awaits
-- the wrapped call, so it is two operations, `admit` before the wait and `settle` after it; whatever
-- other calls do in between stands between the two.
pub mod Invariant
pub mod Recovery
mod Tests
use c_address_onboarding_bri.Prelude.{
  ℕ, String, Bool, true, false, Option, none, some, ◌&&◌, ◌+◌, ◌-◌, if◌then◌else◌, ltb, leb, ◌==◌,
  List, [], ◌∷◌,
}

pub data CircuitState : Type 0 where
  closed open_state half_open : CircuitState

abbrev pub is_closed : CircuitState → Bool
is_closed closed = true
is_closed _ = false

abbrev pub is_open : CircuitState → Bool
is_open open_state = true
is_open _ = false

abbrev pub is_half_open : CircuitState → Bool
is_half_open half_open = true
is_half_open _ = false

pub record CircuitBreaker : Type 0 where
  pub state : CircuitState
  pub failure_count : ℕ
  pub success_count : ℕ
  pub last_failure_time : Option ℕ
  pub half_open_requests : ℕ
  pub failure_threshold : ℕ
  pub reset_timeout : ℕ
  pub half_open_max_requests : ℕ

-- The constructor, with the configuration's values where it gives them.
abbrev with_default : Option ℕ → ℕ → ℕ
with_default none d = d
with_default (some x) d = x

unfoldable pub init : Option ℕ → Option ℕ → Option ℕ → CircuitBreaker
init threshold timeout max_requests = record {
  state = closed;
  failure_count = 0;
  success_count = 0;
  last_failure_time = none;
  half_open_requests = 0;
  failure_threshold = with_default threshold 5;
  reset_timeout = with_default timeout 30000;
  half_open_max_requests = with_default max_requests 3;
}

unfoldable pub transition : CircuitState → CircuitBreaker → CircuitBreaker
transition next b =
    if is_half_open next
    then record b { state = next; half_open_requests = 0; failure_count = 0 }
    else record b { state = next }

-- `Date.now() - this.lastFailureTime! >= this.resetTimeout`; a null is read as 0.
abbrev pub timeout_over : ℕ → CircuitBreaker → Bool
timeout_over now b = leb (with_default b.last_failure_time 0 + b.reset_timeout) now

-- The second and the third test of `execute`: the limit on probes, and the count of this one.
unfoldable pub probe : CircuitBreaker → CircuitBreaker × Bool
probe b =
    if is_half_open b.state && leb b.half_open_max_requests b.half_open_requests
    then (b, false)
    else if is_half_open b.state
    then (record b { half_open_requests = b.half_open_requests + 1 }, true)
    else (b, true)

-- `execute` up to the call of `fn`; false is the `CircuitOpenError`.
unfoldable pub admit : ℕ → CircuitBreaker → CircuitBreaker × Bool
admit now b =
    if is_open b.state
    then if timeout_over now b then probe (transition half_open b) else (b, false)
    else probe b

-- `halfOpenRequests - failureCount >= halfOpenMaxRequests`, over the integers.
unfoldable pub on_success : CircuitBreaker → CircuitBreaker
unfolding transition
on_success b =
    if is_half_open b.state
    then if leb (b.half_open_max_requests + b.failure_count) b.half_open_requests
      then transition closed (record b {
        success_count = b.success_count + 1;
        failure_count = 0;
        half_open_requests = 0;
      })
      else record b { success_count = b.success_count + 1 }
    else record b { success_count = b.success_count + 1; failure_count = 0 }

-- The part of `onFailure` after the counters are written.
unfoldable pub trip : CircuitBreaker → CircuitBreaker
unfolding transition
trip b =
    if is_half_open b.state
    then transition open_state (record b { half_open_requests = 0 })
    else if is_closed b.state && leb b.failure_threshold b.failure_count
    then transition open_state b
    else b

unfoldable pub on_failure : ℕ → CircuitBreaker → CircuitBreaker
unfolding trip
on_failure now b =
    trip (record b { failure_count = b.failure_count + 1; last_failure_time = some now })

-- `execute` after the wait: whether `fn` resolved.
unfoldable pub settle : ℕ → Bool → CircuitBreaker → CircuitBreaker
settle now true b = on_success b
settle now false b = on_failure now b

pub data Outcome : Type 0 where
  resolved rejected circuit_open : Outcome

-- `execute` of one call that nothing else interleaves with, which ends at `later`.
unfoldable pub execute : ℕ → ℕ → Bool → CircuitBreaker → CircuitBreaker × Outcome
execute now later ok b =
    let (b', admitted) = admit now b in
    if admitted then (settle later ok b', if ok then resolved else rejected) else (b', circuit_open)
