-- ===== src/CircuitBreaker/Recovery.antt =====
-- How the breaker trips and how it recovers.
use c_address_onboarding_bri.Prelude.{
  ℕ, suc, ◌≡◌, refl, ◌≤◌, ◌<◌, ◌+◌, Bool, true, false, some, List, [], ◌∷◌, arith, length, ◌∙◌, sym,
  subst, if◌then◌else◌, ltb,
}
use c_address_onboarding_bri.CircuitBreaker.{
  CircuitBreaker, closed, open_state, half_open, circuit_open, transition, probe, admit, on_success,
  trip, on_failure, settle, execute,
}
use c_address_onboarding_bri.CircuitBreaker.Invariant.{IsConsistent}

-- Calls one after the other, all with the same outcome, each with its start and its end.
unfoldable pub execute_all : Bool → List (ℕ × ℕ) → CircuitBreaker → CircuitBreaker
execute_all ok [] b = b
execute_all ok ((now, later) ∷ calls) b = execute_all ok calls (execute now later ok b).0

-- Half-open with `k` probes done, or closed again if that was the last.
pub record AfterProbes (k : ℕ) (b : CircuitBreaker) : Type 0 where
  pub counted : b.half_open_requests ≡ k
  pub clean : b.failure_count ≡ 0
  pub probing : b.state ≡ half_open

probe_success :
    (now later k : ℕ) (b : CircuitBreaker)
    → AfterProbes k b
    → suc k < b.half_open_max_requests
    → AfterProbes (suc k) (execute now later true b).0
      × ((execute now later true b).0.half_open_max_requests ≡ b.half_open_max_requests)
unfolding execute admit probe settle on_success transition
probe_success now later k b p h = (ground arith, ground arith)

last_probe :
    (now later k : ℕ) (b : CircuitBreaker)
    → AfterProbes k b
    → suc k ≡ b.half_open_max_requests
    → ((execute now later true b).0.state ≡ closed)
      × ((execute now later true b).0.failure_count ≡ 0)
unfolding execute admit probe settle on_success transition
last_probe now later k b p h = (ground arith, ground arith)

probes_close :
    (calls : List (ℕ × ℕ)) (k : ℕ) (b : CircuitBreaker)
    → AfterProbes k b
    → k + length calls ≡ b.half_open_max_requests
    → 0 < length calls
    → ((execute_all true calls b).state ≡ closed) × ((execute_all true calls b).failure_count ≡ 0)
unfolding execute_all
probes_close [] k b p e h = absurd (omega arith)
probes_close ((now, later) ∷ []) k b p e h = last_probe now later k b p (omega arith)
probes_close ((now, later) ∷ c ∷ calls) k b p e h =
    let (q, same) = probe_success now later k b p (omega arith) in
    probes_close (c ∷ calls) (suc k) (execute now later true b).0 q (omega arith) (omega arith)

reopened : CircuitBreaker → CircuitBreaker
unfolding transition
reopened b = transition half_open b

admit_of_open :
    (now later failed : ℕ) (b : CircuitBreaker)
    → b.state ≡ open_state
    → b.last_failure_time ≡ some failed
    → failed + b.reset_timeout ≤ now
    → (execute now later true b).0 ≡ (execute now later true (reopened b)).0
unfolding execute admit reopened transition
admit_of_open now later failed b e f h = ground arith

-- An open breaker recovers: once the reset timeout is over, as many successful calls in a row as
-- probes are allowed (at least one) close it, with the failure count at zero.
pub open_recovers :
    (b : CircuitBreaker) (failed now later : ℕ) (calls : List (ℕ × ℕ))
    → b.state ≡ open_state
    → b.last_failure_time ≡ some failed
    → failed + b.reset_timeout ≤ now
    → suc (length calls) ≡ b.half_open_max_requests
    → ((execute_all true ((now, later) ∷ calls) b).state ≡ closed)
      × ((execute_all true ((now, later) ∷ calls) b).failure_count ≡ 0)
unfolding execute_all
open_recovers b failed now later calls e f h n =
    subst
      (λ c.
        ((execute_all true calls c).state ≡ closed)
        × ((execute_all true calls c).failure_count ≡ 0))
      (sym (admit_of_open now later failed b e f h))
      (probes_close ((now, later) ∷ calls) 0 (reopened b) fresh maxed (omega arith))
  where
    fresh : AfterProbes 0 (reopened b)
    fresh = unfold reopened transition in record { counted = refl; clean = refl; probing = refl }

    maxed : 0 + length ((now, later) ∷ calls) ≡ (reopened b).half_open_max_requests
    maxed = unfold reopened transition in omega arith

fail_once :
    (now later : ℕ) (b : CircuitBreaker)
    → b.state ≡ closed
    → let c = (execute now later false b).0 in
      (c.failure_count ≡ b.failure_count + 1)
      × (c.failure_threshold ≡ b.failure_threshold)
      × ((b.failure_threshold ≤ b.failure_count + 1) → c.state ≡ open_state)
      × ((b.failure_count + 1 < b.failure_threshold) → c.state ≡ closed)
unfolding execute admit probe settle on_failure trip transition
fail_once now later b e = (ground arith, ground arith, λ h. ground arith, λ h. ground arith)

-- Failures in a row open a closed breaker when, counted with those before, they reach the
-- threshold, and no earlier: it stays closed below the threshold, and is open at it.
pub failures_open :
    (calls : List (ℕ × ℕ)) (b : CircuitBreaker)
    → b.state ≡ closed
    → b.failure_count < b.failure_threshold
    → b.failure_count + length calls ≤ b.failure_threshold
    → (execute_all false calls b).state
      ≡ (if ltb (b.failure_count + length calls) b.failure_threshold then closed else open_state)
unfolding execute_all
failures_open [] b e h n = ground arith
failures_open ((now, later) ∷ []) b e h n =
    let (_, _, opens, stays) = fail_once now later b e in ground (arith, opens, stays)
failures_open ((now, later) ∷ c ∷ calls) b e h n =
    let (count, limit, opens, stays) = fail_once now later b e in
    failures_open (c ∷ calls) (execute now later false b).0 (stays (omega arith)) (omega arith)
      (omega arith)
    ∙ ground (arith, count, limit)

-- Until the reset timeout is over, an open breaker answers every call with the open-circuit error
-- and is not changed by it, whatever the call would have done.
pub open_rejects :
    (b : CircuitBreaker) (failed now later : ℕ) (ok : Bool)
    → b.state ≡ open_state
    → b.last_failure_time ≡ some failed
    → now < failed + b.reset_timeout
    → execute now later ok b ≡ (b, circuit_open)
unfolding execute admit
open_rejects b failed now later ok e f h = ground arith

-- The closing test counts admitted probes, not successes: with every probe of the half-open state
-- admitted, the first of them to succeed closes the breaker, however many are still unanswered.
pub first_success_closes :
    (b : CircuitBreaker) (now : ℕ)
    → IsConsistent b
    → b.state ≡ half_open
    → b.half_open_requests ≡ b.half_open_max_requests
    → (settle now true b).state ≡ closed
unfolding settle on_success transition
first_success_closes b now v e h = ground arith
