-- ===== src/CircuitBreaker/Invariant.antt =====
-- The invariant of the breaker under every interleaving of calls, and the probes that it admits.
use c_address_onboarding_bri.Prelude.{
  ℕ, ◌≡◌, refl, ◌≢◌, ◌↔◌, subst, ◌≤◌, ◌<◌, ◌+◌, Bool, true, false, Option, none, some, List, [],
  ◌∷◌, arith,
}
use c_address_onboarding_bri.CircuitBreaker.{
  CircuitBreaker, CircuitState, closed, open_state, half_open, init, transition, probe, admit,
  on_success, trip, on_failure, settle,
}

-- What the counters say in each state.
abbrev pub ConsistentIn : CircuitState → CircuitBreaker → Type 0
ConsistentIn closed b = b.failure_count < b.failure_threshold
ConsistentIn open_state b = b.last_failure_time ≢ none
ConsistentIn half_open b = (b.failure_count ≡ 0) × (b.half_open_requests ≤ b.half_open_max_requests)

abbrev pub IsConsistent : CircuitBreaker → Type 0
IsConsistent b = ConsistentIn b.state b

admit-IsConsistent : (now : ℕ) (b : CircuitBreaker) → IsConsistent b → IsConsistent (admit now b).0
unfolding admit probe transition
admit-IsConsistent now b v = ground arith

settle-IsConsistent :
    (now : ℕ) (ok : Bool) (b : CircuitBreaker)
    → 0 < b.failure_threshold
    → IsConsistent b
    → IsConsistent (settle now ok b)
unfolding settle on_success on_failure trip transition
settle-IsConsistent now true b p v = ground arith
settle-IsConsistent now false b p v = ground arith

-- The calls of several clients as one sequence: a call arrives, or an admitted call ends.
pub data Event : Type 0 where
  arrives : ℕ → Event
  ends : ℕ → Bool → Event

unfoldable pub step : CircuitBreaker → Event → CircuitBreaker
step b (arrives now) = (admit now b).0
step b (ends now ok) = settle now ok b

unfoldable pub run : CircuitBreaker → List Event → CircuitBreaker
run b [] = b
run b (e ∷ es) = run (step b e) es

step-failure_threshold :
    (b : CircuitBreaker) (e : Event) → (step b e).failure_threshold ≡ b.failure_threshold
unfolding step admit probe transition settle on_success on_failure trip
step-failure_threshold b (arrives now) = ground arith
step-failure_threshold b (ends now true) = ground arith
step-failure_threshold b (ends now false) = ground arith

step-IsConsistent :
    (b : CircuitBreaker) (e : Event)
    → 0 < b.failure_threshold
    → IsConsistent b
    → IsConsistent (step b e)
unfolding step
step-IsConsistent b (arrives now) p v = admit-IsConsistent now b v
step-IsConsistent b (ends now ok) p v = settle-IsConsistent now ok b p v

-- Under every interleaving of arriving and ending calls, a breaker with a positive threshold stays
-- consistent: closed means fewer failures in a row than the threshold, open means that a failure
-- time is recorded (so that the non-null assertion of `execute` holds), and half-open means no
-- failure counted and no more probes admitted than the limit.
pub run-IsConsistent :
    (b : CircuitBreaker) (es : List Event)
    → 0 < b.failure_threshold
    → IsConsistent b
    → IsConsistent (run b es)
unfolding run
run-IsConsistent b [] p v = v
run-IsConsistent b (e ∷ es) p v =
    run-IsConsistent (step b e) es (omega (arith, step-failure_threshold b e))
      (step-IsConsistent b e p v)

pub init-IsConsistent :
    (threshold timeout max_requests : ℕ)
    → 0 < threshold
    → IsConsistent (init (some threshold) (some timeout) (some max_requests))
unfolding init
init-IsConsistent threshold timeout max_requests p = ground arith

-- When `execute` may call through: an independent description of its guards.
pub data MayCall (now : ℕ) (b : CircuitBreaker) : Type 0 where
  while_closed : b.state ≡ closed → MayCall now b
  as_probe : b.state ≡ half_open → b.half_open_requests < b.half_open_max_requests → MayCall now b
  as_first_probe :
      (failed : ℕ)
      → b.state ≡ open_state
      → b.last_failure_time ≡ some failed
      → failed + b.reset_timeout ≤ now
      → 0 < b.half_open_max_requests
      → MayCall now b

MayCall-of_admit :
    (now : ℕ) (b : CircuitBreaker) (s : CircuitState) (t : Option ℕ)
    → b.state ≡ s
    → b.last_failure_time ≡ t
    → IsConsistent b
    → (admit now b).1 ≡ true
    → MayCall now b
unfolding admit probe transition
MayCall-of_admit now b closed t e f v h = while_closed e
MayCall-of_admit now b half_open t e f v h = as_probe e (ground arith)
MayCall-of_admit now b open_state none e f v h = absurd (subst (λ s. ConsistentIn s b) e v f)
MayCall-of_admit now b open_state (some failed) e f v h =
    as_first_probe failed e f (ground arith) (ground arith)

admit_of_MayCall : (now : ℕ) (b : CircuitBreaker) → MayCall now b → (admit now b).1 ≡ true
unfolding admit probe transition
admit_of_MayCall now b (while_closed e) = ground arith
admit_of_MayCall now b (as_probe e h) = ground arith
admit_of_MayCall now b (as_first_probe failed e f h p) = ground arith

-- A consistent breaker lets a call through exactly when it is closed, or half-open with a probe
-- left, or open with the reset timeout over since the last failure and at least one probe allowed.
pub admit_iff :
    (now : ℕ) (b : CircuitBreaker) → IsConsistent b → ((admit now b).1 ≡ true) ↔ MayCall now b
admit_iff now b v =
    (MayCall-of_admit now b b.state b.last_failure_time refl refl v, admit_of_MayCall now b)
