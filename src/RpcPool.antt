-- ===== src/RpcPool.antt =====
-- The pool of Soroban RPC providers, api/src/services/rpcPool.ts. A provider object is its position
-- in the list. The network is a parameter: what the n-th call of `fn` gives, and what other code does
-- to the pool during that call.
pub mod Selection
pub mod Latency
pub mod RoundRobin
pub mod Failover
pub mod Exhaustive
pub mod Health
mod Tests
use c_address_onboarding_bri.Prelude.{
  ℕ, zero, suc, String, Bool, true, false, Option, none, some, ◌+◌, ◌-◌, ◌%◌, if◌then◌else◌, ltb,
  leb, List, [], ◌∷◌, length, get_elem?, select, map, any, find, not, ◌===◌, ◌&&◌,
}
use c_address_onboarding_bri.CircuitBreaker.{CircuitBreaker, admit, settle}

pub record Provider : Type 0 where
  pub url : String
  pub healthy : Bool
  pub consecutive_failures : ℕ
  pub last_failure_at : Option ℕ
  pub last_latency_ms : Option ℕ
  pub total_requests : ℕ
  pub total_failures : ℕ

pub data Strategy : Type 0 where
  round_robin latency random : Strategy

pub record RpcPool : Type 0 where
  pub providers : List Provider
  pub rr_index : ℕ
  pub strategy : Strategy
  pub failure_threshold : ℕ
  pub recovery_interval_ms : ℕ

abbrev new_provider : String → Provider
new_provider url = record {
  url = url;
  healthy = true;
  consecutive_failures = 0;
  last_failure_at = none;
  last_latency_ms = none;
  total_requests = 0;
  total_failures = 0;
}

unfoldable pub init : List String → Strategy → ℕ → ℕ → RpcPool
init rpc_urls strategy threshold recovery = record {
  providers = map new_provider rpc_urls;
  rr_index = 0;
  strategy = strategy;
  failure_threshold = threshold;
  recovery_interval_ms = recovery;
}

-- The providers with their positions.
abbrev pub positions : ℕ → List Provider → List (ℕ × Provider)
positions i [] = []
positions i (p ∷ ps) = (i, p) ∷ positions (suc i) ps

unfoldable pub healthy_providers : RpcPool → List (ℕ × Provider)
healthy_providers pool = select (λ e. e.1.healthy) (positions 0 pool.providers)

-- The position at an index of a list of providers; 0, the first provider, past its end.
abbrev pub position_at : List (ℕ × Provider) → ℕ → ℕ
position_at [] i = 0
position_at (e ∷ es) zero = e.0
position_at (e ∷ es) (suc i) = position_at es i

-- `a ?? Infinity < b ?? Infinity`
abbrev pub faster : Option ℕ → Option ℕ → Bool
faster (some a) (some b) = ltb a b
faster (some a) none = true
faster none b = false

-- The `reduce` of the latency strategy: the first of the fastest.
unfoldable pub fastest : ℕ × Provider → List (ℕ × Provider) → ℕ × Provider
fastest best [] = best
fastest best (e ∷ es) =
    fastest (if faster e.1.last_latency_ms best.1.last_latency_ms then e else best) es

abbrev pub measured : ℕ × Provider → Bool
measured e = elim e.1.last_latency_ms [ none ↦ false | some t ↦ true ]

-- The latency strategy over the healthy providers, of which there is one.
unfoldable pub select_by_latency : List (ℕ × Provider) → ℕ
select_by_latency healthy = elim (select measured healthy) [
  | [] ↦ position_at healthy 0
  | e ∷ es ↦ (fastest e es).0
]

-- The switch of `selectProvider`. `Math.floor(Math.random() * n)` is a number below n, `draw % n`.
unfoldable pub select_by : Strategy → ℕ → List (ℕ × Provider) → RpcPool → RpcPool × ℕ
select_by latency draw healthy pool = (pool, select_by_latency healthy)
select_by random draw healthy pool = (pool, position_at healthy (draw % length healthy))
select_by round_robin draw healthy pool =
    let i = pool.rr_index % length healthy in
    (record pool { rr_index = (i + 1) % length healthy }, position_at healthy i)

-- The pool afterwards, and the position of the provider.
unfoldable pub select_provider : ℕ → RpcPool → RpcPool × ℕ
select_provider draw pool = elim (healthy_providers pool) [
  | [] ↦ (pool, 0)
  | e ∷ es ↦ select_by pool.strategy draw (e ∷ es) pool
]

abbrev pub update : ℕ → (Provider → Provider) → List Provider → List Provider
update i f [] = []
update zero f (p ∷ ps) = f p ∷ ps
update (suc i) f (p ∷ ps) = p ∷ update i f ps

abbrev pub update_pool : ℕ → (Provider → Provider) → RpcPool → RpcPool
update_pool i f pool = record pool { providers = update i f pool.providers }

unfoldable pub mark_failure : ℕ → ℕ → Provider → Provider
mark_failure threshold now p = record p {
  consecutive_failures = p.consecutive_failures + 1;
  total_failures = p.total_failures + 1;
  last_failure_at = some now;
  healthy = if leb threshold (p.consecutive_failures + 1) then false else p.healthy;
}

unfoldable pub mark_success : ℕ → ℕ → Provider → Provider
mark_success start now p = record p {
  consecutive_failures = 0;
  last_latency_ms = some (now - start);
}

abbrev pub count_request : Provider → Provider
count_request p = record p { total_requests = p.total_requests + 1 }

-- `fn(provider.server)`: answered at a time, or rejected at a time.
pub data Reply {ℓ} (T : Type ℓ) : Type ℓ where
  answers : ℕ → ℕ → T → Reply T
  fails : ℕ → String → Reply T

-- What is thrown is `lastError`, undefined where nothing was tried.
pub data Outcome {ℓ} (T : Type ℓ) : Type ℓ where
  returned : T → Outcome T
  thrown : Option String → Outcome T

abbrev pub is_returned {ℓ} : {T : Type ℓ} → Outcome T → Bool
is_returned (returned v) = true
is_returned (thrown e) = false

abbrev pub tried_has : List String → String → Bool
tried_has tried u = any (λ t. t === u) tried

-- The position of `allProviders.find(p => !tried.has(p.url))`.
abbrev pub find_untried : List String → ℕ → List Provider → Option ℕ
find_untried tried i [] = none
find_untried tried i (p ∷ ps) =
    if tried_has tried p.url then find_untried tried (suc i) ps else some i

-- The provider of this round: the selected one, or the first that is untried.
unfoldable pub target : List String → RpcPool → ℕ → Option (ℕ × Provider)
target tried pool i = elim (get_elem? pool.providers i) [
  | none ↦ none
  | some p ↦
      if tried_has tried p.url
      then elim (find_untried tried 0 pool.providers) [
        | none ↦ none
        | some j ↦ elim (get_elem? pool.providers j) [ none ↦ none | some q ↦ some (j, q) ]
      ]
      else some (i, p)
]

module _ {ℓ} {T : Type ℓ} (call : ℕ → String → Reply T) (meanwhile : ℕ → RpcPool → RpcPool)
    (draw : ℕ → ℕ) where
  -- After the wait for `fn`: the answer ends the loop, a failure goes on with the rest of it.
  unfoldable pub after_call :
      ℕ → RpcPool → Reply T → (Option String → RpcPool → RpcPool × Outcome T) → RpcPool × Outcome T
  after_call i pool (answers start now v) rest =
      (update_pool i (mark_success start now) pool, returned v)
  after_call i pool (fails now e) rest =
      rest (some e) (update_pool i (mark_failure pool.failure_threshold now) pool)

  -- The loop of `executeWithFailover`, by the rounds that are left.
  unfoldable pub failover : ℕ → ℕ → List String → Option String → RpcPool → RpcPool × Outcome T
  failover zero attempt tried last pool = (pool, thrown last)
  failover (suc rounds) attempt tried last pool =
      let (pool', i) = select_provider (draw attempt) pool in
      elim (target tried pool' i) [
        | none ↦ (pool', thrown last)
        | some (j, p) ↦
            after_call j (meanwhile attempt (update_pool j count_request pool'))
              (call attempt p.url) (λ e q. failover rounds (attempt + 1) (p.url ∷ tried) e q)
      ]

  unfoldable pub execute_with_failover : RpcPool → RpcPool × Outcome T
  execute_with_failover pool = failover (length pool.providers) 0 [] none pool

  -- `execute`, behind the breaker, which other calls may change until this one ends at `later`;
  -- `none` is the `CircuitOpenError`.
  unfoldable pub execute :
      (CircuitBreaker → CircuitBreaker)
      → ℕ
      → ℕ
      → CircuitBreaker
      → RpcPool
      → CircuitBreaker × RpcPool × Option (Outcome T)
  execute others now later b pool =
      let (b', admitted) = admit now b in
      let (pool', outcome) = execute_with_failover pool in
      if admitted
      then (settle later (is_returned outcome) (others b'), pool', some outcome)
      else (b', pool, none)

-- One provider of `runHealthChecks`, which began at `now`; the probe's answer, with its times.
pub data Probe : Type 0 where
  alive : ℕ → ℕ → Probe
  dead : ℕ → Probe

unfoldable pub waits : ℕ → ℕ → Option ℕ → Bool
waits interval now none = false
waits interval now (some failed) = ltb now (failed + interval)

unfoldable pub check_provider : ℕ → ℕ → Probe → Provider → Provider
unfolding waits
check_provider interval now probe p =
    if p.healthy then p else if waits interval now p.last_failure_at then p else elim probe [
      | alive start end ↦ record p {
        healthy = true;
        consecutive_failures = 0;
        last_latency_ms = some (end - start);
      }
      | dead t ↦ record p { last_failure_at = some t }
    ]

-- The loop of `runHealthChecks`; `probe i` is the answer of the provider at position i.
unfoldable pub check_all : ℕ → ℕ → (ℕ → Probe) → ℕ → List Provider → List Provider
check_all interval now probe i [] = []
check_all interval now probe i (p ∷ ps) =
    check_provider interval now (probe i) p ∷ check_all interval now probe (suc i) ps

unfoldable pub run_health_checks : ℕ → (ℕ → Probe) → RpcPool → RpcPool
run_health_checks now probe pool = record pool {
  providers = check_all pool.recovery_interval_ms now probe 0 pool.providers;
}
