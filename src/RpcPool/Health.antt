-- ===== src/RpcPool/Health.antt =====
-- The health marks: what calls and health checks do to them.
use c_address_onboarding_bri.Prelude.{
  ℕ, zero, suc, String, ◌≡◌, refl, ◌≤◌, ◌<◌, ◌+◌, ◌⊎◌, Bool, true, false, Option, none, some, List,
  [], ◌∷◌, arith, All, ◌∙◌, inl, inr, get_elem?, Option-cases, ap, subst, ◌↔◌,
}
use c_address_onboarding_bri.CircuitBreaker.{CircuitBreaker, open_state}
use c_address_onboarding_bri.CircuitBreaker
use c_address_onboarding_bri.RpcPool.{
  Provider, RpcPool, select_provider, update, update_pool, mark_failure, mark_success,
  count_request, Reply, answers, fails, Outcome, target, after_call, failover, select_by,
  execute_with_failover, execute, Probe, alive, dead, check_provider, check_all, run_health_checks,
}
use c_address_onboarding_bri.RpcPool.Selection.{select_provider-providers}

-- A provider marked healthy has failed fewer times in a row than the threshold.
abbrev pub IsSound : ℕ → Provider → Type 0
IsSound threshold p = (p.healthy ≡ false) ⊎ (p.consecutive_failures < threshold)

abbrev pub IsSoundPool : RpcPool → Type 0
IsSoundPool pool = All (IsSound pool.failure_threshold) pool.providers

All-update :
    (P : Provider → Type 0) (i : ℕ) (f : Provider → Provider) (ps : List Provider)
    → ((p : Provider) → P p → P (f p))
    → All P ps
    → All P (update i f ps)
All-update P i f [] k h = tt
All-update P zero f (p ∷ ps) k (h, hs) = (k p h, hs)
All-update P (suc i) f (p ∷ ps) k (h, hs) = (h, All-update P i f ps k hs)

mark_failure-IsSound :
    (threshold now : ℕ) (p : Provider)
    → IsSound threshold p
    → IsSound threshold (mark_failure threshold now p)
unfolding mark_failure
mark_failure-IsSound threshold now p (inl h) = inl (ground arith)
mark_failure-IsSound threshold now p (inr h) = ground arith

mark_success-IsSound :
    (threshold start now : ℕ) (p : Provider)
    → 0 < threshold
    → IsSound threshold p
    → IsSound threshold (mark_success start now p)
unfolding mark_success
mark_success-IsSound threshold start now p pos h = inr pos

select_provider-threshold :
    (draw : ℕ) (pool : RpcPool)
    → (select_provider draw pool).0.failure_threshold ≡ pool.failure_threshold
unfolding select_provider select_by
select_provider-threshold draw pool = ground arith

-- The invariant with a positive threshold, which `meanwhile` keeps too.
abbrev pub IsSoundAt : ℕ → RpcPool → Type 0
IsSoundAt threshold pool =
    (pool.failure_threshold ≡ threshold) × All (IsSound threshold) pool.providers

select_provider-IsSoundAt :
    (threshold draw : ℕ) (pool : RpcPool)
    → IsSoundAt threshold pool
    → IsSoundAt threshold (select_provider draw pool).0
select_provider-IsSoundAt threshold draw pool (e, h) = (
  select_provider-threshold draw pool ∙ e,
  subst' (All (IsSound threshold)) (select_provider-providers draw pool) h,
)
  where
    subst' : (P : List Provider → Type 0) {xs ys : List Provider} → xs ≡ ys → P ys → P xs
    subst' P e h = rw e h

update_pool-IsSoundAt :
    (threshold i : ℕ) (f : Provider → Provider) (pool : RpcPool)
    → ((p : Provider) → IsSound threshold p → IsSound threshold (f p))
    → IsSoundAt threshold pool
    → IsSoundAt threshold (update_pool i f pool)
update_pool-IsSoundAt threshold i f pool k (e, h) =
    (e, All-update (IsSound threshold) i f pool.providers k h)

module _ {ℓ} {T : Type ℓ} (call : ℕ → String → Reply T) (meanwhile : ℕ → RpcPool → RpcPool)
    (draw : ℕ → ℕ) (threshold : ℕ) (pos : 0 < threshold)
    (keeps : (attempt : ℕ) (q : RpcPool)
      → IsSoundAt threshold q
      → IsSoundAt threshold (meanwhile attempt q)) where
  after_call-IsSoundAt :
      (j : ℕ) (pool : RpcPool) (r : Reply T) (rest : Option String → RpcPool → RpcPool × Outcome T)
      → IsSoundAt threshold pool
      → ((e : Option String) (q : RpcPool)
          → IsSoundAt threshold q
          → IsSoundAt threshold (rest e q).0)
      → IsSoundAt threshold (after_call call meanwhile draw j pool r rest).0
  unfolding after_call
  after_call-IsSoundAt j pool (answers start now v) rest h k =
      update_pool-IsSoundAt threshold j _ pool (λ p. mark_success-IsSound threshold start now p pos)
        h
  after_call-IsSoundAt j pool (fails now msg) rest h k = k (some msg) _ (
      update_pool-IsSoundAt threshold j _ pool
        (λ p s. rw h.0 (mark_failure-IsSound threshold now p s)) h)

  failover-IsSoundAt :
      (rounds attempt : ℕ) (tried : List String) (last : Option String) (pool : RpcPool)
      → IsSoundAt threshold pool
      → IsSoundAt threshold (failover call meanwhile draw rounds attempt tried last pool).0
  unfolding failover
  failover-IsSoundAt zero attempt tried last pool h = h
  failover-IsSoundAt (suc rounds) attempt tried last pool h =
      let st = select_provider (draw attempt) pool in
      let sound = select_provider-IsSoundAt threshold (draw attempt) pool h in
      elim (Option-cases (target tried st.0 st.1)) [
        | inl e ↦ rw (e, failover) sound
        | inr ((j, p), e) ↦
            rw (e, failover)
              (after_call-IsSoundAt j _ (call attempt p.url) _
                (keeps attempt _
                  (update_pool-IsSoundAt threshold j count_request st.0 (λ q s. s) sound))
                (λ err q. failover-IsSoundAt rounds (attempt + 1) (p.url ∷ tried) err q))
      ]

  -- Calls keep the marks sound: after `executeWithFailover`, as before it, every provider marked
  -- healthy has failed fewer times in a row than the (positive) threshold, if what happens to the
  -- pool during the calls keeps that.
  pub execute_with_failover-IsSound :
      (pool : RpcPool)
      → IsSoundAt threshold pool
      → IsSoundAt threshold (execute_with_failover call meanwhile draw pool).0
  unfolding execute_with_failover
  execute_with_failover-IsSound pool h = failover-IsSoundAt _ 0 [] none pool h

module _ {ℓ} {T : Type ℓ} (call : ℕ → String → Reply T) (meanwhile : ℕ → RpcPool → RpcPool)
    (draw : ℕ → ℕ) where
  -- While the breaker is open and its reset timeout is not over, the pool is not touched: no
  -- provider is called or marked.
  pub execute_open :
      (others : CircuitBreaker → CircuitBreaker) (now later failed : ℕ) (b : CircuitBreaker)
      (pool : RpcPool)
      → b.state ≡ open_state
      → b.last_failure_time ≡ some failed
      → now < failed + b.reset_timeout
      → execute call meanwhile draw others now later b pool ≡ (b, pool, none)
  unfolding execute CircuitBreaker.admit
  execute_open others now later failed b pool e f h = ground arith

-- Since the last failure the recovery interval is over.
abbrev pub Due : ℕ → ℕ → Option ℕ → Type 0
Due interval now none = Unit {0}
Due interval now (some failed) = failed + interval ≤ now

abbrev pub IsAlive : Probe → Type 0
IsAlive (alive start end) = Unit {0}
IsAlive (dead t) = ⊥

get_elem?-check_all :
    (interval now : ℕ) (probe : ℕ → Probe) (k i : ℕ) (ps : List Provider) (p : Provider)
    → get_elem? ps i ≡ some p
    → get_elem? (check_all interval now probe k ps) i
      ≡ some (check_provider interval now (probe (k + i)) p)
unfolding check_all
get_elem?-check_all interval now probe k i [] p e = cc
get_elem?-check_all interval now probe k zero (q ∷ ps) p e =
    rw (← some_eq q p e) (ap (λ n. some (check_provider interval now (probe n) q)) (omega arith))
  where
    some_eq : (q p : Provider) → some q ≡ some p → q ≡ p
    some_eq q p e = cc
get_elem?-check_all interval now probe k (suc i) (q ∷ ps) p e =
    get_elem?-check_all interval now probe (suc k) i ps p e
    ∙ ap (λ n. some (check_provider interval now (probe n) p)) (omega arith)

checked-healthy :
    (interval now : ℕ) (r : Probe) (p : Provider) (t : Option ℕ) (b : Bool)
    → p.last_failure_at ≡ t
    → p.healthy ≡ b
    → ((check_provider interval now r p).healthy ≡ true)
      ↔ ((p.healthy ≡ true) ⊎ (Due interval now p.last_failure_at × IsAlive r))
unfolding check_provider
checked-healthy interval now (alive start end) p none b e h = ground arith
checked-healthy interval now (dead d) p none b e h = ground arith
checked-healthy interval now (alive start end) p (some failed) b e h = ground arith
checked-healthy interval now (dead d) p (some failed) b e h = ground arith

-- A round of health checks leaves a provider healthy exactly if it was healthy before, or if its
-- recovery interval is over and it answers the probe.
pub health_check_iff :
    (now : ℕ) (probe : ℕ → Probe) (pool : RpcPool) (i : ℕ) (p : Provider)
    → get_elem? pool.providers i ≡ some p
    → (q : Provider) × (get_elem? (run_health_checks now probe pool).providers i ≡ some q)
      × ((q.healthy ≡ true) ↔ (
          (p.healthy ≡ true)
          ⊎ (Due pool.recovery_interval_ms now p.last_failure_at × IsAlive (probe i))))
unfolding run_health_checks
health_check_iff now probe pool i p e = (
  check_provider pool.recovery_interval_ms now (probe (0 + i)) p,
  get_elem?-check_all pool.recovery_interval_ms now probe 0 i pool.providers p e,
  subst
      (λ n. ((check_provider pool.recovery_interval_ms now (probe (0 + i)) p).healthy ≡ true) ↔ (
        (p.healthy ≡ true)
        ⊎ (Due pool.recovery_interval_ms now p.last_failure_at × IsAlive (probe n))))
      (omega arith)
      (checked-healthy pool.recovery_interval_ms now (probe (0 + i)) p p.last_failure_at p.healthy
        refl refl),
)
