-- ===== src/BridgeClient/Requests.antt =====
-- What `request` promises: it ends, waits are bounded, one key for all calls, a success is returned.
use c_address_onboarding_bri.Prelude.{
  or_else, ℕ, zero, suc, String, Bool, true, false, Option, none, some, ◌≡◌, ◌≢◌, refl, sym, subst,
  ◌≤◌, ◌<◌, ◌+◌, ◌*◌, ◌-◌, length, All, All-weaken, arith, inl, inr, ◌⊎◌, ===_iff,
}
use c_address_onboarding_bri.Prelude.Result.{Result, ok}
use c_address_onboarding_bri.JsMap
use c_address_onboarding_bri.JsMap.Laws.{get-set}
use c_address_onboarding_bri.SdkErrors.{ErrorBody, Thrown}
use c_address_onboarding_bri.BridgeClient.{
  RetryConfig, Attempt, Ending, replied, threw, with_content_type, finish, Run, compute_delay,
  Signer, Call, fetch_of, request, request_headers, resolved_idempotency_key,
  is_non_idempotent_post, set_if_truthy, may_retry,
}
use c_address_onboarding_bri.BridgeClient.Attempts.{next, attempt_once_lem, is_transient, success}
use c_address_onboarding_bri.BridgeClient.Runs.{IsCourse, loop_lem, waits, repeats_at}

compute_delay-le :
    (config : RetryConfig) (attempt drawn : ℕ)
    → drawn ≤ 2 * config.jitter_ms
    → compute_delay config attempt drawn ≤ config.max_delay_ms + config.jitter_ms
unfolding compute_delay
compute_delay-le config attempt drawn h = ground arith

module _ {J : Type 0} (hmac : String → String → String) (read_error : J → ErrorBody)
    (config : RetryConfig) (signer : Signer) (call : Call) (started_at : ℕ)
    (attempts : ℕ → Attempt J) where
  abbrev pub sent : Option (Run J)
  sent = request hmac read_error config signer call started_at attempts

  abbrev pub Course : ℕ → Run J → Type 0
  Course = IsCourse read_error config started_at attempts (fetch_of hmac read_error signer call) 0

  -- A request ends, whatever the calls of fetch do: after at most the configured number of retries.
  -- It makes one call more than retries, all with the same method, path, headers and body; before each
  -- retry it waits for the delay of this attempt; every attempt but the last may be repeated, the last
  -- may not and gives the outcome.
  pub request_ends :
      (last : ℕ) × (run : Run J) × (last ≤ config.max_retries) × (sent ≡ some run) × Course last run
  unfolding request
  request_ends =
      let (last, run, b, e, c) =
        loop_lem read_error config started_at attempts (fetch_of hmac read_error signer call)
          config.max_retries 0 (omega arith) in
      (last, run, omega (arith, b), e, c)

  sent-Course :
      (run : Run J) → sent ≡ some run → (last : ℕ) × (last ≤ config.max_retries) × Course last run
  sent-Course run h =
      let (last, other, b, e, c) = request_ends in (last, b, subst (Course last) (unique other e) c)
    where
      unique : (other : Run J) → sent ≡ some other → other ≡ run
      unique other e = cc

  -- If every draw for a delay is at most twice the jitter, no wait of a request that is made is longer
  -- than the maximal delay and the jitter together.
  pub waits-IsBounded :
      (run : Run J)
      → ((i : ℕ) → (attempts i).drawn ≤ 2 * config.jitter_ms)
      → sent ≡ some run
      → All (λ d. d ≤ config.max_delay_ms + config.jitter_ms) run.delays
  waits-IsBounded run draws h =
      let (last, b, c) = sent-Course run h in
      subst (All (λ d. d ≤ config.max_delay_ms + config.jitter_ms)) (sym c.delays)
        (each 0 (length run.delays))
    where
      each :
          (first n : ℕ)
          → All
              (λ d. d ≤ config.max_delay_ms + config.jitter_ms)
              (waits read_error config started_at attempts
                (fetch_of hmac read_error signer call)
                first
                n)
      each first zero = tt
      each first (suc n) =
          (compute_delay-le config first (attempts first).drawn (draws first), each (suc first) n)

  carried :
      (value : String)
      → value ≢ ""
      → (key : Option String) → key ≡ some value
      → JsMap.get "x-idempotency-key" (request_headers hmac signer call.body key) ≡ some value
  unfolding request_headers
  carried value n none e = absurd cc
  carried value n (some key) e = ground (
    arith,
    ===_iff key "",
    get-set "x-idempotency-key" "x-idempotency-key" key
        (set_if_truthy "X-API-Key" signer.api_key (with_content_type hmac signer call.body)),
  )

  resolved :
      is_non_idempotent_post call.method call.path ≡ true
      → resolved_idempotency_key call.method call.path call.key call.generated
        ≡ some (or_else call.key call.generated)
  unfolding resolved_idempotency_key
  resolved p = rw p refl

  -- All calls of fetch of a request with POST to a path of the list that is not idempotent carry one
  -- idempotency key: the caller's, or the one generated, provided that the key is not the empty text.
  pub request-one_key :
      (run : Run J)
      → is_non_idempotent_post call.method call.path ≡ true
      → or_else call.key call.generated ≢ ""
      → sent ≡ some run
      → All
          (λ f. JsMap.get "x-idempotency-key" f.headers ≡ some (or_else call.key call.generated))
          run.fetches
  request-one_key run p k h =
      let (last, b, c) = sent-Course run h in
      All-weaken (λ f. f ≡ fetch_of hmac read_error signer call) _
        (λ f e.
          subst
            (λ g. JsMap.get "x-idempotency-key" g.headers ≡ some (or_else call.key call.generated))
            (sym e) (carried (or_else call.key call.generated) k _ (resolved p)))
        run.fetches c.same

  success-final :
      (i : ℕ) (j : J) (e : Ending J)
      → success read_error config started_at e ≡ some j
      → is_transient read_error config started_at e ≡ false
  success-final i j (threw thrown) s = absurd cc
  success-final i j (replied status body) s = ground arith

  stays :
      (n last : ℕ) (run : Run J)
      → repeats_at read_error config started_at attempts (fetch_of hmac read_error signer call) n
        ≡ false
      → ((i : ℕ)
          → i < n
          → repeats_at read_error config started_at attempts
              (fetch_of hmac read_error signer call)
              i
            ≡ true)
      → Course last run
      → last ≡ n
  stays n last run f t c = elim (three last n) [
    | inl a ↦ absurd (both (t last a) c.ended)
    | inr (inl a) ↦ absurd (both (c.repeated n (omega arith) a) f)
    | inr (inr e) ↦ e
  ]
    where
      three : (a b : ℕ) → (a < b) ⊎ (b < a) ⊎ (a ≡ b)
      three a b = omega arith

      both : {b : Bool} → b ≡ true → b ≡ false → ⊥
      both p q = cc

  may_retry_lem :
      (i now : ℕ)
      → i < config.max_retries
      → now - started_at < config.retry_budget_ms
      → may_retry read_error config started_at i now ≡ true
  unfolding may_retry
  may_retry_lem i now l w = ground arith

  returned :
      (last : ℕ) (run : Run J) (j : J)
      → Course last run
      → success read_error config started_at (attempts last).ending ≡ some j
      → run.outcome ≡ ok j
  returned last run j c s =
      let (r, e, f) =
        (attempt_once_lem read_error config started_at last (attempts last)).1 c.ended in
      same r e ((f j).1 s)
    where
      same :
          (r : Result Thrown J)
          → next read_error config started_at last (attempts last) ≡ finish r
          → r ≡ ok j
          → run.outcome ≡ ok j
      same r e f = cc (c.outcome, e, f)

  -- If an attempt within the configured number of retries is answered by a success with a value, and
  -- every attempt before it ends in a way that the code repeats (a reply other than a success, client errors
  -- included, or an error of fetch but an abort) while the budget of time lasts, the request returns this
  -- value, after as many retries.
  pub request-returns :
      (n : ℕ) (j : J)
      → n ≤ config.max_retries
      → success read_error config started_at (attempts n).ending ≡ some j
      → ((i : ℕ) → i < n → is_transient read_error config started_at (attempts i).ending ≡ true)
      → ((i : ℕ) → i < n → (attempts i).now - started_at < config.retry_budget_ms)
      → (run : Run J) × (sent ≡ some run) × (run.outcome ≡ ok j) × (length run.delays ≡ n)
  request-returns n j m s t w =
      let (last, run, b, e, c) = request_ends in
      let at_n : last ≡ n =
        stays n last run (rw (success-final n j (attempts n).ending s) refl)
          (λ i l. (rw (t i l) (may_retry_lem i (attempts i).now (omega (arith, m, l)) (w i l))))
          c in
      (
        run,
        e,
        returned last run j c (
            subst (λ k. success read_error config started_at (attempts k).ending ≡ some j)
              (sym at_n) s),
        omega (arith, c.pauses, at_n),
      )
