-- ===== src/BridgeClient/Tests.antt =====
-- The client at concrete inputs.
use c_address_onboarding_bri.Prelude.{
  ℕ, zero, suc, String, true, false, none, some, ◌≡◌, ◌≢◌, refl, ◌≤◌, ◌<◌, ◌*◌, ◌-◌, [], ◌∷◌,
  length, All, arith, ===_iff, if◌then◌else◌,
}
use c_address_onboarding_bri.Prelude.Result.{ok}
use c_address_onboarding_bri.JsMap
use c_address_onboarding_bri.SimpleCache
use c_address_onboarding_bri.SdkErrors.{ErrorBody, parse_http_error}
use c_address_onboarding_bri.BridgeClient.{
  RetryConfig, Attempt, replied, again, Run, request, request_loop, attempt_once, caught,
  should_retry, may_retry, compute_delay, Signer, Call, http_post, is_non_idempotent_post,
  non_idempotent_post_paths, fetch_of,
}
use c_address_onboarding_bri.BridgeClient.Attempts.{
  attempt_once_lem, repeats, IsFinal, next, is_transient,
}
use c_address_onboarding_bri.BridgeClient.Requests.{
  sent, Course, request_ends, waits-IsBounded, request-one_key, request-returns,
}
use c_address_onboarding_bri.BridgeClient.Cached.{
  health, cache_key, ClientState, Found, hit, look_up, fetched, get_ttl,
  should_use_stale_while_revalidate, get_cache_option, trigger_background_refresh, store,
}
use c_address_onboarding_bri.BridgeClient.Refreshing.{
  refreshes-one, start, reads, answer_comes, with_started, count, is_in,
}

abbrev hmac : String → String → String
hmac key text = key

abbrev read_error : ℕ → ErrorBody
read_error n = record { code = none; retry_after = none }

abbrev two_retries : RetryConfig
two_retries = record {
  max_retries = 2;
  base_delay_ms = 100;
  max_delay_ms = 5000;
  retry_budget_ms = 10000;
  jitter_ms = 50;
}

abbrev no_signing : Signer
no_signing = record { enabled = false; api_key = some "k"; timestamp = "1"; nonce = "2" }

abbrev fund : Call
fund = record {
  method = http_post;
  path = "/api/v1/fund";
  body = "{}";
  key = none;
  generated = "u";
}

-- Status 503, then a success.
abbrev flaky : ℕ → Attempt ℕ
flaky zero = record { ending = replied 503 none; now = 10; drawn = 30 }
flaky (suc n) = record { ending = replied 200 (some 7); now = 20; drawn = 0 }

abbrev flaky_run : Run ℕ
flaky_run = record {
  fetches =
      fetch_of hmac read_error no_signing fund ∷ fetch_of hmac read_error no_signing fund ∷ [];
  delays = 80 ∷ [];
  outcome = ok 7;
}

sent-flaky : sent hmac read_error two_retries no_signing fund 0 flaky ≡ some flaky_run
unfolding request request_loop attempt_once caught may_retry compute_delay parse_http_error
sent-flaky = refl

-- A client error is tried again.
unauthorized_again :
    attempt_once read_error two_retries 0 0
      (record { ending = replied 401 none; now = 10; drawn = 30 })
    ≡ again 80
unfolding attempt_once caught may_retry compute_delay parse_http_error should_retry
unauthorized_again = refl

attempt_once_lem_example :
    (repeats read_error two_retries 0 0 (flaky 0) ≡ true
      → next read_error two_retries 0 0 (flaky 0) ≡ again (compute_delay two_retries 0 30))
    × (repeats read_error two_retries 0 0 (flaky 0) ≡ false
        → IsFinal read_error two_retries 0 0 (flaky 0))
attempt_once_lem_example = attempt_once_lem read_error two_retries 0 0 (flaky 0)

request_ends_example :
    (last : ℕ) × (run : Run ℕ) × (last ≤ 2)
    × (sent hmac read_error two_retries no_signing fund 0 flaky ≡ some run)
    × Course hmac read_error two_retries no_signing fund 0 flaky last run
request_ends_example = request_ends hmac read_error two_retries no_signing fund 0 flaky

flaky_draws : (i : ℕ) → (flaky i).drawn ≤ 2 * 50
flaky_draws zero = omega arith
flaky_draws (suc i) = omega arith

waits-IsBounded_example : All (λ d. d ≤ 5050) (80 ∷ [])
waits-IsBounded_example =
    waits-IsBounded hmac read_error two_retries no_signing fund 0 flaky flaky_run flaky_draws
      sent-flaky

fund_listed : is_non_idempotent_post http_post "/api/v1/fund" ≡ true
unfolding is_non_idempotent_post non_idempotent_post_paths
fund_listed = refl

not_empty : ◌≢◌ {A = String} "u" ""
not_empty = ground (arith, ===_iff "u" "")

request-one_key_example :
    All (λ f. JsMap.get "x-idempotency-key" f.headers ≡ some "u") flaky_run.fetches
request-one_key_example =
    request-one_key hmac read_error two_retries no_signing fund 0 flaky flaky_run fund_listed
      not_empty sent-flaky

first_only : (i : ℕ) → i < 1 → is_transient read_error two_retries 0 (flaky i).ending ≡ true
first_only zero l = refl
first_only (suc i) l = absurd (omega (arith, l))

in_time : (i : ℕ) → i < 1 → (flaky i).now - 0 < 10000
in_time zero l = omega arith
in_time (suc i) l = omega arith

request-returns_example :
    (run : Run ℕ) × (sent hmac read_error two_retries no_signing fund 0 flaky ≡ some run)
    × (run.outcome ≡ ok 7)
    × (length run.delays ≡ 1)
request-returns_example =
    request-returns hmac read_error two_retries no_signing fund 0 flaky 1 7 (omega arith) refl
      first_only in_time

abbrev fresh_client : ClientState ℕ
fresh_client = record { cache = SimpleCache.init none; refreshing = [] }

abbrev with_health : ClientState ℕ
with_health = fetched none 0 health (ok 9) fresh_client

abbrev stale_read : ClientState ℕ × Found ℕ
stale_read = look_up none 40000 health with_health

refreshes-one_example :
    count (cache_key health) (with_started none (cache_key health) stale_read.1 [])
    ≡ (if is_in (cache_key health) stale_read.0.refreshing then 1 else 0)
refreshes-one_example =
    refreshes-one none none stale_read.0 (with_started none (cache_key health) stale_read.1 [])
      (reads 40000 health with_health [] (answer_comes 0 health (ok 9) fresh_client [] start))
      (cache_key health)

stale_read_refreshes : stale_read.1 ≡ hit 9 true
unfolding look_up fetched store cache_key get_ttl get_cache_option should_use_stale_while_revalidate
    trigger_background_refresh SimpleCache.get SimpleCache.set SimpleCache.touch
    SimpleCache.make_room SimpleCache.init JsMap.get JsMap.set JsMap.delete SimpleCache.evict_oldest
stale_read_refreshes = refl
