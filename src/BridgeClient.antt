-- ===== src/BridgeClient.antt =====
-- The HTTP client of the SDK, sdk/src/bridge.ts, the class BridgeClient: the headers of a request, the
-- loop of attempts of `request`, and the reads through the cache. How a call of `fetch` ends, what the
-- clock says then and what `Math.random` gives are an oracle; HMAC is a parameter.
pub mod Attempts
pub mod Runs
pub mod Requests
pub mod Cached
pub mod Refreshing
mod Tests
use mathlib.Core.Option
use c_address_onboarding_bri.Prelude.{
  or_else, ℕ, zero, suc, String, Bool, true, false, Option, none, some, ◌+◌, ◌*◌, ◌-◌, ◌^◌, ◌&&◌,
  if◌then◌else◌, leb, ltb, List, [], ◌∷◌, ◌===◌, any,
}
use c_address_onboarding_bri.Prelude.Result.{Result, ok, err}
use c_address_onboarding_bri.Json.{◌+++◌}
use c_address_onboarding_bri.JsMap.{JsMap}
use c_address_onboarding_bri.JsMap
use c_address_onboarding_bri.SdkErrors.{
  BridgeError, ErrorBody, Thrown, bridge_thrown, abort_error, type_error, other, server_error,
  network_error, timeout_error, parse_http_error,
}

pub record RetryConfig : Type 0 where
  pub max_retries : ℕ
  pub base_delay_ms : ℕ
  pub max_delay_ms : ℕ
  pub retry_budget_ms : ℕ
  pub jitter_ms : ℕ

-- What the caller may give for it.
pub record RetryOptions : Type 0 where
  pub max_retries : Option ℕ
  pub base_delay_ms : Option ℕ
  pub max_delay_ms : Option ℕ
  pub retry_budget_ms : Option ℕ
  pub jitter_ms : Option ℕ

unfoldable pub retry_config : RetryOptions → RetryConfig
retry_config given = record {
  max_retries = or_else given.max_retries 3;
  base_delay_ms = or_else given.base_delay_ms 100;
  max_delay_ms = or_else given.max_delay_ms 5000;
  retry_budget_ms = or_else given.retry_budget_ms 10000;
  jitter_ms = or_else given.jitter_ms 50;
}

unfoldable pub should_retry : Thrown → Bool
should_retry abort_error = false
should_retry (bridge_thrown e) = e.retryable
should_retry type_error = true
should_retry (other name) = true

-- `drawn` is the whole part of `Math.random() * jitterMs * 2`; the difference stops at 0, as `Math.max`
-- has it.
unfoldable pub compute_delay : RetryConfig → ℕ → ℕ → ℕ
compute_delay config attempt drawn =
    let exponential = config.base_delay_ms * 3 ^ attempt in
    let capped = if leb exponential config.max_delay_ms then exponential else config.max_delay_ms in
    capped + drawn - config.jitter_ms

pub data HttpMethod : Type 0 where
  http_get http_post http_put http_delete http_patch : HttpMethod

abbrev pub is_post : HttpMethod → Bool
is_post http_post = true
is_post http_get = false
is_post http_put = false
is_post http_delete = false
is_post http_patch = false

unfoldable pub non_idempotent_post_paths : List String
non_idempotent_post_paths =
    "/api/v1/offramp/moonpay" ∷ "/api/v1/offramp/transak" ∷ "/api/v1/cex/route" ∷ "/api/v1/fund"
    ∷ []

unfoldable pub is_non_idempotent_post : HttpMethod → String → Bool
is_non_idempotent_post method path =
    is_post method && any (λ p. p === path) non_idempotent_post_paths

-- `idempotencyKey ?? generateIdempotencyKey()` on these paths, the caller's key on others.
unfoldable pub resolved_idempotency_key :
    HttpMethod → String → Option String → String → Option String
resolved_idempotency_key method path key generated =
    if is_non_idempotent_post method path then some (or_else key generated) else key

-- A text that JavaScript takes for true: it is given and not empty.
abbrev pub set_if_truthy : String → Option String → JsMap String → JsMap String
set_if_truthy name none headers = headers
set_if_truthy name (some value) headers =
    if value === "" then headers else JsMap.set name value headers

-- The parts of the configuration, the clock's text and the nonce that headers are made of.
pub record Signer : Type 0 where
  pub enabled : Bool
  pub api_key : Option String
  pub timestamp : String
  pub nonce : String

module _ (hmac : String → String → String) where
  unfoldable pub build_signing_headers : Signer → String → JsMap String
  build_signing_headers signer body = if signer.enabled then with_key signer.api_key else []
    where
      with_key : Option String → JsMap String
      with_key none = []
      with_key (some key) =
          if key === ""
          then []
          else ("X-Timestamp", signer.timestamp)
            ∷ ("X-Nonce", signer.nonce)
            ∷ (
              "X-Signature",
              "sha256=" +++ hmac key (body +++ "." +++ signer.timestamp +++ "." +++ signer.nonce),
            )
            ∷ []

  -- The content type and the headers of the signature, then those that are set after.
  abbrev pub with_content_type : Signer → String → JsMap String
  with_content_type signer body =
      ("Content-Type", "application/json") ∷ build_signing_headers signer body

  unfoldable pub request_headers : Signer → String → Option String → JsMap String
  request_headers signer body key =
      set_if_truthy "x-idempotency-key" key
        (set_if_truthy "X-API-Key" signer.api_key (with_content_type signer body))

-- How a call of `fetch` ends: with a status and a body, which is JSON or is not, or by throwing.
pub data Ending (J : Type 0) : Type 0 where
  replied : ℕ → Option J → Ending J
  threw : Thrown → Ending J

-- The ending of an attempt, the clock when the client decides whether to retry, and the draw for the
-- delay.
pub record Attempt (J : Type 0) : Type 0 where
  pub ending : Ending J
  pub now : ℕ
  pub drawn : ℕ

-- What an attempt comes to: another one after a delay, or the end of the request.
pub data Step (J : Type 0) : Type 0 where
  again : ℕ → Step J
  finish : Result Thrown J → Step J

pub record Fetch : Type 0 where
  pub method : HttpMethod
  pub path : String
  pub headers : JsMap String
  pub body : String

-- A whole request: the calls of `fetch` and the delays between them, in order, and how it ends.
pub record Run (J : Type 0) : Type 0 where
  pub fetches : List Fetch
  pub delays : List ℕ
  pub outcome : Result Thrown J

module _ {J : Type 0} (read_error : J → ErrorBody) (config : RetryConfig) (started_at : ℕ) where
  -- The test that stands before each `continue`.
  unfoldable pub may_retry : ℕ → ℕ → Bool
  may_retry attempt now =
      ltb attempt config.max_retries && ltb (now - started_at) config.retry_budget_ms

  abbrev pub retry_if : Bool → ℕ → Attempt J → Thrown → Step J
  retry_if retryable attempt a thrown =
      if retryable && may_retry attempt a.now
      then again (compute_delay config attempt a.drawn)
      else finish (err thrown)

  -- The outer `catch`.
  unfoldable pub caught : ℕ → Attempt J → Thrown → Step J
  caught attempt a (bridge_thrown e) = finish (err (bridge_thrown e))
  caught attempt a abort_error = finish (err (bridge_thrown (timeout_error none)))
  caught attempt a type_error =
      retry_if (should_retry (bridge_thrown network_error)) attempt a (bridge_thrown network_error)
  caught attempt a (other name) = retry_if (should_retry (other name)) attempt a (other name)

  abbrev pub error_body : Option J → ErrorBody
  error_body none = record { code = none; retry_after = none }
  error_body (some j) = read_error j

  abbrev pub refused : ℕ → Attempt J → Result Thrown BridgeError → Step J
  refused attempt a (err thrown) = caught attempt a thrown
  refused attempt a (ok e) =
      if e.retryable && may_retry attempt a.now
      then again (compute_delay config attempt a.drawn)
      else caught attempt a (bridge_thrown e)

  abbrev pub accepted : ℕ → ℕ → Attempt J → Option J → Step J
  accepted status attempt a (some j) = finish (ok j)
  accepted status attempt a none =
      caught attempt a (bridge_thrown (server_error (some status) none (some false)))

  abbrev pub is_ok : ℕ → Bool
  is_ok status = leb 200 status && leb status 299

  -- One round of `while (true)`.
  unfoldable pub attempt_once : ℕ → Attempt J → Step J
  attempt_once attempt a = elim a.ending [
    | threw thrown ↦ caught attempt a thrown
    | replied status body ↦
        if is_ok status
        then accepted status attempt a body
        else refused attempt a (parse_http_error status (error_body body) none)
  ]

  abbrev pub followed_by : Fetch → ℕ → Run J → Run J
  followed_by fetch delay run = record run {
    fetches = fetch ∷ run.fetches;
    delays = delay ∷ run.delays;
  }

  -- The way on from a round, where `rest` is the run of the rounds after it.
  abbrev pub by_step : Fetch → Option (Run J) → Step J → Option (Run J)
  by_step fetch rest (again delay) = Option.map (followed_by fetch delay) rest
  by_step fetch rest (finish outcome) =
      some (record { fetches = fetch ∷ []; delays = []; outcome = outcome })

  -- The loop, on fuel; attempt `n` of the request ends as `attempts n` says.
  unfoldable pub request_loop : ℕ → (ℕ → Attempt J) → Fetch → ℕ → Option (Run J)
  request_loop zero attempts fetch attempt = none
  request_loop (suc fuel) attempts fetch attempt =
      let rest = request_loop fuel attempts fetch (suc attempt) in
      by_step fetch rest (attempt_once attempt (attempts attempt))

-- The arguments of `request`: `generated` is what `generateIdempotencyKey()` gives.
pub record Call : Type 0 where
  pub method : HttpMethod
  pub path : String
  pub body : String
  pub key : Option String
  pub generated : String

module _ {J : Type 0} (hmac : String → String → String) (read_error : J → ErrorBody) where
  abbrev pub fetch_of : Signer → Call → Fetch
  fetch_of signer call = record {
    method = call.method;
    path = call.path;
    headers =
        request_headers hmac signer call.body
          (resolved_idempotency_key call.method call.path call.key call.generated);
    body = call.body;
  }

  unfoldable pub request : RetryConfig → Signer → Call → ℕ → (ℕ → Attempt J) → Option (Run J)
  request config signer call started_at attempts =
      request_loop read_error config started_at (suc config.max_retries) attempts
        (fetch_of signer call) 0
