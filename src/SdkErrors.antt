-- ===== src/SdkErrors.antt =====
-- The errors of the SDK, sdk/src/errors.ts: what each constructor sets, without the texts of messages,
-- and the error for a reply's status. `statusCode` and `code` may be absent.
use mathlib.Core.Option
use c_address_onboarding_bri.Prelude.{
  ℕ, String, Bool, true, false, Option, none, some, ◌*◌, if◌then◌else◌, leb, ◌==◌, ◌||◌, or_else,
}
use c_address_onboarding_bri.Prelude.Result.{Result, ok, err}

-- The classes, which the field `type` names.
pub data Class : Type 0 where
  bridge auth validation rate_limit server not_found network timeout : Class

pub record BridgeError : Type 0 where
  pub class : Class
  pub status_code : Option ℕ
  pub code : Option String
  pub retryable : Bool
  pub retry_after_ms : Option ℕ

abbrev pub or_also {ℓ} : {A : Type ℓ} → Option A → Option A → Option A
or_also none b = b
or_also (some a) b = some a

abbrev pub bridge_error : Class → Option ℕ → Option String → Option Bool → BridgeError
bridge_error class status code retryable = record {
  class = class;
  status_code = status;
  code = code;
  retryable = or_else retryable false;
  retry_after_ms = none;
}

abbrev pub rate_limit_error : Option ℕ → Option String → BridgeError
rate_limit_error retry_after_ms code =
    record (bridge_error rate_limit (some 429) code (some true)) { retry_after_ms = retry_after_ms }

abbrev pub server_error : Option ℕ → Option String → Option Bool → BridgeError
server_error status code retryable =
    bridge_error server (some (or_else status 500)) code (some (or_else retryable true))

abbrev pub network_error : BridgeError
network_error = bridge_error network none none (some true)

abbrev pub timeout_error : Option Bool → BridgeError
timeout_error retryable = bridge_error timeout none none (some (or_else retryable true))

abbrev pub validation_error : Option ℕ → Option String → BridgeError
validation_error status code = bridge_error validation (some (or_else status 400)) code (some false)

-- What the function reads of the body of a reply.
pub record ErrorBody : Type 0 where
  pub code : Option String
  pub retry_after : Option ℕ

-- What a piece of the client throws: an error of the SDK, the error of an aborted call, a `TypeError`,
-- or an error of another kind, by name.
pub data Thrown : Type 0 where
  bridge_thrown : BridgeError → Thrown
  abort_error : Thrown
  type_error : Thrown
  other : String → Thrown

-- Reads `message`, which is declared nowhere, for the first argument of a constructor.
abbrev pub undeclared : Result Thrown BridgeError
undeclared = err (other "ReferenceError")

unfoldable pub parse_http_error : ℕ → ErrorBody → Option ℕ → Result Thrown BridgeError
parse_http_error status body header_retry_after_ms =
    let body_retry_after_ms = Option.map (λ s. s * 1000) body.retry_after in
    if status == 401 || status == 403
    then undeclared
    else if status == 400 || status == 422
    then undeclared
    else if status == 404
    then undeclared
    else if status == 429
    then ok (rate_limit_error (or_also header_retry_after_ms body_retry_after_ms) body.code)
    else if status == 503
    then ok (server_error (some 503) body.code none)
    else if leb 500 status
    then ok (server_error (some status) body.code none)
    else undeclared
