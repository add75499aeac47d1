-- ===== src/XdrValidator.antt =====
-- The validation of signed transaction envelopes, api/src/services/xdrValidator.ts, with the address test
-- of api/src/utils/constants.ts. Texts that the code takes apart are lists of UTF-16 code units. What the
-- Stellar SDK decodes and the cache of the package node-cache are parameters.
pub mod Rules
pub mod Base64
pub mod Soundness
pub mod Replay
pub mod Network
mod Tests
use c_address_onboarding_bri.Prelude.{
  ℕ, zero, suc, String, Bool, true, false, not, Option, none, some, ◌+◌, ◌*◌, ◌-◌, ◌&&◌, ◌||◌,
  if◌then◌else◌, leb, ltb, List, [], ◌∷◌, ◌===◌, ◌==◌, length, select, any, every,
}
use c_address_onboarding_bri.Prelude.Result.{Result, ok, err, ◌>>=◌, ◌>>◌, guard}

abbrev pub Text : Type 0
Text = List ℕ

pub data XdrValidationCode : Type 0 where
  xdr_too_large xdr_invalid_base64 xdr_parse_failed wrong_network fee_too_low fee_too_high :
      XdrValidationCode
  transaction_expired transaction_not_yet_valid transaction_too_far_future : XdrValidationCode
  invalid_source_account no_invoke_host_function unexpected_operation : XdrValidationCode
  unsupported_host_function function_not_allowed wrong_contract duplicate_transaction :
      XdrValidationCode
  -- Not a code of the source: the error that the SDK throws for an address of no contract.
  thrown_by_sdk : XdrValidationCode

pub record TimeBounds : Type 0 where
  pub min_time : ℕ
  pub max_time : ℕ

-- The address that a call names; `contractId()` throws for one that is of no contract.
pub data CalledAddress : Type 0 where
  contract : String → CalledAddress
  no_contract : CalledAddress

pub record InvokeContract : Type 0 where
  pub contract_address : CalledAddress
  pub function_name : String

pub data HostFunction : Type 0 where
  invoke_contract : InvokeContract → HostFunction
  other_host_function : String → HostFunction

pub data Operation : Type 0 where
  invoke_host_function : HostFunction → Operation
  other_operation : String → Operation

-- What the validation reads of the SDK's `Transaction`.
pub record Transaction : Type 0 where
  pub network_passphrase : String
  pub fee : ℕ
  pub time_bounds : Option TimeBounds
  pub source : Text
  pub operations : List Operation
  pub hash : String

-- What the SDK makes of an envelope; a fee bump has a fee source and an inner transaction.
pub data Parsed : Type 0 where
  transaction : Transaction → Parsed
  fee_bump : Text → Transaction → Parsed

pub record XdrValidationResult : Type 0 where
  pub tx_hash : String
  pub source_account : Text
  pub fee : ℕ
  pub operation_count : ℕ

pub record XdrValidationOptions : Type 0 where
  pub network_passphrase : Option String
  pub contract_id : Option String
  pub max_byte_length : Option ℕ
  pub skip_contract_check : Bool
  pub endpoint : Option String
  pub allowed_functions : Option (List String)

-- `config.soroban`
pub record Config : Type 0 where
  pub network_passphrase : String
  pub bridge_contract_id : Option String

unfoldable pub max_xdr_byte_length : ℕ
max_xdr_byte_length = 64 * 1024

unfoldable pub min_fee_stroops : ℕ
min_fee_stroops = 100

unfoldable pub max_fee_stroops : ℕ
max_fee_stroops = 10000000

unfoldable pub max_future_time_ms : ℕ
max_future_time_ms = 60 * 60 * 1000

unfoldable pub seen_hash_ttl_seconds : ℕ
seen_hash_ttl_seconds = 24 * 60 * 60

-- `ALLOWED_FUNCTIONS_BY_ENDPOINT[endpoint] ?? DEFAULT_ALLOWED_FUNCTIONS`
abbrev pub default_allowed_functions : List String
default_allowed_functions = "fund" ∷ "deposit" ∷ []

unfoldable pub allowed_functions_by_endpoint : String → Option (List String)
allowed_functions_by_endpoint e =
    if e === "fund"
    then some ("fund" ∷ "deposit" ∷ [])
    else if e === "register"
    then some ("register" ∷ [])
    else none

-- `a ?? b`
abbrev pub or_else {ℓ} : {A : Type ℓ} → Option A → A → A
or_else none b = b
or_else (some a) b = a

unfoldable pub functions_of_endpoint : Option String → List String
functions_of_endpoint none = default_allowed_functions
functions_of_endpoint (some e) =
    if e === ""
    then default_allowed_functions
    else or_else (allowed_functions_by_endpoint e) default_allowed_functions

-- A code unit from a to b.
abbrev pub within : ℕ → ℕ → ℕ → Bool
within a b c = leb a c && leb c b

-- `/^[GC][A-Z2-7]{55}$/`
abbrev pub is_base32 : ℕ → Bool
is_base32 c = within 65 90 c || within 50 55 c

unfoldable pub is_valid_stellar_address : Text → Bool
is_valid_stellar_address [] = false
is_valid_stellar_address (c ∷ cs) = (c == 71 || c == 67) && (every is_base32 cs && length cs == 55)

-- `\s`
unfoldable pub is_space : ℕ → Bool
is_space c =
    within 9 13 c
    || c == 32
    || c == 160
    || c == 5760
    || within 8192 8202 c
    || within 8232 8233 c
    || c == 8239
    || c == 8287
    || c == 12288
    || c == 65279

-- `[A-Za-z0-9+/]`
unfoldable pub is_base64_unit : ℕ → Bool
is_base64_unit c = within 65 90 c || within 97 122 c || within 48 57 c || c == 43 || c == 47

-- `={0,n}$`
unfoldable pub is_padding : ℕ → Text → Bool
is_padding n [] = true
is_padding zero (c ∷ cs) = false
is_padding (suc n) (c ∷ cs) = c == 61 && is_padding n cs

-- `/^[A-Za-z0-9+/]*={0,2}$/`; the character = is not in the class, so that the repetition ends at the first.
unfoldable pub is_base64 : Text → Bool
is_base64 [] = true
is_base64 (c ∷ cs) = if is_base64_unit c then is_base64 cs else is_padding 2 (c ∷ cs)

abbrev pub strip : Text → Text
strip cs = select (λ c. not (is_space c)) cs
