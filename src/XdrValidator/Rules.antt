-- ===== src/XdrValidator/Rules.antt =====
-- The rules of api/src/services/xdrValidator.ts and `validateXdr`, which runs them in order.
use c_address_onboarding_bri.Prelude.{
  ℕ, String, Bool, false, not, Option, none, some, ◌+◌, ◌*◌, ◌&&◌, if◌then◌else◌, leb, List, [],
  ◌∷◌, ◌===◌, ◌==◌, length, any,
}
use c_address_onboarding_bri.Prelude.Result.{Result, ok, err, ◌>>=◌, ◌>>◌, guard}
use c_address_onboarding_bri.XdrValidator.{
  Text, XdrValidationCode, xdr_too_large, xdr_invalid_base64, xdr_parse_failed, wrong_network,
  fee_too_low, fee_too_high, transaction_expired, transaction_too_far_future,
  invalid_source_account, no_invoke_host_function, unexpected_operation, unsupported_host_function,
  function_not_allowed, wrong_contract, duplicate_transaction, thrown_by_sdk, CalledAddress,
  contract, no_contract, TimeBounds, InvokeContract, invoke_contract, other_host_function,
  Operation, invoke_host_function, other_operation, Transaction, Parsed, transaction, fee_bump,
  XdrValidationResult, XdrValidationOptions, Config, max_xdr_byte_length, min_fee_stroops,
  max_fee_stroops, max_future_time_ms, functions_of_endpoint, or_else, is_valid_stellar_address,
  is_base64, strip,
}

abbrev pub Checked : Type 0 → Type 0
Checked A = Result XdrValidationCode A

unfoldable pub check_size : Text → ℕ → Checked (Unit {0})
check_size xdr max_byte_length = guard (leb (length xdr) max_byte_length) xdr_too_large

-- The text without white space, which `Buffer.from` decodes.
unfoldable pub decode_base64 : Text → Checked Text
decode_base64 xdr = do guard (is_base64 (strip xdr)) xdr_invalid_base64; ok (strip xdr)

unfoldable pub unwrap : Parsed → Checked Transaction
unwrap (transaction tx) = ok tx
unwrap (fee_bump fee_source tx) = do
  guard (is_valid_stellar_address fee_source) invalid_source_account
  ok tx

unfoldable pub check_network : Transaction → String → Checked (Unit {0})
check_network tx passphrase = guard (tx.network_passphrase === passphrase) wrong_network

unfoldable pub check_fee : Transaction → Checked (Unit {0})
check_fee tx = do
  guard (leb min_fee_stroops tx.fee) fee_too_low
  guard (leb tx.fee max_fee_stroops) fee_too_high

unfoldable pub check_max_time : ℕ → ℕ → Checked (Unit {0})
check_max_time now max_time = if max_time == 0 then ok tt else (do
  guard (leb now (max_time * 1000)) transaction_expired
  guard (leb (max_time * 1000) (now + max_future_time_ms)) transaction_too_far_future)

unfoldable pub check_time_bounds : ℕ → Option TimeBounds → Checked (Unit {0})
check_time_bounds now none = ok tt
check_time_bounds now (some bounds) = check_max_time now bounds.max_time

unfoldable pub check_source_account : Transaction → Checked (Unit {0})
check_source_account tx = guard (is_valid_stellar_address tx.source) invalid_source_account

-- `allowedFunctions.includes(name)`
abbrev pub includes : List String → String → Bool
includes names name = any (λ n. n === name) names

-- `contractId && address !== contractId`; an empty contract id is none.
unfoldable pub is_wrong_contract : Option String → String → Bool
is_wrong_contract none address = false
is_wrong_contract (some id) address = not (id === "") && not (address === id)

abbrev pub check_call : Option String → List String → String → CalledAddress → Checked (Unit {0})
check_call contract_id allowed name no_contract = err thrown_by_sdk
check_call contract_id allowed name (contract address) = do
  guard (not (is_wrong_contract contract_id address)) wrong_contract
  guard (includes allowed name) function_not_allowed
  guard (not (is_wrong_contract contract_id address)) wrong_contract

unfoldable pub check_contract : Option String → List String → InvokeContract → Checked (Unit {0})
check_contract contract_id allowed call =
    check_call contract_id allowed call.function_name call.contract_address

unfoldable pub check_operation : Option String → List String → Operation → Checked (Unit {0})
check_operation contract_id allowed (other_operation kind) = err no_invoke_host_function
check_operation contract_id allowed (invoke_host_function (other_host_function kind)) =
    err unsupported_host_function
check_operation contract_id allowed (invoke_host_function (invoke_contract call)) =
    check_contract contract_id allowed call

unfoldable pub check_operations : Option String → List String → List Operation → Checked (Unit {0})
check_operations contract_id allowed (op ∷ []) = check_operation contract_id allowed op
check_operations contract_id allowed [] = err unexpected_operation
check_operations contract_id allowed (op ∷ op' ∷ ops) = err unexpected_operation

-- What the options and the configuration come to.
unfoldable pub expected_network : XdrValidationOptions → Config → String
expected_network options config = or_else options.network_passphrase config.network_passphrase

unfoldable pub expected_contract : XdrValidationOptions → Config → Option String
expected_contract options config =
    if options.skip_contract_check
    then none
    else (elim options.contract_id [ none ↦ config.bridge_contract_id | some id ↦ some id ])

unfoldable pub allowed_functions_of : XdrValidationOptions → List String
allowed_functions_of options =
    or_else options.allowed_functions (functions_of_endpoint options.endpoint)

-- The rules on a parsed transaction, 4 to 11; `seen` is `hasSeenHash`.
unfoldable pub check_transaction :
    (String → Bool) → ℕ → XdrValidationOptions → Config → Transaction → Checked XdrValidationResult
check_transaction seen now options config tx = do
  check_network tx (expected_network options config)
  check_fee tx
  check_time_bounds now tx.time_bounds
  check_source_account tx
  check_operations (expected_contract options config) (allowed_functions_of options) tx.operations
  guard (not (seen tx.hash)) duplicate_transaction
  ok (record {
    tx_hash = tx.hash;
    source_account = tx.source;
    fee = tx.fee;
    operation_count = length tx.operations;
  })

module _ (from_xdr : Text → String → Option Parsed) where
  -- `parseEnvelope`: the SDK decodes the bytes of the text for the network, or throws.
  unfoldable pub parse_envelope : Text → String → Checked Transaction
  parse_envelope stripped passphrase = elim (from_xdr stripped passphrase) [
    | none ↦ err xdr_parse_failed
    | some parsed ↦ unwrap parsed
  ]

  unfoldable pub validate_xdr :
      (String → Bool) → ℕ → Text → XdrValidationOptions → Config → Checked XdrValidationResult
  validate_xdr seen now xdr options config = do
    check_size xdr (or_else options.max_byte_length max_xdr_byte_length)
    raw ← decode_base64 xdr
    tx ← parse_envelope raw (expected_network options config)
    check_transaction seen now options config tx
