-- ===== src/XdrValidator/Tests.antt =====
-- Validations of a sample transaction, with an SDK that parses every text to it and a cache of expiry times.
use c_address_onboarding_bri.Prelude.{
  ℕ, zero, suc, String, Bool, true, false, Option, none, some, if◌then◌else◌, ltb, [], ◌∷◌, ◌+◌,
  ◌*◌, ◌≤◌, ◌<◌, ◌===◌, ===_refl, ◌≡◌, refl, arith,
}
use c_address_onboarding_bri.Prelude.Result.{ok, err}
use c_address_onboarding_bri.XdrValidator.{
  Text, XdrValidationCode, xdr_too_large, xdr_invalid_base64, xdr_parse_failed, wrong_network,
  fee_too_low, fee_too_high, transaction_expired, transaction_too_far_future,
  invalid_source_account, no_invoke_host_function, unexpected_operation, unsupported_host_function,
  function_not_allowed, wrong_contract, duplicate_transaction, thrown_by_sdk, CalledAddress,
  contract, no_contract, TimeBounds, InvokeContract, HostFunction, invoke_contract,
  other_host_function, Operation, invoke_host_function, other_operation, Transaction, Parsed,
  transaction, fee_bump, XdrValidationResult, XdrValidationOptions, Config, max_xdr_byte_length,
  min_fee_stroops, max_fee_stroops, max_future_time_ms, seen_hash_ttl_seconds,
  functions_of_endpoint, is_valid_stellar_address, is_space, is_base64_unit, is_padding, is_base64,
  default_allowed_functions,
}
use c_address_onboarding_bri.XdrValidator.Rules.{
  check_size, decode_base64, unwrap, check_network, check_fee, check_max_time, check_time_bounds,
  check_source_account, is_wrong_contract, check_contract, check_operation, check_operations,
  expected_network, expected_contract, allowed_functions_of, check_transaction, parse_envelope,
  validate_xdr,
}
use c_address_onboarding_bri.XdrValidator.Soundness.{summary}
use c_address_onboarding_bri.XdrValidator.Replay.{has_seen_hash, record_seen_hash}

abbrev units : ℕ → Text
units zero = []
units (suc n) = 65 ∷ units n

abbrev sample : String → Transaction
sample passphrase = record {
  network_passphrase = passphrase;
  fee = 1000;
  time_bounds = some (record { min_time = 0; max_time = 5 });
  source = 71 ∷ units 55;
  operations =
      invoke_host_function
        (invoke_contract (record { contract_address = contract "C1"; function_name = "fund" }))
      ∷ [];
  hash = "ab";
}

abbrev sdk : Text → String → Option Parsed
sdk raw passphrase = some (transaction (sample passphrase))

abbrev no_options : XdrValidationOptions
no_options = record {
  network_passphrase = none;
  contract_id = none;
  max_byte_length = none;
  skip_contract_check = false;
  endpoint = some "fund";
  allowed_functions = none;
}

abbrev config : Config
config = record { network_passphrase = "net"; bridge_contract_id = some "C1" }

abbrev xdr : Text
xdr = 65 ∷ 66 ∷ 32 ∷ 61 ∷ 61 ∷ []

abbrev Cache : Type 0
Cache = String → ℕ

abbrev has : ℕ → String → Cache → Bool
has now key c = ltb now (c key)

abbrev set : ℕ → String → ℕ → Cache → Cache
set now key seconds c k = if k === key then now + seconds * 1000 else c k

validate-sample :
    validate_xdr sdk
      (has_seen_hash has set 10 (record_seen_hash has set 10 "cd" (λ k. 0)))
      10
      xdr
      no_options
      config
    ≡ ok (summary (sample "net"))
unfolding validate_xdr check_size decode_base64 parse_envelope unwrap check_transaction
    check_network check_fee check_time_bounds check_max_time check_source_account check_operations
    check_operation check_contract is_wrong_contract expected_contract expected_network
    allowed_functions_of functions_of_endpoint
    c_address_onboarding_bri.XdrValidator.allowed_functions_by_endpoint is_valid_stellar_address
    is_space is_base64 is_base64_unit is_padding max_xdr_byte_length min_fee_stroops max_fee_stroops
    max_future_time_ms has_seen_hash record_seen_hash seen_hash_ttl_seconds
validate-sample = refl

validate-expired :
    validate_xdr sdk (λ h. false) 6000 xdr no_options config ≡ err transaction_expired
unfolding validate_xdr check_size decode_base64 parse_envelope unwrap check_transaction
    check_network check_fee check_time_bounds check_max_time check_source_account check_operations
    check_operation check_contract expected_contract expected_network is_space is_base64
    is_base64_unit is_padding max_xdr_byte_length min_fee_stroops max_fee_stroops max_future_time_ms
validate-expired = refl

holds :
    (now later : ℕ) (key : String) (seconds : ℕ) (seen : Cache)
    → now ≤ later
    → later < now + seconds * 1000
    → has later key (set now key seconds seen) ≡ true
holds now later key seconds seen from_now in_time = let e = ===_refl key in ground arith
