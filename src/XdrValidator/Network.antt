-- ===== src/XdrValidator/Network.antt =====
-- The network rule of api/src/services/xdrValidator.ts, for an SDK that gives a parsed transaction the network
-- it was asked to parse for (an envelope does not name one).
use c_address_onboarding_bri.Prelude.{
  ℕ, String, Bool, true, false, Option, none, some, List, [], ◌∷◌, ===_iff, ◌≡◌, ◌≢◌, refl, arith,
}
use c_address_onboarding_bri.Prelude.Result.{ok, err, ◌>>=◌, ◌>>◌, guard}
use c_address_onboarding_bri.XdrValidator.{
  Text, XdrValidationCode, xdr_too_large, xdr_invalid_base64, xdr_parse_failed, wrong_network,
  fee_too_low, fee_too_high, invalid_source_account, duplicate_transaction, CalledAddress, contract,
  no_contract, TimeBounds, invoke_contract, other_host_function, Operation, invoke_host_function,
  other_operation, Transaction, Parsed, transaction, fee_bump, XdrValidationOptions, Config, strip,
}
use c_address_onboarding_bri.XdrValidator.Rules.{
  Checked, check_size, decode_base64, unwrap, check_network, check_fee, check_max_time,
  check_time_bounds, check_source_account, check_call, check_contract, check_operation,
  check_operations, expected_network, check_transaction, parse_envelope, validate_xdr,
}
use c_address_onboarding_bri.XdrValidator.Soundness.{IsEnvelopeOf, parse_envelope_lem}

module _ {A : Type 0} where
  abbrev IsOther : Checked A → Type 0
  IsOther m = m ≢ err wrong_network

IsOther-guard : (b : Bool) (e : XdrValidationCode) → e ≢ wrong_network → IsOther (guard b e)
IsOther-guard true e ne = λ h. cc
IsOther-guard false e ne = λ h. ne cc

module _ {A : Type 0} where
  IsOther-sequence :
      (m : Checked (Unit {0})) (k : Checked A) → IsOther m → IsOther k → IsOther (m >> k)
  IsOther-sequence (ok u) k a b = b
  IsOther-sequence (err e) k a b = λ h. a cc

  IsOther-ok : (a : A) → IsOther (ok a)
  IsOther-ok a h = cc

module _ {A B : Type 0} where
  IsOther->>= :
      (m : Checked B) (k : B → Checked A)
      → IsOther m
      → ((b : B) → m ≡ ok b → IsOther (k b))
      → IsOther (m >>= k)
  IsOther->>= (ok u) k a b = b u refl
  IsOther->>= (err e) k a b = λ h. a cc

check_fee-IsOther : (tx : Transaction) → IsOther (check_fee tx)
unfolding check_fee
check_fee-IsOther tx =
    IsOther-sequence _ _ (IsOther-guard _ fee_too_low (λ h. cc))
      (IsOther-guard _ fee_too_high (λ h. cc))

check_time_bounds-IsOther : (now : ℕ) (o : Option TimeBounds) → IsOther (check_time_bounds now o)
unfolding check_time_bounds check_max_time
check_time_bounds-IsOther now none = λ h. cc
check_time_bounds-IsOther now (some bounds) = λ h. ground arith

check_call-IsOther :
    (id : Option String) (allowed : List String) (name : String) (address : CalledAddress)
    → IsOther (check_call id allowed name address)
check_call-IsOther id allowed name no_contract = λ h. cc
check_call-IsOther id allowed name (contract address) = λ h. ground arith

check_operations-IsOther :
    (id : Option String) (allowed : List String) (ops : List Operation)
    → IsOther (check_operations id allowed ops)
unfolding check_operations check_operation check_contract
check_operations-IsOther id allowed [] = λ h. cc
check_operations-IsOther id allowed (other_operation k ∷ []) = λ h. cc
check_operations-IsOther id allowed (invoke_host_function (other_host_function k) ∷ []) = λ h. cc
check_operations-IsOther id allowed (invoke_host_function (invoke_contract call) ∷ []) =
    check_call-IsOther id allowed call.function_name call.contract_address
check_operations-IsOther id allowed (op ∷ op' ∷ ops) = λ h. cc

check_transaction-IsOther :
    (seen : String → Bool) (now : ℕ) (options : XdrValidationOptions) (config : Config)
    (tx : Transaction)
    → tx.network_passphrase ≡ expected_network options config
    → IsOther (check_transaction seen now options config tx)
unfolding check_transaction check_network check_source_account
check_transaction-IsOther seen now options config tx same =
    IsOther-sequence _ _
      (λ h.
        let q = (===_iff tx.network_passphrase (expected_network options config)).1 same in
        ground arith)
      (IsOther-sequence _ _ (check_fee-IsOther tx) (
        IsOther-sequence _ _ (check_time_bounds-IsOther now tx.time_bounds) (
          IsOther-sequence _ _ (IsOther-guard _ invalid_source_account (λ h. cc)) (
            IsOther-sequence _ _ (check_operations-IsOther _ _ tx.operations) (
              IsOther-sequence _ _ (IsOther-guard _ duplicate_transaction (λ h. cc))
                (IsOther-ok _))))))

module _ (from_xdr : Text → String → Option Parsed) where
  parse_envelope-IsOther :
      (raw : Text) (passphrase : String) → IsOther (parse_envelope from_xdr raw passphrase)
  unfolding parse_envelope unwrap
  parse_envelope-IsOther raw passphrase =
      elim (from_xdr raw passphrase)
        as (λ o. IsOther (elim o [ none ↦ err xdr_parse_failed | some parsed ↦ unwrap parsed ])) [
          | none ↦ λ h. cc
          | some (transaction tx') ↦ λ h. cc
          | some (fee_bump source tx') ↦
              IsOther-sequence _ _ (IsOther-guard _ invalid_source_account (λ h. cc))
                (IsOther-ok tx')
        ]

  -- If the SDK gives each transaction that it parses the network it was asked to parse for, no validation
  -- ends with the error for another network.
  pub validate_xdr-IsOther :
      ((raw : Text) (passphrase : String) (tx : Transaction)
        → IsEnvelopeOf from_xdr tx (from_xdr raw passphrase)
        → tx.network_passphrase ≡ passphrase)
      → (seen : String → Bool) (now : ℕ) (xdr : Text) (options : XdrValidationOptions)
        (config : Config)
      → validate_xdr from_xdr seen now xdr options config ≢ err wrong_network
  unfolding validate_xdr check_size decode_base64
  validate_xdr-IsOther parsed_for seen now xdr options config =
      let passphrase = expected_network options config in
      IsOther-sequence _ _ (IsOther-guard _ xdr_too_large (λ h. cc)) (
        IsOther->>= _ _
          (IsOther-sequence _ _ (IsOther-guard _ xdr_invalid_base64 (λ h. cc))
            (IsOther-ok (strip xdr)))
          (λ raw e. IsOther->>= _ _ (parse_envelope-IsOther raw passphrase) (λ tx parsed.
            check_transaction-IsOther seen now options config tx (
              parsed_for raw passphrase tx
                ((parse_envelope_lem from_xdr raw passphrase tx).0 parsed)))))
