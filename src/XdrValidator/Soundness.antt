-- ===== src/XdrValidator/Soundness.antt =====
-- `validateXdr` of api/src/services/xdrValidator.ts against an independent description of the transactions
-- that it lets through.
use c_address_onboarding_bri.Prelude.{
  ℕ, String, Bool, true, false, not, Option, none, some, ◌+◌, ◌*◌, ◌≤◌, leb, List, [], ◌∷◌, ◌===◌,
  ===_iff, leb→le, le→leb, length, ◌≡◌, ◌↔◌, ◌⊎◌, refl, sym, ap, ◌∙◌, subst, arith,
}
use c_address_onboarding_bri.Prelude.Result.{
  ok, err, ◌>>=◌, ◌>>◌, guard, >>=-eq-ok, >>-eq-ok, guard_iff,
}
use c_address_onboarding_bri.XdrValidator.{
  Text, xdr_too_large, xdr_invalid_base64, xdr_parse_failed, wrong_network, invalid_source_account,
  duplicate_transaction, CalledAddress, contract, no_contract, TimeBounds, invoke_contract,
  other_host_function, Operation, invoke_host_function, other_operation, Transaction, Parsed,
  transaction, fee_bump, XdrValidationResult, XdrValidationOptions, Config, max_xdr_byte_length,
  min_fee_stroops, max_fee_stroops, max_future_time_ms, or_else, is_valid_stellar_address,
  is_base64, strip,
}
use c_address_onboarding_bri.XdrValidator.Rules.{
  Checked, check_size, decode_base64, unwrap, check_network, check_fee, check_max_time,
  check_time_bounds, check_source_account, includes, is_wrong_contract, check_call, check_contract,
  check_operation, check_operations, expected_network, expected_contract, allowed_functions_of,
  check_transaction, parse_envelope, validate_xdr,
}

-- Valid now, and for at most an hour if at all limited.
abbrev pub IsTimely : ℕ → Option TimeBounds → Type 0
IsTimely now none = Unit
IsTimely now (some bounds) =
    (bounds.max_time ≡ 0) ⊎ (now ≤ bounds.max_time * 1000 × bounds.max_time * 1000 ≤ now + 3600000)

-- One operation, which calls an allowed function of the expected contract.
abbrev pub IsAllowedCall : Option String → List String → String → CalledAddress → Type 0
IsAllowedCall contract_id allowed name no_contract = ⊥
IsAllowedCall contract_id allowed name (contract address) =
    is_wrong_contract contract_id address ≡ false × includes allowed name ≡ true

abbrev pub IsCall : Option String → List String → Operation → Type 0
IsCall contract_id allowed (other_operation kind) = ⊥
IsCall contract_id allowed (invoke_host_function (other_host_function kind)) = ⊥
IsCall contract_id allowed (invoke_host_function (invoke_contract call)) =
    IsAllowedCall contract_id allowed call.function_name call.contract_address

abbrev pub IsInvocation : Option String → List String → List Operation → Type 0
IsInvocation contract_id allowed [] = ⊥
IsInvocation contract_id allowed (op ∷ []) = IsCall contract_id allowed op
IsInvocation contract_id allowed (op ∷ op' ∷ ops) = ⊥

abbrev pub IsAcceptable : (String → Bool) → ℕ → XdrValidationOptions → Config → Transaction → Type 0
IsAcceptable seen now options config tx =
    tx.network_passphrase ≡ expected_network options config
    × (100 ≤ tx.fee × tx.fee ≤ 10000000)
    × IsTimely now tx.time_bounds
    × is_valid_stellar_address tx.source ≡ true
    × IsInvocation (expected_contract options config) (allowed_functions_of options) tx.operations
    × seen tx.hash ≡ false

abbrev pub summary : Transaction → XdrValidationResult
summary tx = record {
  tx_hash = tx.hash;
  source_account = tx.source;
  fee = tx.fee;
  operation_count = 1;
}

check_fee_lem : (tx : Transaction) → (check_fee tx ≡ ok tt) ↔ (100 ≤ tx.fee × tx.fee ≤ 10000000)
unfolding check_fee min_fee_stroops max_fee_stroops
check_fee_lem tx = ((λ h. (ground arith, ground arith)), λ (a, b). ground arith)

check_time_bounds_lem :
    (now : ℕ) (o : Option TimeBounds) → (check_time_bounds now o ≡ ok tt) ↔ IsTimely now o
unfolding check_time_bounds check_max_time max_future_time_ms
check_time_bounds_lem now none = ((λ h. tt), λ h. refl)
check_time_bounds_lem now (some bounds) = ((λ h. ground arith), λ h. ground arith)

check_call_lem :
    (id : Option String) (allowed : List String) (name : String) (address : CalledAddress)
    → (check_call id allowed name address ≡ ok tt) ↔ IsAllowedCall id allowed name address
check_call_lem id allowed name no_contract = ((λ h. absurd cc), λ h. absurd h)
check_call_lem id allowed name (contract address) =
    ((λ h. (ground arith, ground arith)), λ (a, b). ground arith)

check_operations_lem :
    (id : Option String) (allowed : List String) (ops : List Operation)
    → (check_operations id allowed ops ≡ ok tt) ↔ IsInvocation id allowed ops
unfolding check_operations check_operation check_contract
check_operations_lem id allowed [] = ((λ h. absurd cc), λ h. absurd h)
check_operations_lem id allowed (other_operation k ∷ []) = ((λ h. absurd cc), λ h. absurd h)
check_operations_lem id allowed (invoke_host_function (other_host_function k) ∷ []) =
    ((λ h. absurd cc), λ h. absurd h)
check_operations_lem id allowed (invoke_host_function (invoke_contract call) ∷ []) =
    check_call_lem id allowed call.function_name call.contract_address
check_operations_lem id allowed (op ∷ op' ∷ ops) = ((λ h. absurd cc), λ h. absurd h)

-- Five rules and a last test, which let a value through.
in_sequence :
    (a b c d e : Checked (Unit {0})) (s : Bool) (v r : XdrValidationResult)
    → ((do a; b; c; d; e; guard s duplicate_transaction; ok v) ≡ ok r)
      ↔ (a ≡ ok tt × b ≡ ok tt × c ≡ ok tt × d ≡ ok tt × e ≡ ok tt × s ≡ true × r ≡ v)
in_sequence (err x) b c d e s v r = ((λ h. absurd cc), λ h. let q = h.0 in absurd cc)
in_sequence (ok u1) (err x) c d e s v r = ((λ h. absurd cc), λ h. let q = h.1 in absurd cc)
in_sequence (ok u1) (ok v1) (err x) d e s v r = ((λ h. absurd cc), λ h. let q = h.2 in absurd cc)
in_sequence (ok u1) (ok v1) (ok w1) (err x) e s v r =
    ((λ h. absurd cc), λ h. let q = h.3 in absurd cc)
in_sequence (ok u1) (ok v1) (ok w1) (ok x1) (err x) s v r =
    ((λ h. absurd cc), λ h. let q = h.4 in absurd cc)
in_sequence (ok u1) (ok v1) (ok w1) (ok x1) (ok y1) false v r =
    ((λ h. absurd cc), λ h. let q = h.5 in absurd cc)
in_sequence (ok u1) (ok v1) (ok w1) (ok x1) (ok y1) true v r =
    ((λ h. (refl, refl, refl, refl, refl, refl, cc)), λ h. let q = h.6 in cc)

length-IsInvocation :
    (id : Option String) (allowed : List String) (ops : List Operation)
    → IsInvocation id allowed ops
    → length ops ≡ 1
length-IsInvocation id allowed [] h = absurd h
length-IsInvocation id allowed (op ∷ []) h = refl
length-IsInvocation id allowed (op ∷ op' ∷ ops) h = absurd h

check_transaction_lem :
    (seen : String → Bool) (now : ℕ) (options : XdrValidationOptions) (config : Config)
    (tx : Transaction) (r : XdrValidationResult)
    → (check_transaction seen now options config tx ≡ ok r)
      ↔ (IsAcceptable seen now options config tx × r ≡ summary tx)
unfolding check_transaction check_network check_source_account
check_transaction_lem seen now options config tx r =
    let id = expected_contract options config in
    let allowed = allowed_functions_of options in
    let chain =
      in_sequence (check_network tx (expected_network options config)) (check_fee tx)
        (check_time_bounds now tx.time_bounds) (check_source_account tx)
        (check_operations id allowed tx.operations) (not (seen tx.hash))
        (record (summary tx) { operation_count = length tx.operations }) r in
    let network =
      guard_iff (tx.network_passphrase === expected_network options config) wrong_network in
    let same = ===_iff tx.network_passphrase (expected_network options config) in
    let fee = check_fee_lem tx in
    let time = check_time_bounds_lem now tx.time_bounds in
    let source = guard_iff (is_valid_stellar_address tx.source) invalid_source_account in
    let ops = check_operations_lem id allowed tx.operations in
    (
      (λ h.
          let (n, f, t, s, o, d, v) = chain.0 h in
          let call = ops.0 o in
          (
            (same.0 (network.0 n), fee.0 f, time.0 t, source.0 s, call, ground arith),
            v
                ∙ ap (λ k. record (summary tx) { operation_count = k })
                    (length-IsInvocation id allowed tx.operations call),
          )),
      λ (accepted, v).
          let (n, f, t, s, o, d) = accepted in
          chain.1 (
            network.1 (same.1 n),
            fee.1 f,
            time.1 t,
            source.1 s,
            ops.1 o,
            ground arith,
            v
                ∙ sym (
                    ap (λ k. record (summary tx) { operation_count = k })
                      (length-IsInvocation id allowed tx.operations o)),
          ),
    )

-- The rules on the text, and the parse.
in_turn :
    (s t : Bool) (raw : Text) (p : Text → Checked Transaction)
    (k : Transaction → Checked XdrValidationResult) (r : XdrValidationResult)
    → ((do guard s xdr_too_large; raw' ← (do guard t xdr_invalid_base64; ok raw); tx ← p raw'; k tx)
        ≡ ok r)
      ↔ (s ≡ true × t ≡ true × ((tx : Transaction) × (p raw ≡ ok tx) × (k tx ≡ ok r)))
in_turn false t raw p k r = ((λ h. absurd cc), λ h. let q = h.0 in absurd cc)
in_turn true false raw p k r = ((λ h. absurd cc), λ h. let q = h.1 in absurd cc)
in_turn true true raw p k r = (
  (λ h. (refl, refl, >>=-eq-ok (p raw) k h)),
  λ (a, b, (tx, e, h)). subst (λ m. (m >>= k) ≡ ok r) (sym e) h,
)

module _ (from_xdr : Text → String → Option Parsed) where
  -- The transaction in an envelope; the fee source of a fee bump is an address.
  abbrev pub IsEnvelopeOf : Transaction → Option Parsed → Type 0
  IsEnvelopeOf tx none = ⊥
  IsEnvelopeOf tx (some (transaction tx')) = tx' ≡ tx
  IsEnvelopeOf tx (some (fee_bump source tx')) = is_valid_stellar_address source ≡ true × tx' ≡ tx

  pub parse_envelope_lem :
      (raw : Text) (passphrase : String) (tx : Transaction)
      → (parse_envelope from_xdr raw passphrase ≡ ok tx) ↔ IsEnvelopeOf tx (from_xdr raw passphrase)
  unfolding parse_envelope unwrap
  parse_envelope_lem raw passphrase tx =
      elim (from_xdr raw passphrase)
        as (λ o.
          ((elim o [ none ↦ err xdr_parse_failed | some parsed ↦ unwrap parsed ]) ≡ ok tx)
          ↔ IsEnvelopeOf tx o) [
            | none ↦ ((λ h. absurd cc), λ h. absurd h)
            | some (transaction tx') ↦ ((λ h. cc), λ h. ap (λ t. ok t) h)
            | some (fee_bump source tx') ↦ (
              (λ h. (ground arith, ground arith)),
              λ (a, b).
                  (>>-eq-ok (guard (is_valid_stellar_address source) invalid_source_account)
                      (ok tx') tx).1
                    (
                      (guard_iff (is_valid_stellar_address source) invalid_source_account).1 a,
                      ap (λ t. ok t) b,
                    ),
            )
          ]

  pub validate_xdr-IsAcceptable :
      (seen : String → Bool) (now : ℕ) (xdr : Text) (options : XdrValidationOptions)
      (config : Config) (r : XdrValidationResult)
      → (validate_xdr from_xdr seen now xdr options config ≡ ok r) ↔ (
          length xdr ≤ or_else options.max_byte_length 65536
          × is_base64 (strip xdr) ≡ true
          × ((tx : Transaction) × IsEnvelopeOf tx
                (from_xdr (strip xdr) (expected_network options config))
              × IsAcceptable seen now options config tx
              × r ≡ summary tx))
  unfolding validate_xdr check_size decode_base64 max_xdr_byte_length
  validate_xdr-IsAcceptable seen now xdr options config r =
      let limit = or_else options.max_byte_length 65536 in
      let passphrase = expected_network options config in
      let chain =
        in_turn (leb (length xdr) limit) (is_base64 (strip xdr)) (strip xdr)
          (λ raw. parse_envelope from_xdr raw passphrase)
          (check_transaction seen now options config) r in
      (
        (λ h.
            let (size, base64, (tx, parsed, checked)) = chain.0 h in
            let (accepted, v) = (check_transaction_lem seen now options config tx r).0 checked in
            (
              leb→le (length xdr) limit size,
              base64,
              (tx, (parse_envelope_lem (strip xdr) passphrase tx).0 parsed, accepted, v),
            )),
        λ (size, base64, (tx, envelope, accepted, v)). chain.1 (
          le→leb (length xdr) limit size,
          base64,
          (
            tx,
            (parse_envelope_lem (strip xdr) passphrase tx).1 envelope,
            (check_transaction_lem seen now options config tx r).1 (accepted, v),
          ),
        ),
      )
