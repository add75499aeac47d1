-- ===== src/XdrValidator/Replay.antt =====
-- The record of submitted transactions of api/src/services/xdrValidator.ts: `recordSeenHash` and `hasSeenHash`
-- on the cache of the package node-cache, whose `has` and `set` are parameters.
use c_address_onboarding_bri.Prelude.{
  ℕ, String, Bool, true, false, Option, ◌+◌, ◌*◌, ◌≤◌, ◌<◌, ◌≡◌, ◌≢◌, sym, ap, ◌∙◌, subst, arith,
}
use c_address_onboarding_bri.Prelude.Result.{ok}
use c_address_onboarding_bri.XdrValidator.{
  Text, Parsed, XdrValidationOptions, XdrValidationResult, Config, seen_hash_ttl_seconds,
}
use c_address_onboarding_bri.XdrValidator.Rules.{validate_xdr}
use c_address_onboarding_bri.XdrValidator.Soundness.{validate_xdr-IsAcceptable}

-- The cache at a time, in milliseconds; a value is stored for a number of seconds.
module _ {Cache : Type 0} (has : ℕ → String → Cache → Bool)
    (set : ℕ → String → ℕ → Cache → Cache) where
  unfoldable pub has_seen_hash : ℕ → Cache → String → Bool
  has_seen_hash now seen h = has now h seen

  unfoldable pub record_seen_hash : ℕ → String → Cache → Cache
  record_seen_hash now h seen = set now h seen_hash_ttl_seconds seen

  module _ (from_xdr : Text → String → Option Parsed) where
    -- If the cache holds what is stored for as long as asked, and nothing else is done to it, then in the 24
    -- hours after a hash was recorded no validation, whatever its text, options and configuration, lets a transaction of this hash through.
    pub validate_xdr-record_seen_hash :
        ((now later : ℕ) (key : String) (seconds : ℕ) (seen : Cache)
          → now ≤ later
          → later < now + seconds * 1000
          → has later key (set now key seconds seen) ≡ true)
        → (now later : ℕ) (h : String) (seen : Cache) (xdr : Text) (options : XdrValidationOptions)
          (config : Config) (r : XdrValidationResult)
        → now ≤ later
        → later < now + 86400000
        → validate_xdr from_xdr
            (has_seen_hash later (record_seen_hash now h seen))
            later
            xdr
            options
            config
          ≡ ok r
        → r.tx_hash ≢ h
    unfolding has_seen_hash record_seen_hash seen_hash_ttl_seconds
    validate_xdr-record_seen_hash holds now later h seen xdr options config r from_now in_time valid
          same =
        let (size, base64, (tx, envelope, accepted, v)) =
          (validate_xdr-IsAcceptable from_xdr (has_seen_hash later (record_seen_hash now h seen))
              later xdr options config r).0
            valid in
        let unseen = accepted.5 in
        let held = holds now later h 86400 seen from_now (omega arith) in
        let hash : tx.hash ≡ h = ap (λ s. s.tx_hash) (sym v) ∙ same in
        let seen' : has later h (set now h 86400 seen) ≡ false =
          subst (λ k. has later k (set now h 86400 seen) ≡ false) hash unseen in
        absurd cc
