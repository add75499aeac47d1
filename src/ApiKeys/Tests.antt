-- ===== src/ApiKeys/Tests.antt =====
-- Keys at concrete inputs; the hash of a text is the text.
use c_address_onboarding_bri.Prelude.{
  ℕ, String, true, none, some, ◌≡◌, refl, ◌≤◌, [], ◌∷◌, ◌++◌, arith, length,
}
use c_address_onboarding_bri.JsMap
use c_address_onboarding_bri.JsText.{Text}
use c_address_onboarding_bri.IpRange.{is_ip_allowed}
use c_address_onboarding_bri.ApiKeys.{
  CreateKeyInput, KeyState, Request, refused, revoked_api_key, admitted, quote_read, fund_write,
  create_api_key, revoke_api_key, rbac_auth, resolve_record, refusal_of, add_record,
  seed_legacy_keys, require_scopes,
}
use c_address_onboarding_bri.ApiKeys.Histories.{revoke, authenticate, run}
use c_address_onboarding_bri.ApiKeys.Revocation.{revoke-refuses}
use c_address_onboarding_bri.LastEntries.{last}
use c_address_onboarding_bri.ApiKeys.Trail.{all_recorded, run-trail}
use c_address_onboarding_bri.ApiKeys.Seeding.{seed_legacy_keys_again}

abbrev hash : String → String
hash s = s

abbrev is_ip : Text → ℕ
is_ip t = 4

abbrev no_keys : KeyState
no_keys = record { heap = []; key_store = []; key_hash_index = []; audit_log = [] }

abbrev input : CreateKeyInput
input = record {
  name = "n";
  created_by = "c";
  scopes = quote_read ∷ [];
  ip_whitelist = none;
  expires_at = none;
  rate_limit = none;
}

abbrev with_key : Request
with_key = record { api_key = some "cab_ab"; ip = none; path = "/"; method = "GET" }

abbrev one_key : KeyState
one_key = (create_api_key hash is_ip 1 "ab" "u1" input no_keys).0

key_admitted : (rbac_auth hash is_ip 2 with_key one_key).1 ≡ admitted "u1" (quote_read ∷ [])
unfolding rbac_auth create_api_key add_record resolve_record refusal_of is_ip_allowed JsMap.get
    JsMap.set
key_admitted = refl

lacks_scope : require_scopes (fund_write ∷ []) (some (quote_read ∷ [])) ≡ some (fund_write ∷ [])
unfolding require_scopes
lacks_scope = refl

revoke-refuses_example :
    ((revoke_api_key 3 "u1" (run hash is_ip (authenticate 2 with_key ∷ []) one_key)).1 ≡ true)
    × (rbac_auth hash is_ip 4 with_key
          (revoke_api_key 3 "u1" (run hash is_ip (authenticate 2 with_key ∷ []) one_key)).0
        ≡ (
          (revoke_api_key 3 "u1" (run hash is_ip (authenticate 2 with_key ∷ []) one_key)).0,
          refused revoked_api_key,
        ))
revoke-refuses_example =
    revoke-refuses hash is_ip 1 "ab" "u1" input no_keys (authenticate 2 with_key ∷ []) [] 3 4
      with_key (tt, tt) tt refl

one_key_short : length one_key.audit_log ≤ 10000
unfolding create_api_key add_record
one_key_short = omega arith

run-trail_example :
    (run hash is_ip (authenticate 2 with_key ∷ []) one_key).audit_log
    ≡ last 10000
        (one_key.audit_log ++ all_recorded hash is_ip (authenticate 2 with_key ∷ []) one_key)
run-trail_example = run-trail hash is_ip (authenticate 2 with_key ∷ []) one_key one_key_short

seed_legacy_keys_again_example :
    seed_legacy_keys hash is_ip 9 (("k1", "id2") ∷ []) (
      run hash is_ip
        (revoke 5 "id1" ∷ [])
        (seed_legacy_keys hash is_ip 1 (("k1", "id1") ∷ []) no_keys))
    ≡ run hash is_ip
        (revoke 5 "id1" ∷ [])
        (seed_legacy_keys hash is_ip 1 (("k1", "id1") ∷ []) no_keys)
seed_legacy_keys_again_example =
    seed_legacy_keys_again hash is_ip 1 9 (("k1", "id1") ∷ []) (λ s. "id2") (revoke 5 "id1" ∷ [])
      no_keys
