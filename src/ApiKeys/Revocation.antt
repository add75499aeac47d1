-- ===== src/ApiKeys/Revocation.antt =====
-- A key that was revoked is refused, whatever is done afterwards.
use Prim.Native.String.{count}
use text.Mathlib.TextLemmas.{length-append}
use c_address_onboarding_bri.Prelude.{
  ===-cases, ℕ, zero, suc, String, true, false, none, some, ◌≡◌, refl, ap, ◌∙◌, if◌then◌else◌,
  ◌===◌, ===_refl, List, [], ◌∷◌, length, get_elem?, All, arith, inl, inr,
}
use c_address_onboarding_bri.Json.{◌+++◌}
use c_address_onboarding_bri.JsMap
use c_address_onboarding_bri.JsMap.Laws.{get-set}
use c_address_onboarding_bri.JsText.{Text}
use c_address_onboarding_bri.ApiKeys.{
  ApiKeyRecord, CreateKeyInput, KeyState, Request, refused, missing_api_key, revoked_api_key,
  change, add_record, found_at, paired, revoke_api_key, create_api_key, resolve_record, refusal_of,
  with_record, with_header, rbac_auth, admit,
}
use c_address_onboarding_bri.ApiKeys.Histories.{
  Op, run, Avoids, IsThere, IsRegistered, run-IsRegistered, get_elem?-last,
}

module _ (hash_key : String → String) (is_ip : Text → ℕ) where
  create-IsRegistered :
      (now : ℕ) (hex uuid : String) (input : CreateKeyInput) (st : KeyState)
      → IsRegistered hash_key is_ip false uuid
          (hash_key ("cab_" +++ hex))
          (length st.heap)
          (create_api_key hash_key is_ip now hex uuid input st).0
  unfolding create_api_key add_record
  create-IsRegistered now hex uuid input st =
      let hash = hash_key ("cab_" +++ hex) in
      (
        get-set uuid uuid (length st.heap) st.key_store ∙ rw (===_refl uuid) refl,
        get-set hash hash (length st.heap) st.key_hash_index ∙ rw (===_refl hash) refl,
        (_, get_elem?-last st.heap _, λ e. absurd cc),
      )

  change-IsRevoked :
      (now r : ℕ) (ks : List ApiKeyRecord)
      → IsThere false ks r
      → IsThere true (change r (λ k. record k { revoked = true; updated_at = now }) ks) r
  change-IsRevoked now r [] (k, e, h) = absurd cc
  change-IsRevoked now zero (x ∷ ks) (k, e, h) = (_, refl, λ b. refl)
  change-IsRevoked now (suc r) (x ∷ ks) h = change-IsRevoked now r ks h

  revoke-IsRegistered :
      (now : ℕ) (id key_hash : String) (r : ℕ) (st : KeyState)
      → IsRegistered hash_key is_ip false id key_hash r st
      → ((revoke_api_key now id st).1 ≡ true)
        × IsRegistered hash_key is_ip true id key_hash r (revoke_api_key now id st).0
  unfolding revoke_api_key
  revoke-IsRegistered now id key_hash r st (a, b, h) =
      rw a (refl, (a, b, change-IsRevoked now r st.heap h))

  refusal-revoked :
      (now : ℕ) (req : Request) (k : ApiKeyRecord)
      → k.revoked ≡ true
      → refusal_of hash_key is_ip now req k ≡ some revoked_api_key
  unfolding refusal_of
  refusal-revoked now req k e = rw e refl

  resolved :
      (raw : String) (r : ℕ) (k : ApiKeyRecord) (st : KeyState)
      → raw === "" ≡ false
      → JsMap.get (hash_key raw) st.key_hash_index ≡ some r
      → get_elem? st.heap r ≡ some k
      → resolve_record hash_key is_ip raw st ≡ some (r, k)
  unfolding resolve_record
  resolved raw r k st n b e =
      ap (λ c. if c then none else found_at st.heap (JsMap.get (hash_key raw) st.key_hash_index)) n
      ∙ ap (found_at st.heap) b
      ∙ ap (paired r) e

  auth-IsRefused :
      (now : ℕ) (id raw : String) (r : ℕ) (req : Request) (st : KeyState)
      → raw === "" ≡ false
      → req.api_key ≡ some raw
      → IsRegistered hash_key is_ip true id (hash_key raw) r st
      → rbac_auth hash_key is_ip now req st ≡ (st, refused revoked_api_key)
  unfolding rbac_auth refusal_of
  auth-IsRefused now id raw r req st n q (a, b, (k, e, h)) =
      ap (λ o. with_header hash_key is_ip now req o st) q
      ∙ ap
          (λ c.
            if c
            then (st, refused missing_api_key)
            else with_record hash_key is_ip now req (resolve_record hash_key is_ip raw st) st)
          n
      ∙ ap (λ o. with_record hash_key is_ip now req o st) (resolved raw r k st n b e)
      ∙ ap (λ o. admit hash_key is_ip now req r k o st) (refusal-revoked now req k (h refl))

  -- After a key was created, and whatever was done to the keys then, revoking it by its id succeeds; and
  -- whatever is done after that, every request with its raw key is refused as revoked and changes
  -- nothing; provided that no other key gets the same id or the same hash.
  pub revoke-refuses :
      (now : ℕ) (hex uuid : String) (input : CreateKeyInput) (st : KeyState)
      (before after : List Op) (revoked_at later : ℕ) (req : Request)
      → All (Avoids hash_key is_ip uuid (hash_key ("cab_" +++ hex))) before
      → All (Avoids hash_key is_ip uuid (hash_key ("cab_" +++ hex))) after
      → req.api_key ≡ some ("cab_" +++ hex)
      → ((revoke_api_key revoked_at uuid
            (run hash_key is_ip before (create_api_key hash_key is_ip now hex uuid input st).0)).1
          ≡ true)
        × (rbac_auth hash_key is_ip later req (
              run hash_key is_ip after
                (revoke_api_key revoked_at uuid (
                  run hash_key is_ip before
                    (create_api_key hash_key is_ip now hex uuid input st).0)).0)
            ≡ (
              run hash_key is_ip after
                  (revoke_api_key revoked_at uuid (
                    run hash_key is_ip before
                      (create_api_key hash_key is_ip now hex uuid input st).0)).0,
              refused revoked_api_key,
            ))
  revoke-refuses now hex uuid input st before after revoked_at later req a b q =
      let raw = "cab_" +++ hex in
      let made = create_api_key hash_key is_ip now hex uuid input st in
      let old = run hash_key is_ip before made.0 in
      let held =
        run-IsRegistered hash_key is_ip false uuid (hash_key raw) (length st.heap) before made.0 a
          (create-IsRegistered now hex uuid input st) in
      let (done, gone) =
        revoke-IsRegistered revoked_at uuid (hash_key raw) (length st.heap) old held in
      (
        done,
        auth-IsRefused later uuid raw (length st.heap) req
            (run hash_key is_ip after (revoke_api_key revoked_at uuid old).0) not_empty q
            (run-IsRegistered hash_key is_ip true uuid (hash_key raw) (length st.heap) after
              (revoke_api_key revoked_at uuid old).0 b gone),
      )
    where
      not_empty : ("cab_" +++ hex) === "" ≡ false
      not_empty = elim (===-cases ("cab_" +++ hex) "") [
        | inl e ↦ absurd (omega (arith, length-append "cab_" hex, ap count e))
        | inr e ↦ e
      ]
