-- ===== src/ApiKeys/Histories.antt =====
-- Sequences of operations on the keys, and what they keep of a key.
use c_address_onboarding_bri.Prelude.{
  ℕ, zero, suc, String, Bool, true, false, Option, none, some, ◌≡◌, ◌≢◌, refl, sym, ◌∙◌, subst,
  if◌then◌else◌, ◌===◌, ===_iff, List, [], ◌∷◌, ◌++◌, length, get_elem?, All, arith, inl, inr,
  Bool-cases,
}
use c_address_onboarding_bri.Json.{◌+++◌}
use c_address_onboarding_bri.JsMap
use c_address_onboarding_bri.JsMap.Laws.{get-set, has-get}
use c_address_onboarding_bri.JsText.{Text, trim}
use c_address_onboarding_bri.ApiKeys.{
  ApiKeyRecord, CreateKeyInput, Patch, KeyState, Request, Refusal, refused, missing_api_key, change,
  add_record, revoke_api_key, update_api_key, create_api_key, resolve_record, refusal_of, admit,
  changed_at, with_record, with_header, rbac_auth, seed_one, legacy_record,
}

pub data Op : Type 0 where
  create : ℕ → String → String → CreateKeyInput → Op
  revoke : ℕ → String → Op
  update : ℕ → String → Patch → Op
  authenticate : ℕ → Request → Op
  seed : ℕ → String → String → Op

get_elem?-append :
    {A : Type 0} (xs ys : List A) (i : ℕ) (x : A)
    → get_elem? xs i ≡ some x
    → get_elem? (xs ++ ys) i ≡ some x
get_elem?-append [] ys i x h = absurd cc
get_elem?-append (y ∷ xs) ys zero x h = h
get_elem?-append (y ∷ xs) ys (suc i) x h = get_elem?-append xs ys i x h

pub get_elem?-last :
    {A : Type 0} (xs : List A) (x : A) → get_elem? (xs ++ x ∷ []) (length xs) ≡ some x
get_elem?-last [] x = refl
get_elem?-last (y ∷ xs) x = get_elem?-last xs x

-- At a reference there is a record, revoked if the flag says so.
abbrev pub IsThere : Bool → List ApiKeyRecord → ℕ → Type 0
IsThere flag heap r =
    (k : ApiKeyRecord) × (get_elem? heap r ≡ some k) × (flag ≡ true → k.revoked ≡ true)

change-IsThere :
    (flag : Bool) (i : ℕ) (f : ApiKeyRecord → ApiKeyRecord) (ks : List ApiKeyRecord) (r : ℕ)
    → ((k : ApiKeyRecord) → k.revoked ≡ true → (f k).revoked ≡ true)
    → IsThere flag ks r
    → IsThere flag (change i f ks) r
change-IsThere flag i f [] r m (k, e, h) = absurd cc
change-IsThere flag zero f (x ∷ ks) zero m (k, e, h) =
    (f x, refl, λ b. m x (subst (λ j. j.revoked ≡ true) (sym (same x k e)) (h b)))
  where
    same : (x k : ApiKeyRecord) → some x ≡ some k → x ≡ k
    same x k e = cc
change-IsThere flag zero f (x ∷ ks) (suc r) m h = h
change-IsThere flag (suc i) f (x ∷ ks) zero m h = h
change-IsThere flag (suc i) f (x ∷ ks) (suc r) m h = change-IsThere flag i f ks r m h

module _ (hash_key : String → String) (is_ip : Text → ℕ) where
  abbrev pub apply : Op → KeyState → KeyState
  apply (create now hex uuid input) st = (create_api_key hash_key is_ip now hex uuid input st).0
  apply (revoke now id) st = (revoke_api_key now id st).0
  apply (update now id p) st = (update_api_key now id p st).0
  apply (authenticate now req) st = (rbac_auth hash_key is_ip now req st).0
  apply (seed now entry uuid) st = seed_one hash_key is_ip now entry uuid st

  abbrev pub run : List Op → KeyState → KeyState
  run [] st = st
  run (op ∷ ops) st = run ops (apply op st)

  -- The operation draws another id, and creates no key with this hash.
  abbrev pub Avoids : String → String → Op → Type 0
  Avoids id key_hash (create now hex uuid input) =
      (uuid ≢ id) × (hash_key ("cab_" +++ hex) ≢ key_hash)
  Avoids id key_hash (revoke now other) = Unit
  Avoids id key_hash (update now other p) = Unit
  Avoids id key_hash (authenticate now req) = Unit
  Avoids id key_hash (seed now entry uuid) = uuid ≢ id

  -- Both maps lead to one record.
  abbrev pub IsRegistered : Bool → String → String → ℕ → KeyState → Type 0
  IsRegistered flag id key_hash r st =
      (JsMap.get id st.key_store ≡ some r)
      × (JsMap.get key_hash st.key_hash_index ≡ some r)
      × IsThere flag st.heap r

  add-IsRegistered :
      (flag : Bool) (id key_hash : String) (r : ℕ) (k : ApiKeyRecord) (st : KeyState)
      → k.id ≢ id
      → k.key_hash ≢ key_hash
      → IsRegistered flag id key_hash r st
      → IsRegistered flag id key_hash r (add_record k st)
  unfolding add_record
  add-IsRegistered flag id key_hash r k st n m (a, b, (j, e, f)) = (
    ground (arith, get-set k.id id (length st.heap) st.key_store, ===_iff k.id id),
    ground (
      arith,
      get-set k.key_hash key_hash (length st.heap) st.key_hash_index,
      ===_iff k.key_hash key_hash,
    ),
    (j, get_elem?-append st.heap (k ∷ []) r j e, f),
  )

  changed-IsRegistered :
      (flag : Bool) (id key_hash : String) (r : ℕ) (f : ApiKeyRecord → ApiKeyRecord) (o : Option ℕ)
      (st : KeyState)
      → ((k : ApiKeyRecord) → k.revoked ≡ true → (f k).revoked ≡ true)
      → IsRegistered flag id key_hash r st
      → IsRegistered flag id key_hash r (changed_at f o st).0
  changed-IsRegistered flag id key_hash r f none st m h = h
  changed-IsRegistered flag id key_hash r f (some i) st m (a, b, h) =
      (a, b, change-IsThere flag i f st.heap r m h)

  admit-IsRegistered :
      (flag : Bool) (id key_hash : String) (r now : ℕ) (req : Request) (i : ℕ) (k : ApiKeyRecord)
      (o : Option Refusal) (st : KeyState)
      → IsRegistered flag id key_hash r st
      → IsRegistered flag id key_hash r (admit hash_key is_ip now req i k o st).0
  admit-IsRegistered flag id key_hash r now req i k (some why) st h = h
  admit-IsRegistered flag id key_hash r now req i k none st (a, b, h) = (
    a,
    b,
    change-IsThere flag i (λ j. record j { last_used_at = some now }) st.heap r (λ j e. e) h,
  )

  with_record-IsRegistered :
      (flag : Bool) (id key_hash : String) (r now : ℕ) (req : Request)
      (o : Option (ℕ × ApiKeyRecord)) (st : KeyState)
      → IsRegistered flag id key_hash r st
      → IsRegistered flag id key_hash r (with_record hash_key is_ip now req o st).0
  with_record-IsRegistered flag id key_hash r now req none st h = h
  with_record-IsRegistered flag id key_hash r now req (some (i, k)) st h =
      admit-IsRegistered flag id key_hash r now req i k (refusal_of hash_key is_ip now req k) st h

  with_header-IsRegistered :
      (flag : Bool) (id key_hash : String) (r now : ℕ) (req : Request) (o : Option String)
      (st : KeyState)
      → IsRegistered flag id key_hash r st
      → IsRegistered flag id key_hash r (with_header hash_key is_ip now req o st).0
  with_header-IsRegistered flag id key_hash r now req none st h = h
  with_header-IsRegistered flag id key_hash r now req (some raw) st h = by (raw === "") (
      with_record-IsRegistered flag id key_hash r now req (resolve_record hash_key is_ip raw st) st
        h)
    where
      by :
          (b : Bool)
          → IsRegistered flag id key_hash r
              (with_record hash_key is_ip now req (resolve_record hash_key is_ip raw st) st).0
          → IsRegistered flag id key_hash r
              (if b
                then (st, refused missing_api_key)
                else with_record hash_key is_ip now req (resolve_record hash_key is_ip raw st) st).0
      by true g = h
      by false g = g

  seed-IsRegistered :
      (flag : Bool) (id key_hash : String) (r now : ℕ) (entry uuid : String) (st : KeyState)
      → uuid ≢ id
      → IsRegistered flag id key_hash r st
      → IsRegistered flag id key_hash r (seed_one hash_key is_ip now entry uuid st)
  unfolding seed_one
  seed-IsRegistered flag id key_hash r now entry uuid st n h =
      elim (Bool-cases (trim entry === "")) [
        | inl e ↦ rw e h
        | inr e ↦ elim (Bool-cases (JsMap.has (hash_key (trim entry)) st.key_hash_index)) [
          | inl f ↦ rw (e, f) h
          | inr f ↦
              rw (e, f)
                (add-IsRegistered flag id key_hash r
                  (legacy_record hash_key is_ip now uuid (hash_key (trim entry))) st n (another f h)
                  h)
        ]
      ]
    where
      none_some : {i : ℕ} → none ≡ some i → ⊥
      none_some q = cc

      another :
          JsMap.has (hash_key (trim entry)) st.key_hash_index ≡ false
          → IsRegistered flag id key_hash r st
          → hash_key (trim entry) ≢ key_hash
      another f (a, b, c) q = none_some (
          sym (
            subst (λ x. JsMap.get x st.key_hash_index ≡ none) q
              (has-get (hash_key (trim entry)) st.key_hash_index f))
          ∙ b)

  apply-IsRegistered :
      (flag : Bool) (id key_hash : String) (r : ℕ) (op : Op) (st : KeyState)
      → Avoids id key_hash op
      → IsRegistered flag id key_hash r st
      → IsRegistered flag id key_hash r (apply op st)
  unfolding create_api_key revoke_api_key update_api_key rbac_auth
  apply-IsRegistered flag id key_hash r (create now hex uuid input) st (n, m) h =
      add-IsRegistered flag id key_hash r _ st n m h
  apply-IsRegistered flag id key_hash r (revoke now other) st n h =
      changed-IsRegistered flag id key_hash r _ (JsMap.get other st.key_store) st (λ k e. refl) h
  apply-IsRegistered flag id key_hash r (update now other p) st n h =
      changed-IsRegistered flag id key_hash r _ (JsMap.get other st.key_store) st (λ k e. e) h
  apply-IsRegistered flag id key_hash r (authenticate now req) st n h =
      with_header-IsRegistered flag id key_hash r now req req.api_key st h
  apply-IsRegistered flag id key_hash r (seed now entry uuid) st n h =
      seed-IsRegistered flag id key_hash r now entry uuid st n h

  pub run-IsRegistered :
      (flag : Bool) (id key_hash : String) (r : ℕ) (ops : List Op) (st : KeyState)
      → All (Avoids id key_hash) ops
      → IsRegistered flag id key_hash r st
      → IsRegistered flag id key_hash r (run ops st)
  run-IsRegistered flag id key_hash r [] st n h = h
  run-IsRegistered flag id key_hash r (op ∷ ops) st (n, ns) h =
      run-IsRegistered flag id key_hash r ops (apply op st) ns
        (apply-IsRegistered flag id key_hash r op st n h)
