-- ===== src/ApiKeys/Seeding.antt =====
-- Seeding again changes nothing, so it revives no key that was revoked.
use c_address_onboarding_bri.Prelude.{
  ℕ, String, true, Option, none, some, ◌≡◌, refl, ap, ◌∙◌, ◌||◌, ◌===◌, ===_iff, ===_refl, List, [],
  ◌∷◌, map, length, All, All-weaken, arith, Bool-cases, inl, inr,
}
use c_address_onboarding_bri.JsMap
use c_address_onboarding_bri.JsText.{Text, trim}
use c_address_onboarding_bri.ApiKeys.{
  ApiKeyRecord, KeyState, Request, Refusal, changed_at, add_record, revoke_api_key, update_api_key,
  create_api_key, resolve_record, refusal_of, admit, with_record, with_header, rbac_auth, seed_one,
  seed_legacy_keys, legacy_record,
}
use c_address_onboarding_bri.ApiKeys.Histories.{
  Op, create, revoke, update, authenticate, seed, apply, run,
}

has-set :
    (k j : String) (v : ℕ) (m : JsMap.JsMap ℕ)
    → JsMap.has j (JsMap.set k v m) ≡ ((k === j) || JsMap.has j m)
unfolding JsMap.has JsMap.set
has-set k j v [] = ground arith
has-set k j v ((i, w) ∷ m) = ground (arith, ===_iff i k, ===_iff i j, ===_iff k j, has-set k j v m)

module _ (hash_key : String → String) (is_ip : Text → ℕ) where
  -- An entry that seeding passes over.
  abbrev pub IsKnown : KeyState → String → Type 0
  IsKnown st entry =
      (trim entry === "") || JsMap.has (hash_key (trim entry)) st.key_hash_index ≡ true

  abbrev Grows : KeyState → KeyState → Type 0
  Grows st after =
      (j : String) → JsMap.has j st.key_hash_index ≡ true → JsMap.has j after.key_hash_index ≡ true

  add-Grows : (k : ApiKeyRecord) (st : KeyState) → Grows st (add_record k st)
  unfolding add_record
  add-Grows k st j h = ground (arith, has-set k.key_hash j (length st.heap) st.key_hash_index)

  seed-Grows :
      (now : ℕ) (entry uuid : String) (st : KeyState)
      → Grows st (seed_one hash_key is_ip now entry uuid st)
  unfolding seed_one
  seed-Grows now entry uuid st j h =
      ground
        (arith, add-Grows (legacy_record hash_key is_ip now uuid (hash_key (trim entry))) st j h)

  changed-Grows :
      (f : ApiKeyRecord → ApiKeyRecord) (o : Option ℕ) (st : KeyState)
      → Grows st (changed_at f o st).0
  changed-Grows f none st j h = h
  changed-Grows f (some r) st j h = h

  auth-same :
      (now : ℕ) (req : Request) (st : KeyState)
      → (rbac_auth hash_key is_ip now req st).0.key_hash_index ≡ st.key_hash_index
  unfolding rbac_auth
  auth-same now req st = by_header req.api_key
    where
      by_refusal :
          (r : ℕ) (k : ApiKeyRecord) (o : Option Refusal)
          → (admit hash_key is_ip now req r k o st).0.key_hash_index ≡ st.key_hash_index
      by_refusal r k none = refl
      by_refusal r k (some why) = refl

      by_record :
          (o : Option (ℕ × ApiKeyRecord))
          → (with_record hash_key is_ip now req o st).0.key_hash_index ≡ st.key_hash_index
      by_record none = refl
      by_record (some (r, k)) = by_refusal r k (refusal_of hash_key is_ip now req k)

      by_header :
          (o : Option String)
          → (with_header hash_key is_ip now req o st).0.key_hash_index ≡ st.key_hash_index
      by_header none = refl
      by_header (some raw) = elim (Bool-cases (raw === "")) [
        | inl e ↦ rw e refl
        | inr e ↦ rw e (by_record (resolve_record hash_key is_ip raw st))
      ]

  apply-Grows : (op : Op) (st : KeyState) → Grows st (apply hash_key is_ip op st)
  unfolding create_api_key revoke_api_key update_api_key
  apply-Grows (create now hex uuid input) st j h = add-Grows _ st j h
  apply-Grows (revoke now id) st j h = changed-Grows _ (JsMap.get id st.key_store) st j h
  apply-Grows (update now id p) st j h = changed-Grows _ (JsMap.get id st.key_store) st j h
  apply-Grows (authenticate now req) st j h = rw (auth-same now req st) h
  apply-Grows (seed now entry uuid) st j h = seed-Grows now entry uuid st j h

  grown-IsKnown :
      (st after : KeyState) (entry : String)
      → Grows st after
      → IsKnown st entry
      → IsKnown after entry
  grown-IsKnown st after entry g h = ground (arith, g (hash_key (trim entry)))

  run-IsKnown :
      (ops : List Op) (st : KeyState) (entry : String)
      → IsKnown st entry
      → IsKnown (run hash_key is_ip ops st) entry
  run-IsKnown [] st entry h = h
  run-IsKnown (op ∷ ops) st entry h =
      run-IsKnown ops (apply hash_key is_ip op st) entry
        (grown-IsKnown st (apply hash_key is_ip op st) entry (apply-Grows op st) h)

  seed_one-IsKnown :
      (now : ℕ) (entry uuid : String) (st : KeyState)
      → IsKnown (seed_one hash_key is_ip now entry uuid st) entry
  unfolding seed_one add_record
  seed_one-IsKnown now entry uuid st = ground (
    arith,
    has-set (hash_key (trim entry)) (hash_key (trim entry)) (length st.heap) st.key_hash_index,
    ===_refl (hash_key (trim entry)),
  )

  seed-known :
      (now : ℕ) (entry uuid : String) (st : KeyState)
      → IsKnown st entry
      → seed_one hash_key is_ip now entry uuid st ≡ st
  unfolding seed_one
  seed-known now entry uuid st h = ground arith

  seed-IsKnown_kept :
      (now : ℕ) (entry uuid other : String) (st : KeyState)
      → IsKnown st other
      → IsKnown (seed_one hash_key is_ip now entry uuid st) other
  seed-IsKnown_kept now entry uuid other st h =
      grown-IsKnown st (seed_one hash_key is_ip now entry uuid st) other
        (seed-Grows now entry uuid st) h

  seeds-IsKnown_kept :
      (now : ℕ) (es : List (String × String)) (other : String) (st : KeyState)
      → IsKnown st other
      → IsKnown (seed_legacy_keys hash_key is_ip now es st) other
  unfolding seed_legacy_keys
  seeds-IsKnown_kept now [] other st h = h
  seeds-IsKnown_kept now ((e, u) ∷ es) other st h =
      seeds-IsKnown_kept now es other (seed_one hash_key is_ip now e u st)
        (seed-IsKnown_kept now e u other st h)

  seeds-IsKnown :
      (now : ℕ) (es : List (String × String)) (st : KeyState)
      → All (λ (e : String × String). IsKnown (seed_legacy_keys hash_key is_ip now es st) e.0) es
  unfolding seed_legacy_keys
  seeds-IsKnown now [] st = tt
  seeds-IsKnown now ((e, u) ∷ es) st = (
    seeds-IsKnown_kept now es e (seed_one hash_key is_ip now e u st) (seed_one-IsKnown now e u st),
    seeds-IsKnown now es (seed_one hash_key is_ip now e u st),
  )

  seeds-same :
      (now : ℕ) (es : List (String × String)) (st : KeyState)
      → All (λ (e : String × String). IsKnown st e.0) es
      → seed_legacy_keys hash_key is_ip now es st ≡ st
  unfolding seed_legacy_keys
  seeds-same now [] st h = refl
  seeds-same now ((e, u) ∷ es) st (h, hs) =
      ap (seed_legacy_keys hash_key is_ip now es) (seed-known now e u st h)
      ∙ seeds-same now es st hs

  -- After seeding keys, and whatever is done to the keys then, to seed the same keys again changes
  -- nothing, at whatever time and whatever ids are drawn: a seeded key that was revoked stays so.
  pub seed_legacy_keys_again :
      (now later : ℕ) (es : List (String × String)) (redrawn : String → String) (ops : List Op)
      (st : KeyState)
      → seed_legacy_keys hash_key is_ip later
          (map (λ e. (e.0, redrawn e.0)) es)
          (run hash_key is_ip ops (seed_legacy_keys hash_key is_ip now es st))
        ≡ run hash_key is_ip ops (seed_legacy_keys hash_key is_ip now es st)
  seed_legacy_keys_again now later es redrawn ops st =
      let seeded = seed_legacy_keys hash_key is_ip now es st in
      seeds-same later (map (λ e. (e.0, redrawn e.0)) es) (run hash_key is_ip ops seeded) (
        redraw es (
          All-weaken (λ (e : String × String). IsKnown seeded e.0)
            (λ e. IsKnown (run hash_key is_ip ops seeded) e.0) (λ e h. run-IsKnown ops seeded e.0 h)
            es (seeds-IsKnown now es st)))
    where
      redraw :
          (fs : List (String × String))
          → All
              (λ (e : String × String).
                IsKnown (run hash_key is_ip ops (seed_legacy_keys hash_key is_ip now es st)) e.0)
              fs
          → All
              (λ (e : String × String).
                IsKnown (run hash_key is_ip ops (seed_legacy_keys hash_key is_ip now es st)) e.0)
              (map (λ e. (e.0, redrawn e.0)) fs)
      redraw [] h = tt
      redraw (f ∷ fs) (h, hs) = (h, redraw fs hs)
