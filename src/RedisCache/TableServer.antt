-- ===== src/RedisCache/TableServer.antt =====
-- A server that keeps each value with the time it expires: the laws of the interface can hold.
use c_address_onboarding_bri.Prelude.{
  ℕ, String, Bool, true, false, Option, none, some, ◌+◌, ◌*◌, ◌≤◌, ◌<◌, if◌then◌else◌, ltb, ◌===◌,
  ===-cases, ===_refl, ◌≡◌, ◌≢◌, ap, ◌∙◌, arith, inl, inr,
}
use c_address_onboarding_bri.RedisCache.{RedisServer}

abbrev pub Store : Type 0 → Type 0
Store V = String → Option (V × ℕ)

pub other_key : (j k : String) → j ≢ k → (j === k) ≡ false
other_key j k ne = elim (===-cases j k) [ inl e ↦ absurd (ne e) | inr f ↦ f ]

module _ {V : Type 0} where
  abbrev fresh : ℕ → Option (V × ℕ) → Option V
  fresh now none = none
  fresh now (some e) = if ltb now e.1 then some e.0 else none

  abbrev get : ℕ → String → Store V → Option V
  get now k r = fresh now (r k)

  abbrev set : ℕ → String → V → ℕ → Store V → Store V
  set now k v seconds r = λ j. if j === k then some (v, now + seconds * 1000) else r j

  abbrev del : ℕ → String → Store V → Store V
  del now k r = λ j. if j === k then none else r j

  get-set_at :
      (now later : ℕ) (k : String) (v : V) (seconds : ℕ) (r : Store V) (live : Bool)
      → ltb later (now + seconds * 1000) ≡ live
      → get later k (set now k v seconds r) ≡ (if live then some v else none)
  get-set_at now later k v seconds r live h =
      ap (λ b. fresh later (if b then some (v, now + seconds * 1000) else r k)) (===_refl k)
      ∙ ap (λ b. if b then some v else none) h

  pub get-set_live :
      (now later : ℕ) (k : String) (v : V) (seconds : ℕ) (r : Store V)
      → now ≤ later
      → later < now + seconds * 1000
      → get later k (set now k v seconds r) ≡ some v
  get-set_live now later k v seconds r a b = get-set_at now later k v seconds r true (ground arith)

  pub get-set_expired :
      (now later : ℕ) (k : String) (v : V) (seconds : ℕ) (r : Store V)
      → now + seconds * 1000 ≤ later
      → get later k (set now k v seconds r) ≡ none
  get-set_expired now later k v seconds r a =
      get-set_at now later k v seconds r false (ground arith)

  abbrev pub table_server : RedisServer V (Store V)
  table_server = record {
    get = get;
    set = set;
    del = del;
    get_set = get-set_live;
    get_set_expired = get-set_expired;
    get_set_other = λ now later k j v seconds r ne.
        ap (λ b. fresh later (if b then some (v, now + seconds * 1000) else r j))
          (other_key j k ne);
    get_del = λ now later k r. ap (λ b. fresh later (if b then none else r k)) (===_refl k);
    get_del_other =
        λ now later k j r ne. ap (λ b. fresh later (if b then none else r j)) (other_key j k ne);
  }
