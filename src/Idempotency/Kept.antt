-- ===== src/Idempotency/Kept.antt =====
-- A stored response of api/src/middleware/idempotency.ts is given again, whatever other requests do in
-- between.
use c_address_onboarding_bri.Prelude.{
  ℕ, String, Bool, true, false, not, some, ◌+◌, ◌≤◌, ◌<◌, if◌then◌else◌, ◌===◌, ◌≡◌, ◌≢◌, refl, sym,
  ap, ◌∙◌, subst, arith, List, [], ◌∷◌, All, Option-cases, inl, inr,
}
use c_address_onboarding_bri.Json.{Json}
use c_address_onboarding_bri.RedisCache.{
  RedisServer, Client, connected, cache_get, cache_set, cache_del,
}
use c_address_onboarding_bri.Idempotency.{
  Value, reserved, stored, Ticket, answered, replayed, idempotency_key_body_mismatch, after_lookup,
  is_kept, reserve, respond, begin, ttl_seconds, lock_ttl_seconds, idempotency_key, ticket_of,
}
use c_address_onboarding_bri.Idempotency.Replays.{apart, begin-found, reserve-free, reserve-taken}
use c_address_onboarding_bri.Idempotency.InFlight.{Event, reserving, responding, happen}

-- An event that neither stores nor deletes under a key.
abbrev pub Leaves : String → Event → Type 0
Leaves key (reserving now t) = key ≢ t.in_flight_key
Leaves key (responding now t status body) = key ≢ t.in_flight_key × key ≢ t.cache_key

module _ {R : Type 0} (server : RedisServer Value R) where
  -- The store answers, and holds the value under the key in the span.
  abbrev Keeps : ℕ → ℕ → String → Value → Client R → Type 0
  Keeps from until key v c =
      (r : R) × (c ≡ connected r) × ((t : ℕ) → from ≤ t → t < until → server.get t key r ≡ some v)

  abbrev response_of : Ticket → ℕ → Json → Value
  response_of t status body =
      stored (record { status = status; body = body; body_hash = t.body_hash })

  -- `respond` by whether the response is stored.
  abbrev answering : ℕ → Ticket → ℕ → Json → R → Bool → Client R
  answering now t status body r b = cache_del server now t.in_flight_key (
      if b
      then cache_set server now t.cache_key (response_of t status body) ttl_seconds (connected r)
      else connected r)

  Keeps-answering :
      (from until : ℕ) (key : String) (v : Value) (now : ℕ) (t : Ticket) (status : ℕ) (body : Json)
      (r : R) (b : Bool)
      → ((t : ℕ) → from ≤ t → t < until → server.get t key r ≡ some v)
      → key ≢ t.in_flight_key
      → key ≢ t.cache_key
      → Keeps from until key v (answering now t status body r b)
  unfolding cache_set cache_del
  Keeps-answering from until key v now t status body r true h lock other = (
    _,
    refl,
    λ at l u.
        server.get_del_other now at t.in_flight_key key _ lock
        ∙ (server.get_set_other now at t.cache_key key _ _ r other ∙ h at l u),
  )
  Keeps-answering from until key v now t status body r false h lock other =
      (_, refl, λ at l u. server.get_del_other now at t.in_flight_key key r lock ∙ h at l u)

  Keeps-reserve :
      (from until : ℕ) (key : String) (v : Value) (now : ℕ) (t : Ticket) (r : R)
      → ((t : ℕ) → from ≤ t → t < until → server.get t key r ≡ some v)
      → key ≢ t.in_flight_key
      → Keeps from until key v (reserve server now t (connected r)).0
  Keeps-reserve from until key v now t r h lock =
      elim (Option-cases (server.get now t.in_flight_key r)) [
        | inr (w, e) ↦ (r, ap (λ p. p.0) (reserve-taken server now t r w e), h)
        | inl e ↦ (
          server.set now t.in_flight_key reserved lock_ttl_seconds r,
          ap (λ p. p.0) (reserve-free server now t r e),
          λ at l u.
              server.get_set_other now at t.in_flight_key key reserved lock_ttl_seconds r lock
              ∙ h at l u,
        )
      ]

  Keeps-happen :
      (from until : ℕ) (key : String) (v : Value) (es : List Event) (c : Client R)
      → Keeps from until key v c
      → All (Leaves key) es
      → Keeps from until key v (happen server es c)
  unfolding happen respond
  Keeps-happen from until key v [] c k h = k
  Keeps-happen from until key v (reserving now t ∷ es) c (r, e, k) (lock, h) =
      Keeps-happen from until key v es (reserve server now t c).0
        (subst (λ d. Keeps from until key v (reserve server now t d).0) (sym e)
          (Keeps-reserve from until key v now t r k lock))
        h
  Keeps-happen from until key v (responding now t status body ∷ es) c (r, e, k) ((lock, other), h) =
      Keeps-happen from until key v es (respond server now t status body c)
        (subst (λ d. Keeps from until key v (respond server now t status body d)) (sym e)
          (Keeps-answering from until key v now t status body r (is_kept status) k lock other))
        h

  Keeps-respond :
      (now : ℕ) (t : Ticket) (status : ℕ) (body : Json) (r : R)
      → is_kept status ≡ true
      → t.cache_key ≢ t.in_flight_key
      → Keeps now
          (now + 86400000)
          t.cache_key
          (response_of t status body)
          (respond server now t status body (connected r))
  unfolding respond cache_set cache_del ttl_seconds
  Keeps-respond now t status body r kept ne = (
    server.del now t.in_flight_key (server.set now t.cache_key (response_of t status body) 86400 r),
    ap (answering now t status body r) kept,
    λ at l u.
        server.get_del_other now at t.in_flight_key t.cache_key _ ne
        ∙ server.get_set now at t.cache_key (response_of t status body) 86400 r l
            (omega (arith, u)),
  )

  -- While Redis is reached: for a day after the handler of a request answered with a status of 200 to 499
  -- (3xx included), and whatever other requests reserve and answer in between, if none of them stores or
  -- deletes under the name of this response, every request of the same scope, key and body hash that looks
  -- it up gets this answer again, and one of the same scope and key and another body hash the error for it;
  -- neither comes to the handler or changes the store.
  pub begin-respond_kept :
      (now later : ℕ) (scope key hash hash' : String) (status : ℕ) (body : Json) (r : R)
      (es : List Event)
      → is_kept status ≡ true
      → All (Leaves (idempotency_key scope key)) es
      → now ≤ later
      → later < now + 86400000
      → begin server later (ticket_of scope key hash') (
          happen server es
            (respond server now (ticket_of scope key hash) status body (connected r)))
        ≡ (
          happen server es
              (respond server now (ticket_of scope key hash) status body (connected r)),
          if not (hash === hash')
              then answered idempotency_key_body_mismatch
              else replayed status body,
        )
  unfolding cache_get after_lookup
  begin-respond_kept now later scope key hash hash' status body r es kept leaves from_now in_time =
      let t = ticket_of scope key hash in
      let c = happen server es (respond server now t status body (connected r)) in
      let (s, e, k) =
        Keeps-happen now (now + 86400000) (idempotency_key scope key) (response_of t status body) es
          (respond server now t status body (connected r))
          (Keeps-respond now t status body r kept (apart scope key)) leaves in
      begin-found server later (ticket_of scope key hash') c (response_of t status body)
        (ap (cache_get server later (idempotency_key scope key)) e ∙ k later from_now in_time)
