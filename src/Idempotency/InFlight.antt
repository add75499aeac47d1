-- ===== src/Idempotency/InFlight.antt =====
-- Concurrent requests of one key in api/src/middleware/idempotency.ts: what the reservation excludes and what
-- it does not.
use c_address_onboarding_bri.Prelude.{
  ℕ, String, true, false, none, some, ◌+◌, ◌≤◌, ◌<◌, if◌then◌else◌, ◌≡◌, ◌≢◌, refl, sym, ap, ◌∙◌,
  subst, arith, List, [], ◌∷◌, All, Option-cases, inl, inr,
}
use c_address_onboarding_bri.Json.{Json}
use c_address_onboarding_bri.RedisCache.{RedisServer, Client, connected, cache_set, cache_del}
use c_address_onboarding_bri.Idempotency.{
  Value, reserved, stored, Ticket, answered, not_found, running, idempotency_key_in_flight, is_kept,
  look_up, reserve, respond, ttl_seconds, lock_ttl_seconds,
}
use c_address_onboarding_bri.Idempotency.Replays.{reserve-free, reserve-taken}

-- What other requests do to the store; a lookup leaves it as it is.
pub data Event : Type 0 where
  reserving : ℕ → Ticket → Event
  responding : ℕ → Ticket → ℕ → Json → Event

module _ {R : Type 0} (server : RedisServer Value R) where
  unfoldable pub happen : List Event → Client R → Client R
  happen [] c = c
  happen (reserving now t ∷ es) c = happen es (reserve server now t c).0
  happen (responding now t status body ∷ es) c = happen es (respond server now t status body c)

  -- Reservations in a span of time, and answers to requests of other keys.
  abbrev pub Spares : ℕ → ℕ → String → Event → Type 0
  Spares from deadline lock (reserving now t) = from ≤ now × now < deadline
  Spares from deadline lock (responding now t status body) =
      lock ≢ t.in_flight_key × lock ≢ t.cache_key

  abbrev Holds : ℕ → ℕ → String → R → Type 0
  Holds from deadline lock r =
      (now : ℕ) → from ≤ now → now < deadline → (v : Value) × (server.get now lock r ≡ some v)

  -- The store answers, and holds the lock in the span.
  abbrev IsHeld : ℕ → ℕ → String → Client R → Type 0
  IsHeld from deadline lock c = (r : R) × (c ≡ connected r) × Holds from deadline lock r

  IsHeld-reserve :
      (from deadline : ℕ) (lock : String) (now : ℕ) (t : Ticket) (r : R)
      → Holds from deadline lock r
      → from ≤ now
      → now < deadline
      → IsHeld from deadline lock (reserve server now t (connected r)).0
  IsHeld-reserve from deadline lock now t r held after before =
      elim (Option-cases (server.get now t.in_flight_key r)) [
        | inr (v, e) ↦ (r, ap (λ p. p.0) (reserve-taken server now t r v e), held)
        | inl e ↦
            let apart : lock ≢ t.in_flight_key = λ same.
              let (v, e') = held now after before in
              let e2 = subst (λ k. server.get now k r ≡ some v) same e' in cc in
            (
              server.set now t.in_flight_key reserved lock_ttl_seconds r,
              ap (λ p. p.0) (reserve-free server now t r e),
              λ later after' before'.
                  let (v, e') = held later after' before' in
                  (
                    v,
                    server.get_set_other now later t.in_flight_key lock reserved lock_ttl_seconds r
                          apart
                        ∙ e',
                  ),
            )
      ]

  IsHeld-respond :
      (from deadline : ℕ) (lock : String) (now : ℕ) (t : Ticket) (status : ℕ) (body : Json) (r : R)
      → Holds from deadline lock r
      → lock ≢ t.in_flight_key
      → lock ≢ t.cache_key
      → IsHeld from deadline lock (respond server now t status body (connected r))
  unfolding respond cache_set cache_del
  IsHeld-respond from deadline lock now t status body r held other_lock other_key =
      elim (is_kept status)
        as (λ b. IsHeld from deadline lock (
          cache_del server now t.in_flight_key (
            if b
            then cache_set server now t.cache_key
                (stored (record { status = status; body = body; body_hash = t.body_hash }))
                ttl_seconds (connected r)
            else connected r))) [
              | true ↦ (
                _,
                refl,
                λ later after before.
                    let (v, e) = held later after before in
                    (
                      v,
                      server.get_del_other now later t.in_flight_key lock _ other_lock
                          ∙ (server.get_set_other now later t.cache_key lock _ _ r other_key ∙ e),
                    ),
              )
              | false ↦ (
                _,
                refl,
                λ later after before.
                    let (v, e) = held later after before in
                    (v, server.get_del_other now later t.in_flight_key lock r other_lock ∙ e),
              )
            ]

  IsHeld-happen :
      (from deadline : ℕ) (lock : String) (es : List Event) (c : Client R)
      → IsHeld from deadline lock c
      → All (Spares from deadline lock) es
      → IsHeld from deadline lock (happen es c)
  unfolding happen
  IsHeld-happen from deadline lock [] c held h = held
  IsHeld-happen from deadline lock (reserving now t ∷ es) c (r, e, held) ((after, before), h) =
      let held' = IsHeld-reserve from deadline lock now t r held after before in
      let held2 = subst (λ d. IsHeld from deadline lock (reserve server now t d).0) (sym e) held' in
      IsHeld-happen from deadline lock es (reserve server now t c).0 held2 h
  IsHeld-happen from deadline lock (responding now t status body ∷ es) c (r, e, held) ((a, b), h) =
      let held' = IsHeld-respond from deadline lock now t status body r held a b in
      let held2 =
        subst (λ d. IsHeld from deadline lock (respond server now t status body d)) (sym e) held' in
      IsHeld-happen from deadline lock es (respond server now t status body c) held2 h

  -- While Redis is reached: from the reservation of a request on, for 30 seconds, whatever other requests reserve in this time and
  -- whatever requests of other keys are answered, no further request of its key comes to the handler by a
  -- reservation: each is answered that the key is in flight.
  pub reserve-excludes :
      (now later : ℕ) (t t' : Ticket) (r : R) (es : List Event)
      → server.get now t.in_flight_key r ≡ none
      → t'.in_flight_key ≡ t.in_flight_key
      → All (Spares now (now + 30000) t.in_flight_key) es
      → now ≤ later
      → later < now + 30000
      → (reserve server later t' (happen es (reserve server now t (connected r)).0)).1
        ≡ answered idempotency_key_in_flight
  unfolding lock_ttl_seconds
  reserve-excludes now later t t' r es free same spared from_now in_time =
      let r0 = server.set now t.in_flight_key reserved 30 r in
      let start : IsHeld now (now + 30000) t.in_flight_key (reserve server now t (connected r)).0 =
        (
          r0,
          ap (λ p. p.0) (reserve-free server now t r free),
          λ at after before.
              (reserved, server.get_set now at t.in_flight_key reserved 30 r after (omega arith)),
        ) in
      let (r1, e, held) = IsHeld-happen now (now + 30000) t.in_flight_key es _ start spared in
      let (v, taken) = held later from_now in_time in
      let taken' : server.get later t'.in_flight_key r1 ≡ some v =
        ap (λ k. server.get later k r1) same ∙ taken in
      ap (λ c. (reserve server later t' c).1) e
      ∙ ap (λ p. p.1) (reserve-taken server later t' r1 v taken')

  -- The answer to a request leaves its lock deleted.
  released :
      (now : ℕ) (t : Ticket) (status : ℕ) (body : Json) (r : R)
      → (r' : R) × (respond server now t status body (connected r)
          ≡ connected (server.del now t.in_flight_key r'))
  unfolding respond cache_set cache_del
  released now t status body r =
      elim (is_kept status)
        as (λ b.
          (r' : R) × (cache_del server now t.in_flight_key (
              if b
              then cache_set server now t.cache_key
                  (stored (record { status = status; body = body; body_hash = t.body_hash }))
                  ttl_seconds (connected r)
              else connected r)
            ≡ connected (server.del now t.in_flight_key r'))) [
              | true ↦ (_, refl)
              | false ↦ (_, refl)
            ]

  -- While Redis is reached, a request that looked while another of its keys was with the
  -- handler, and found nothing, and that reserves when this one has been answered, comes to the handler,
  -- too, whatever the answer and although it is stored by then.
  pub reserve-after_respond :
      (now looked answered_at later : ℕ) (t t' : Ticket) (status : ℕ) (body : Json) (r : R)
      → t'.cache_key ≡ t.cache_key
      → t'.in_flight_key ≡ t.in_flight_key
      → server.get now t.in_flight_key r ≡ none
      → look_up server looked t' (reserve server now t (connected r)).0 ≡ not_found t'
      → (reserve server later t'
          (respond server answered_at t status body (reserve server now t (connected r)).0)).1
        ≡ running t'
  reserve-after_respond now looked answered_at later t t' status body r same same_lock free missed =
      let r0 = server.set now t.in_flight_key reserved lock_ttl_seconds r in
      let (r1, e) = released answered_at t status body r0 in
      let free' : server.get later t'.in_flight_key (server.del answered_at t.in_flight_key r1)
          ≡ none =
        ap (λ k. server.get later k (server.del answered_at t.in_flight_key r1)) same_lock
        ∙ server.get_del answered_at later t.in_flight_key r1 in
      ap (λ c. (reserve server later t' (respond server answered_at t status body c)).1)
        (ap (λ p. p.0) (reserve-free server now t r free))
      ∙ (ap (λ c. (reserve server later t' c).1) e
          ∙ ap (λ p. p.1) (reserve-free server later t' _ free'))
