-- ===== src/Idempotency/Replays.antt =====
-- What a request of api/src/middleware/idempotency.ts meets after another of its key was answered.
use c_address_onboarding_bri.Prelude.{
  String, ℕ, Bool, true, false, not, Option, none, some, if◌then◌else◌, ◌===◌, ◌≡◌, ◌≢◌, refl, sym,
  ap, ◌∙◌, subst, arith,
}
use Prim.Native.String.{count}
use text.Mathlib.TextLemmas.{length-append}
use c_address_onboarding_bri.Json.{Json, ◌+++◌}
use c_address_onboarding_bri.RedisCache.{
  RedisServer, Client, connected, cache_get, cache_set, cache_set_nx, cache_del,
}
use c_address_onboarding_bri.Idempotency.{
  Value, reserved, stored, Ticket, Stage, answered, replayed, not_found, running,
  idempotency_key_body_mismatch, idempotency_key_in_flight, after_lookup, is_kept, look_up, reserve,
  respond, begin, ttl_seconds, lock_ttl_seconds, idempotency_key, lock_key, ticket_of,
}

-- The two keys of a request in the store differ, since their lengths do.
pub apart : (scope key : String) → idempotency_key scope key ≢ lock_key scope key
unfolding idempotency_key lock_key
apart scope key e =
    let h = ap (λ s. count s) e in
    absurd (
      omega (
        arith,
        length-append ("idempotency:" +++ scope +++ ":") key,
        length-append ("idempotency:" +++ scope) ":",
        length-append "idempotency:" scope,
        length-append ("idempotency:lock:" +++ scope +++ ":") key,
        length-append ("idempotency:lock:" +++ scope) ":",
        length-append "idempotency:lock:" scope,
      ))

module _ {R : Type 0} (server : RedisServer Value R) where
  abbrev going : ℕ → Client R → Stage → Client R × Stage
  going now c s = elim s [ not_found t' ↦ reserve server now t' c | s ↦ (c, s) ]

  going-after_lookup :
      (now : ℕ) (t : Ticket) (c : Client R) (w : Value)
      → going now c (after_lookup t (some w)) ≡ (c, after_lookup t (some w))
  unfolding after_lookup
  going-after_lookup now t c reserved = refl
  going-after_lookup now t c (stored r) =
      elim (r.body_hash === t.body_hash)
        as (λ b.
          let s : Stage =
            if not b then answered idempotency_key_body_mismatch else replayed r.status r.body in
          going now c s ≡ (c, s)) [ true ↦ refl | false ↦ refl ]

  -- A lookup that finds a value is all that a request does.
  pub begin-found :
      (now : ℕ) (t : Ticket) (c : Client R) (w : Value)
      → cache_get server now t.cache_key c ≡ some w
      → begin server now t c ≡ (c, after_lookup t (some w))
  unfolding begin look_up
  begin-found now t c w e =
      ap (λ o. going now c (after_lookup t o)) e ∙ going-after_lookup now t c w

  pub begin-missing :
      (now : ℕ) (t : Ticket) (c : Client R)
      → cache_get server now t.cache_key c ≡ none
      → begin server now t c ≡ reserve server now t c
  unfolding begin look_up after_lookup
  begin-missing now t c e = ap (λ o. going now c (after_lookup t o)) e

  -- The reservation by what the lock's key holds.
  abbrev reserving : ℕ → Ticket → R → Option Value → Client R × Bool
  reserving now t r none =
      (connected (server.set now t.in_flight_key reserved lock_ttl_seconds r), true)
  reserving now t r (some w) = (connected r, false)

  reserving-elim :
      (now : ℕ) (t : Ticket) (r : R) (o : Option Value)
      → server.get now t.in_flight_key r ≡ o
      → cache_set_nx server now t.in_flight_key reserved lock_ttl_seconds (connected r)
        ≡ reserving now t r o
  unfolding cache_set_nx
  reserving-elim now t r none e =
      subst
        (λ o.
          (elim o as (λ x. Client R × Bool) [
            | none ↦ (connected (server.set now t.in_flight_key reserved lock_ttl_seconds r), true)
            | some w ↦ (connected r, false)
          ])
          ≡ reserving now t r none)
        (sym e) refl
  reserving-elim now t r (some v) e =
      subst
        (λ o.
          (elim o as (λ x. Client R × Bool) [
            | none ↦ (connected (server.set now t.in_flight_key reserved lock_ttl_seconds r), true)
            | some w ↦ (connected r, false)
          ])
          ≡ reserving now t r (some v))
        (sym e) refl

  abbrev outcome : Ticket → Client R × Bool → Client R × Stage
  outcome t p = (p.0, if not p.1 then answered idempotency_key_in_flight else running t)

  pub reserve-free :
      (now : ℕ) (t : Ticket) (r : R)
      → server.get now t.in_flight_key r ≡ none
      → reserve server now t (connected r)
        ≡ (connected (server.set now t.in_flight_key reserved lock_ttl_seconds r), running t)
  unfolding reserve
  reserve-free now t r e = ap (λ p. outcome t p) (reserving-elim now t r none e)

  pub reserve-taken :
      (now : ℕ) (t : Ticket) (r : R) (v : Value)
      → server.get now t.in_flight_key r ≡ some v
      → reserve server now t (connected r) ≡ (connected r, answered idempotency_key_in_flight)
  unfolding reserve
  reserve-taken now t r v e = ap (λ p. outcome t p) (reserving-elim now t r (some v) e)

  begin-respond_other :
      (now later : ℕ) (t t' : Ticket) (status : ℕ) (body : Json) (r : R)
      → is_kept status ≡ false
      → t.cache_key ≢ t.in_flight_key
      → t'.cache_key ≡ t.cache_key
      → t'.in_flight_key ≡ t.in_flight_key
      → server.get later t.cache_key r ≡ none
      → (begin server later t' (respond server now t status body (connected r))).1 ≡ running t'
  unfolding respond cache_del cache_get
  begin-respond_other now later t t' status body r failed apart same same_lock missing =
      let r' = server.del now t.in_flight_key r in
      let after : respond server now t status body (connected r) ≡ connected r' =
        ap
          (λ b. cache_del server now t.in_flight_key (
            if b
            then cache_set server now t.cache_key
                (stored (record { status = status; body = body; body_hash = t.body_hash }))
                ttl_seconds (connected r)
            else connected r))
          failed in
      let none_stored : server.get later t'.cache_key r' ≡ none =
        ap (λ k. server.get later k r') same
        ∙ (server.get_del_other now later t.in_flight_key t.cache_key r apart ∙ missing) in
      let free : server.get later t'.in_flight_key r' ≡ none =
        ap (λ k. server.get later k r') same_lock ∙ server.get_del now later t.in_flight_key r in
      ap (λ c. (begin server later t' c).1) after
      ∙ (ap (λ p. p.1) (begin-missing later t' (connected r') none_stored)
          ∙ ap (λ p. p.1) (reserve-free later t' r' free))

  -- After the handler of a request answered with another status, and no answer was stored before, the next
  -- request of the same scope and key comes to the handler, too.
  pub begin-respond_failed :
      (now later : ℕ) (scope key hash hash' : String) (status : ℕ) (body : Json) (r : R)
      → is_kept status ≡ false
      → server.get later (idempotency_key scope key) r ≡ none
      → (begin server later
          (ticket_of scope key hash')
          (respond server now (ticket_of scope key hash) status body (connected r))).1
        ≡ running (ticket_of scope key hash')
  begin-respond_failed now later scope key hash hash' status body r failed missing =
      begin-respond_other now later (ticket_of scope key hash) (ticket_of scope key hash') status
        body r failed (apart scope key) refl refl missing
