-- ===== src/Idempotency/Tests.antt =====
-- Requests of one key, with a server that keeps each value with the time it expires.
use c_address_onboarding_bri.Prelude.{
  String, true, false, not, none, some, if◌then◌else◌, ◌===◌, ===_iff, ◌≡◌, ◌≢◌, refl, arith, List,
  [], ◌∷◌,
}
use c_address_onboarding_bri.Json.{Json, null, text}
use c_address_onboarding_bri.RedisCache.TableServer.{Store, table_server}
use c_address_onboarding_bri.RedisCache.{RedisServer, connected, cache_get, cache_set_nx}
use c_address_onboarding_bri.Idempotency.{
  Value, Ticket, answered, running, not_found, look_up, after_lookup, replayed, looking,
  idempotency_key_body_mismatch, idempotency_key_in_flight, invalid_idempotency_key, reserve,
  respond, begin, ticket_of, enter, is_uuid_v4, matches, is_of, scope_of, idempotency_key, lock_key,
}
use c_address_onboarding_bri.Idempotency.InFlight.{
  Event, reserving, responding, happen, reserve-excludes, reserve-after_respond,
}
use c_address_onboarding_bri.Idempotency.Kept.{begin-respond_kept}

abbrev server : RedisServer Value (Store Value)
server = table_server

abbrev ticket : Ticket
ticket = record {
  cache_key = "idempotency:a:k";
  in_flight_key = "idempotency:lock:a:k";
  body_hash = "h";
}

abbrev empty : Store Value
empty = λ k. none

abbrev ticket_b : Ticket
ticket_b = record {
  cache_key = "idempotency:b:k";
  in_flight_key = "idempotency:lock:b:k";
  body_hash = "h";
}

unequal : ◌≢◌ {A = String} "idempotency:a:k" "idempotency:lock:b:k"
unequal e = let h : false ≡ true = (===_iff "idempotency:a:k" "idempotency:lock:b:k").1 e in cc

unequal2 : ◌≢◌ {A = String} "idempotency:a:k" "idempotency:b:k"
unequal2 e = let h : false ≡ true = (===_iff "idempotency:a:k" "idempotency:b:k").1 e in cc

digest : Json → String
digest j = "h"

-- A key in another form is refused, one in the right form goes on with the keys of the store.
enter-malformed :
    enter digest true (record {
      key = some "k";
      api_key_record_id = some "a";
      api_key = none;
      api_key_id = none;
      body = none;
    })
    ≡ answered invalid_idempotency_key
unfolding enter is_uuid_v4 matches is_of
enter-malformed = refl

enter-well_formed :
    enter digest true (record {
      key = some "01234567-89aB-4cde-9f01-23456789abcd";
      api_key_record_id = none;
      api_key = none;
      api_key_id = some "a";
      body = some (text "x");
    })
    ≡ looking (record {
      cache_key = "idempotency:a:01234567-89aB-4cde-9f01-23456789abcd";
      in_flight_key = "idempotency:lock:a:01234567-89aB-4cde-9f01-23456789abcd";
      body_hash = "h";
    })
unfolding enter is_uuid_v4 matches is_of scope_of idempotency_key lock_key digest
enter-well_formed = refl

-- Another request reserves and is answered in between.
abbrev between : List Event
between = reserving 5 ticket_b ∷ responding 6 ticket_b 200 null ∷ []

begin-respond_kept_example :
    begin server 7
      (ticket_of "a" "k" "g")
      (happen server between (respond server 5 (ticket_of "a" "k" "h") 200 null (connected empty)))
    ≡ (
      happen server between (respond server 5 (ticket_of "a" "k" "h") 200 null (connected empty)),
      if not ("h" === "g") then answered idempotency_key_body_mismatch else replayed 200 null,
    )
unfolding idempotency_key
begin-respond_kept_example =
    begin-respond_kept server 5 7 "a" "k" "h" "g" 200 null empty between refl
      (unequal, ((unequal, unequal2), tt)) (omega arith) (omega arith)

reserve-excludes_example :
    (reserve server 9 ticket
      (happen server (reserving 8 ticket ∷ []) (reserve server 7 ticket (connected empty)).0)).1
    ≡ answered idempotency_key_in_flight
reserve-excludes_example =
    reserve-excludes server 7 9 ticket ticket empty (reserving 8 ticket ∷ []) refl refl
      ((omega arith, omega arith), tt) (omega arith) (omega arith)

looked_and_missed :
    look_up server 8 ticket (reserve server 7 ticket (connected empty)).0 ≡ not_found ticket
unfolding look_up reserve cache_get cache_set_nx after_lookup
looked_and_missed = refl

reserve-after_respond_example :
    (reserve server 10 ticket
      (respond server 9 ticket 200 null (reserve server 7 ticket (connected empty)).0)).1
    ≡ running ticket
reserve-after_respond_example =
    reserve-after_respond server 7 8 9 10 ticket ticket 200 null empty refl refl refl
      looked_and_missed
