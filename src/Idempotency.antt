-- ===== src/Idempotency.antt =====
-- The middleware for idempotent requests, api/src/middleware/idempotency.ts, up to the handler and after it.
-- SHA-256 of the JSON text of a body is a parameter.
pub mod Replays
pub mod InFlight
pub mod Kept
mod Tests
use Prim.Native.Char.{code}
use c_address_onboarding_bri.Prelude.{
  ℕ, zero, suc, String, Bool, true, false, not, Option, none, some, ◌+◌, ◌*◌, ◌-◌, ◌&&◌, ◌||◌,
  if◌then◌else◌, leb, ltb, List, [], ◌∷◌, ◌++◌, ◌===◌, ◌==◌,
}
use c_address_onboarding_bri.Json.{Json, null, ◌+++◌}
use c_address_onboarding_bri.RedisCache.{
  RedisServer, Client, cache_get, cache_set, cache_set_nx, cache_del,
}

pub record StoredResponse : Type 0 where
  pub status : ℕ
  pub body : Json
  pub body_hash : String

-- The values that this middleware stores: `'1'` for a lock, and responses.
pub data Value : Type 0 where
  reserved : Value
  stored : StoredResponse → Value

-- What the middleware reads of a request.
pub record Request : Type 0 where
  pub key : Option String
  pub api_key_record_id : Option String
  pub api_key : Option String
  pub api_key_id : Option String
  pub body : Option Json

unfoldable pub ttl_seconds : ℕ
ttl_seconds = 86400

unfoldable pub lock_ttl_seconds : ℕ
lock_ttl_seconds = 30

unfoldable pub idempotency_key : String → String → String
idempotency_key scope key = "idempotency:" +++ scope +++ ":" +++ key

unfoldable pub lock_key : String → String → String
lock_key scope key = "idempotency:lock:" +++ scope +++ ":" +++ key

abbrev pub within : ℕ → ℕ → ℕ → Bool
within a b c = leb a c && leb c b

-- The classes of the characters of `UUID_V4_RE`, upper case included.
pub data Class : Type 0 where
  hex dash four variant : Class

unfoldable pub is_of : Class → ℕ → Bool
is_of hex c = within 48 57 c || within 97 102 c || within 65 70 c
is_of dash c = c == 45
is_of four c = c == 52
is_of variant c = c == 56 || c == 57 || c == 97 || c == 98 || c == 65 || c == 66

unfoldable pub matches : List Class → String → Bool
matches [] String.[] = true
matches [] (String.◌∷◌ c s) = false
matches (k ∷ ks) String.[] = false
matches (k ∷ ks) (String.◌∷◌ c s) = is_of k (code c) && matches ks s

abbrev pub hexes : ℕ → List Class → List Class
hexes zero ks = ks
hexes (suc n) ks = hex ∷ hexes n ks

unfoldable pub is_uuid_v4 : String → Bool
is_uuid_v4 = matches (
    hexes 8
      (dash ∷ hexes 4 (dash ∷ four ∷ hexes 3 (dash ∷ variant ∷ hexes 3 (dash ∷ hexes 12 [])))))

-- `apiKeyId`: nothing stands for its error.
abbrev pub or_else {ℓ} : {A : Type ℓ} → Option A → Option A → Option A
or_else none o = o
or_else (some a) o = some a

abbrev pub non_empty : Option String → Option String
non_empty none = none
non_empty (some s) = if s === "" then none else some s

unfoldable pub scope_of : Request → Option String
scope_of req = non_empty (or_else req.api_key_record_id (or_else req.api_key req.api_key_id))

pub data Failure : Type 0 where
  missing_idempotency_key invalid_idempotency_key idempotency_auth_unauthenticated : Failure
  idempotency_key_body_mismatch idempotency_key_in_flight : Failure

unfoldable pub status_of : Failure → ℕ
status_of missing_idempotency_key = 400
status_of invalid_idempotency_key = 400
status_of idempotency_auth_unauthenticated = 500
status_of idempotency_key_body_mismatch = 422
status_of idempotency_key_in_flight = 409

-- What a request that needs the store goes on with.
pub record Ticket : Type 0 where
  pub cache_key : String
  pub in_flight_key : String
  pub body_hash : String

-- The ticket of a request, for its scope, its key and the hash of its body.
abbrev pub ticket_of : String → String → String → Ticket
ticket_of scope key hash = record {
  cache_key = idempotency_key scope key;
  in_flight_key = lock_key scope key;
  body_hash = hash;
}

-- How far a request has come: answered, or replayed, by the middleware; given to the handler without a
-- reservation, as no key is required; looking for a stored response; found none; given to the handler.
pub data Stage : Type 0 where
  answered : Failure → Stage
  replayed : ℕ → Json → Stage
  passed_on : Stage
  looking : Ticket → Stage
  not_found : Ticket → Stage
  running : Ticket → Stage

module _ (hash_body : Json → String) where
  -- The part before the first call of the store.
  unfoldable pub enter : Bool → Request → Stage
  enter required req = elim (non_empty req.key) [
    | none ↦ if not required then passed_on else answered missing_idempotency_key
    | some key ↦
        if not (is_uuid_v4 key) then answered invalid_idempotency_key else (elim (scope_of req) [
          | none ↦ answered idempotency_auth_unauthenticated
          | some scope ↦
              looking (ticket_of scope key (hash_body (elim req.body [ none ↦ null | some j ↦ j ])))
        ])
  ]

-- A stored value that is not a response has no `bodyHash`.
unfoldable pub after_lookup : Ticket → Option Value → Stage
after_lookup t none = not_found t
after_lookup t (some reserved) = answered idempotency_key_body_mismatch
after_lookup t (some (stored r)) =
    if not (r.body_hash === t.body_hash)
    then answered idempotency_key_body_mismatch
    else replayed r.status r.body

-- 2xx to 4xx
abbrev pub is_kept : ℕ → Bool
is_kept status = leb 200 status && ltb status 500

module _ {R : Type 0} (server : RedisServer Value R) where
  unfoldable pub look_up : ℕ → Ticket → Client R → Stage
  look_up now t client = after_lookup t (cache_get server now t.cache_key client)

  unfoldable pub reserve : ℕ → Ticket → Client R → Client R × Stage
  reserve now t client =
      let (client', done) =
        cache_set_nx server now t.in_flight_key reserved lock_ttl_seconds client in
      (client', if not done then answered idempotency_key_in_flight else running t)

  -- `res.json(body)` of the handler, with the status that it has set.
  unfoldable pub respond : ℕ → Ticket → ℕ → Json → Client R → Client R
  respond now t status body client =
      let response : StoredResponse = record {
        status = status;
        body = body;
        body_hash = t.body_hash;
      } in
      let client' =
        if is_kept status
        then cache_set server now t.cache_key (stored response) ttl_seconds client
        else client in
      cache_del server now t.in_flight_key client'

  -- A lookup and, if it finds nothing, the reservation right after it.
  unfoldable pub begin : ℕ → Ticket → Client R → Client R × Stage
  begin now t client = elim (look_up now t client) [
    | not_found t' ↦ reserve now t' client
    | s ↦ (client, s)
  ]
