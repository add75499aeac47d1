-- ===== src/ApiKeys.antt =====
-- The API keys of api/src/middleware/rbacAuth.ts. The two maps hold references to the same records, so
-- the records lie in a heap; SHA-256 is a parameter, random texts and the clock are arguments. The copy of
-- records to the database is never called.
pub mod Histories
pub mod Revocation
pub mod Trail
pub mod Seeding
mod Tests
use c_address_onboarding_bri.Prelude.{
  ℕ, zero, suc, String, Bool, true, false, not, Option, none, some, ◌+◌, ◌-◌, ◌&&◌, if◌then◌else◌,
  ltb, ◌==◌, ◌===◌, List, [], ◌∷◌, ◌++◌, length, take, drop, or_else, get_elem?, map, any, select,
}
use c_address_onboarding_bri.Json.{◌+++◌}
use c_address_onboarding_bri.JsMap.{JsMap}
use c_address_onboarding_bri.JsMap
use c_address_onboarding_bri.JsText.{Text, trim}
use c_address_onboarding_bri.IpRange.{is_ip_allowed}

pub data PermissionScope : Type 0 where
  quote_read fund_write status_read offramp_write cex_read cex_withdraw transactions_read admin_keys
        metrics_read :
      PermissionScope

abbrev pub scope_number : PermissionScope → ℕ
scope_number quote_read = 0
scope_number fund_write = 1
scope_number status_read = 2
scope_number offramp_write = 3
scope_number cex_read = 4
scope_number cex_withdraw = 5
scope_number transactions_read = 6
scope_number admin_keys = 7
scope_number metrics_read = 8

pub data RateLimit : Type 0 where
  low standard high : RateLimit

pub record ApiKeyRecord : Type 0 where
  pub id : String
  pub key_hash : String
  pub name : String
  pub created_by : String
  pub created_at : ℕ
  pub updated_at : ℕ
  pub last_used_at : Option ℕ
  pub scopes : List PermissionScope
  pub ip_whitelist : List Text
  pub expires_at : Option ℕ
  pub rate_limit : RateLimit
  pub revoked : Bool

pub record CreateKeyInput : Type 0 where
  pub name : String
  pub created_by : String
  pub scopes : List PermissionScope
  pub ip_whitelist : Option (List Text)
  pub expires_at : Option ℕ
  pub rate_limit : Option RateLimit

pub record AuditEntry : Type 0 where
  pub ts : ℕ
  pub key_id : String
  pub ip : Text
  pub path : String
  pub method : String

-- The records by reference, and the two maps to references.
pub record KeyState : Type 0 where
  pub heap : List ApiKeyRecord
  pub key_store : JsMap ℕ
  pub key_hash_index : JsMap ℕ
  pub audit_log : List AuditEntry

unfoldable pub max_audit_log_entries : ℕ
max_audit_log_entries = 10000

-- A record of the heap changed in place.
abbrev pub change : ℕ → (ApiKeyRecord → ApiKeyRecord) → List ApiKeyRecord → List ApiKeyRecord
change r f [] = []
change zero f (k ∷ ks) = f k ∷ ks
change (suc r) f (k ∷ ks) = k ∷ change r f ks

-- A new record in both maps.
unfoldable pub add_record : ApiKeyRecord → KeyState → KeyState
add_record k st = record st {
  heap = st.heap ++ k ∷ [];
  key_store = JsMap.set k.id (length st.heap) st.key_store;
  key_hash_index = JsMap.set k.key_hash (length st.heap) st.key_hash_index;
}

-- The record of an id, with its reference.
abbrev pub paired : ℕ → Option ApiKeyRecord → Option (ℕ × ApiKeyRecord)
paired r none = none
paired r (some k) = some (r, k)

abbrev pub found_at : List ApiKeyRecord → Option ℕ → Option (ℕ × ApiKeyRecord)
found_at heap none = none
found_at heap (some r) = paired r (get_elem? heap r)

-- The record that a map gave is changed in place, if it gave one.
abbrev pub changed_at : (ApiKeyRecord → ApiKeyRecord) → Option ℕ → KeyState → KeyState × Bool
changed_at f none st = (st, false)
changed_at f (some r) st = (record st { heap = change r f st.heap }, true)

unfoldable pub revoke_api_key : ℕ → String → KeyState → KeyState × Bool
revoke_api_key now id st =
    changed_at (λ k. record k { revoked = true; updated_at = now }) (JsMap.get id st.key_store) st

pub record Patch : Type 0 where
  pub name : Option String
  pub scopes : Option (List PermissionScope)
  pub ip_whitelist : Option (List Text)
  pub expires_at : Option (Option ℕ)
  pub rate_limit : Option RateLimit

abbrev pub patched : ℕ → Patch → ApiKeyRecord → ApiKeyRecord
patched now p k = record k {
  name = or_else p.name k.name;
  scopes = or_else p.scopes k.scopes;
  ip_whitelist = or_else p.ip_whitelist k.ip_whitelist;
  expires_at = or_else p.expires_at k.expires_at;
  rate_limit = or_else p.rate_limit k.rate_limit;
  updated_at = now;
}

unfoldable pub update_api_key : ℕ → String → Patch → KeyState → KeyState × Bool
update_api_key now id p st = changed_at (patched now p) (JsMap.get id st.key_store) st

abbrev pub has_scope : List PermissionScope → PermissionScope → Bool
has_scope granted s = any (λ g. scope_number g == scope_number s) granted

-- `requireScopes`: the missing scopes of a refusal with status 403, or none to go on.
unfoldable pub require_scopes :
    List PermissionScope → Option (List PermissionScope) → Option (List PermissionScope)
require_scopes required none = some (select (λ s. not (has_scope [] s)) required)
require_scopes required (some granted) =
    let missing = select (λ s. not (has_scope granted s)) required in
    if ltb 0 (length missing) then some missing else none

-- What the middleware reads of a request: the first `x-api-key` header, and the rest.
pub record Request : Type 0 where
  pub api_key : Option String
  pub ip : Option Text
  pub path : String
  pub method : String

pub data Refusal : Type 0 where
  missing_api_key invalid_api_key revoked_api_key expired_api_key ip_not_allowed : Refusal

-- The status codes of the refusals.
unfoldable pub status_of : Refusal → ℕ
status_of missing_api_key = 401
status_of invalid_api_key = 401
status_of revoked_api_key = 401
status_of expired_api_key = 401
status_of ip_not_allowed = 403

-- A refusal, or the call of `next` with the scopes of the key.
pub data Verdict : Type 0 where
  refused : Refusal → Verdict
  admitted : String → List PermissionScope → Verdict

abbrev pub client_ip : Request → Text
client_ip req = or_else req.ip (48 ∷ 46 ∷ 48 ∷ 46 ∷ 48 ∷ 46 ∷ 48 ∷ [])

-- A time of 0 counts as none.
abbrev pub is_expired : ℕ → Option ℕ → Bool
is_expired now none = false
is_expired now (some zero) = false
is_expired now (some (suc t)) = ltb (suc t) now

-- `auditLog.push(entry)` and the `splice` after it.
unfoldable pub push_audit : AuditEntry → List AuditEntry → List AuditEntry
push_audit e log = let longer = log ++ e ∷ [] in drop (length longer - max_audit_log_entries) longer

module _ (hash_key : String → String) (is_ip : Text → ℕ) where
  -- `createApiKey`: the raw key is returned, the record is stored. `hex` is the random text, `uuid` the id.
  unfoldable pub create_api_key :
      ℕ → String → String → CreateKeyInput → KeyState → KeyState × String
  create_api_key now hex uuid input st =
      let raw_key = "cab_" +++ hex in
      (
        add_record
            (record {
              id = uuid;
              key_hash = hash_key raw_key;
              name = input.name;
              created_by = input.created_by;
              created_at = now;
              updated_at = now;
              last_used_at = none;
              scopes = input.scopes;
              ip_whitelist = or_else input.ip_whitelist [];
              expires_at = input.expires_at;
              rate_limit = or_else input.rate_limit standard;
              revoked = false;
            })
            st,
        raw_key,
      )

  -- The reference of a raw key and its record.
  unfoldable pub resolve_record : String → KeyState → Option (ℕ × ApiKeyRecord)
  resolve_record raw_key st =
      if raw_key === ""
      then none
      else found_at st.heap (JsMap.get (hash_key raw_key) st.key_hash_index)

  -- The checks of a record, in order.
  unfoldable pub refusal_of : ℕ → Request → ApiKeyRecord → Option Refusal
  refusal_of now req k =
      if k.revoked
      then some revoked_api_key
      else if is_expired now k.expires_at
      then some expired_api_key
      else if is_ip_allowed is_ip (client_ip req) k.ip_whitelist
      then none
      else some ip_not_allowed

  abbrev pub admit : ℕ → Request → ℕ → ApiKeyRecord → Option Refusal → KeyState → KeyState × Verdict
  admit now req r k (some why) st = (st, refused why)
  admit now req r k none st = (
    record st {
      heap = change r (λ k. record k { last_used_at = some now }) st.heap;
      audit_log =
          push_audit
            (record {
              ts = now;
              key_id = k.id;
              ip = client_ip req;
              path = req.path;
              method = req.method;
            })
            st.audit_log;
    },
    admitted k.id k.scopes,
  )

  abbrev pub with_record : ℕ → Request → Option (ℕ × ApiKeyRecord) → KeyState → KeyState × Verdict
  with_record now req none st = (st, refused invalid_api_key)
  with_record now req (some (r, k)) st = admit now req r k (refusal_of now req k) st

  abbrev pub with_header : ℕ → Request → Option String → KeyState → KeyState × Verdict
  with_header now req none st = (st, refused missing_api_key)
  with_header now req (some raw_key) st =
      if raw_key === ""
      then (st, refused missing_api_key)
      else with_record now req (resolve_record raw_key st) st

  unfoldable pub rbac_auth : ℕ → Request → KeyState → KeyState × Verdict
  rbac_auth now req st = with_header now req req.api_key st

  abbrev pub legacy_record : ℕ → String → String → ApiKeyRecord
  legacy_record now uuid key_hash = record {
    id = uuid;
    key_hash = key_hash;
    name = "Legacy key";
    created_by = "system";
    created_at = now;
    updated_at = now;
    last_used_at = none;
    scopes = quote_read ∷ status_read ∷ cex_read ∷ transactions_read ∷ [];
    ip_whitelist = [];
    expires_at = none;
    rate_limit = standard;
    revoked = false;
  }

  -- One round of the loop of `seedLegacyKeys`; `uuid` is the random id.
  unfoldable pub seed_one : ℕ → String → String → KeyState → KeyState
  seed_one now entry uuid st =
      let key_hash = hash_key (trim entry) in
      if trim entry === ""
      then st
      else if JsMap.has key_hash st.key_hash_index
      then st
      else add_record (legacy_record now uuid key_hash) st

  -- The entries, each with the id that would be drawn for it.
  unfoldable pub seed_legacy_keys : ℕ → List (String × String) → KeyState → KeyState
  seed_legacy_keys now [] st = st
  seed_legacy_keys now ((entry, uuid) ∷ rest) st =
      seed_legacy_keys now rest (seed_one now entry uuid st)

-- `getApiKey` and `listApiKeys`: records without their hash.
pub record PublicRecord : Type 0 where
  pub id : String
  pub name : String
  pub created_by : String
  pub created_at : ℕ
  pub updated_at : ℕ
  pub last_used_at : Option ℕ
  pub scopes : List PermissionScope
  pub ip_whitelist : List Text
  pub expires_at : Option ℕ
  pub rate_limit : RateLimit
  pub revoked : Bool

abbrev pub public_of : ApiKeyRecord → PublicRecord
public_of k = record {
  id = k.id;
  name = k.name;
  created_by = k.created_by;
  created_at = k.created_at;
  updated_at = k.updated_at;
  last_used_at = k.last_used_at;
  scopes = k.scopes;
  ip_whitelist = k.ip_whitelist;
  expires_at = k.expires_at;
  rate_limit = k.rate_limit;
  revoked = k.revoked;
}

abbrev pub public_at : Option (ℕ × ApiKeyRecord) → Option PublicRecord
public_at none = none
public_at (some (r, k)) = some (public_of k)

unfoldable pub get_api_key : String → KeyState → Option PublicRecord
get_api_key id st = public_at (found_at st.heap (JsMap.get id st.key_store))

abbrev pub records_of : List ApiKeyRecord → JsMap ℕ → List PublicRecord
records_of heap [] = []
records_of heap ((id, r) ∷ rest) = elim (public_at (found_at heap (some r))) [
  | none ↦ records_of heap rest
  | some p ↦ p ∷ records_of heap rest
]

unfoldable pub list_api_keys : KeyState → List PublicRecord
list_api_keys st = records_of st.heap st.key_store

-- `getAuditLog`: the entries of a page and the total.
unfoldable pub get_audit_log : ℕ → ℕ → KeyState → List AuditEntry × ℕ
get_audit_log offset limit st = (take limit (drop offset st.audit_log), length st.audit_log)
