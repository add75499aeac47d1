-- ===== src/AuditLog/Service.antt =====
-- The class `IntegrityAuditLogService` of api/src/services/auditLog.ts: its operations on the state. A
-- publication at the checkpoint URL is answered in a later step; those not yet answered are part of the
-- state. The database is left out.
use c_address_onboarding_bri.Prelude.{
  ℕ, String, Bool, true, Option, none, some, ◌+◌, ◌*◌, ◌%◌, ◌&&◌, if◌then◌else◌, ltb, List, [], ◌∷◌,
  ◌++◌, ◌≡◌, ◌===◌, ◌==◌, length, find, select, take,
}
use Prim.Native.Nat.{min, max}
use c_address_onboarding_bri.Json.{Json, Printer, ◌+++◌}
use c_address_onboarding_bri.AuditLog.{
  Unhashed, AuditLogEntry, AuditCheckpoint, Publisher, local_publisher, trusted_timestamp,
  genesis_hash, last_hash, entry_hash_material, verify_audit_chain, AuditVerificationResult,
}

pub record IntegrityAuditLogService : Type 0 where
  pub entries : List AuditLogEntry
  pub checkpoints : List AuditCheckpoint
  pub checkpoint_interval : ℕ
  pub checkpoint_url : Option String
  pub unanswered : List AuditLogEntry

unfoldable pub seven_years_ms : ℕ
seven_years_ms = 7 * 365 * 24 * 60 * 60 * 1000

abbrev pub default_checkpoint_interval : ℕ
default_checkpoint_interval = 10

-- The constructor, its options `interval` and `url` read with the environment's already.
unfoldable pub init : Option ℕ → Option String → IntegrityAuditLogService
init interval url = record {
  entries = [];
  checkpoints = [];
  checkpoint_interval = elim interval [ none ↦ default_checkpoint_interval | some n ↦ n ];
  checkpoint_url = url;
  unanswered = [];
}

-- `createCheckpoint`: the first checkpoint of a sequence number and hash stays.
unfoldable pub create_checkpoint :
    ℕ → AuditLogEntry → Publisher → String → IntegrityAuditLogService → IntegrityAuditLogService
create_checkpoint now e publisher ref log =
    elim (find (λ c. c.sequence == e.sequence && c.hash === e.hash) log.checkpoints) [
      | some existing ↦ log
      | none ↦
          let checkpoint : AuditCheckpoint = record {
            sequence = e.sequence;
            hash = e.hash;
            timestamp = now;
            publisher = publisher;
            publication_ref = ref;
          } in
          record log { checkpoints = log.checkpoints ++ checkpoint ∷ [] }
    ]

-- The last entry, `this.entries.at(-1)`.
abbrev pub last_entry : List AuditLogEntry → Option AuditLogEntry
last_entry [] = none
last_entry (e ∷ []) = some e
last_entry (e ∷ d ∷ es) = last_entry (d ∷ es)

-- How `fetch` ends: with the status of a response, or by throwing.
pub data Answer : Type 0 where
  status : ℕ → Answer
  thrown : Answer

-- The parameters of `listEntries`.
pub record Query : Type 0 where
  pub kind : Option String
  pub limit : Option ℕ
  pub cursor : Option ℕ

unfoldable pub page_limit : Option ℕ → ℕ
page_limit none = min (max 100 1) 1000
page_limit (some n) = min (max n 1) 1000

-- `params.type ? entry.type === params.type : true`; the empty type is no filter.
unfoldable pub of_kind : Option String → AuditLogEntry → Bool
of_kind none e = true
of_kind (some k) e = if k === "" then true else e.kind === k

-- `params.cursor ? entry.sequence > params.cursor : true`; the cursor 0 is no filter.
unfoldable pub after_cursor : Option ℕ → AuditLogEntry → Bool
after_cursor none e = true
after_cursor (some c) e = if c == 0 then true else ltb c e.sequence

unfoldable pub list_entries : Query → IntegrityAuditLogService → List AuditLogEntry
list_entries q log =
    take (page_limit q.limit) (select (after_cursor q.cursor) (select (of_kind q.kind) log.entries))

-- `entry.payload = payload`
abbrev pub with_payload : Json → AuditLogEntry → AuditLogEntry
with_payload payload e =
    let content : Unhashed = record e.content { payload = payload } in
    record { content = content; hash = e.hash }

-- `tamperForTest` on the list of entries: the first entry of the sequence number.
unfoldable pub set_payload : ℕ → Json → List AuditLogEntry → List AuditLogEntry
set_payload n payload [] = []
set_payload n payload (e ∷ es) =
    if e.sequence == n then with_payload payload e ∷ es else e ∷ set_payload n payload es

-- `tamperForTest` and `clearForTest` throw outside of tests.
unfoldable pub tamper_for_test :
    Bool → ℕ → Json → IntegrityAuditLogService → Option IntegrityAuditLogService
tamper_for_test in_test n payload log =
    if in_test then some (record log { entries = set_payload n payload log.entries }) else none

unfoldable pub clear_for_test : Bool → IntegrityAuditLogService → Option IntegrityAuditLogService
clear_for_test in_test log =
    if in_test then some (record log { entries = []; checkpoints = [] }) else none

module _ (p : Printer) (sha256 : String → String) where
  abbrev pub local_ref : String → AuditLogEntry → String
  local_ref prefix e = prefix +++ ":" +++ p.show_number e.sequence +++ ":" +++ e.hash

  -- `publishCheckpoint` up to its `await`.
  unfoldable pub publish_checkpoint :
      ℕ → AuditLogEntry → IntegrityAuditLogService → IntegrityAuditLogService
  publish_checkpoint now e log = elim log.checkpoint_url [
    | none ↦ create_checkpoint now e local_publisher (local_ref "local" e) log
    | some url ↦ record log { unanswered = log.unanswered ++ e ∷ [] }
  ]

  -- The rest of `publishCheckpoint`, for one publication that `fetch` ends.
  unfoldable pub answered :
      ℕ → AuditLogEntry → String → Answer → IntegrityAuditLogService → IntegrityAuditLogService
  answered now e url (status n) log =
      create_checkpoint now e trusted_timestamp
        (url +++ ":" +++ p.show_number n +++ ":" +++ p.show_number e.sequence) log
  answered now e url thrown log =
      create_checkpoint now e local_publisher (local_ref "local-fallback" e) log

  -- The entry that `append` makes; the clock is read twice.
  unfoldable pub new_entry :
      String → ℕ → ℕ → String → Json → String → IntegrityAuditLogService → AuditLogEntry
  new_entry id now now' kind payload actor log =
      let content : Unhashed = record {
        sequence = length log.entries + 1;
        id = id;
        timestamp = now;
        kind = kind;
        actor = actor;
        payload = payload;
        previous_hash = last_hash genesis_hash log.entries;
        retention_until = now' + seven_years_ms;
      } in
      record { content = content; hash = sha256 (entry_hash_material p content) }

  -- `append`, for the entry it makes.
  unfoldable pub push_entry :
      ℕ → AuditLogEntry → IntegrityAuditLogService → IntegrityAuditLogService
  push_entry now e log =
      let log' : IntegrityAuditLogService = record log { entries = log.entries ++ e ∷ [] } in
      if ltb 0 log.checkpoint_interval && e.sequence % log.checkpoint_interval == 0
      then publish_checkpoint now e log'
      else log'

  unfoldable pub append :
      String
      → ℕ
      → ℕ
      → ℕ
      → String
      → Json
      → String
      → IntegrityAuditLogService
      → IntegrityAuditLogService
  append id now now' now'' kind payload actor log =
      push_entry now'' (new_entry id now now' kind payload actor log) log

  unfoldable pub publish_checkpoint_for_latest :
      ℕ → IntegrityAuditLogService → IntegrityAuditLogService
  publish_checkpoint_for_latest now log = elim (last_entry log.entries) [
    | none ↦ log
    | some e ↦ create_checkpoint now e local_publisher (local_ref "local" e) log
  ]

  unfoldable pub verify : IntegrityAuditLogService → AuditVerificationResult
  verify log = verify_audit_chain p sha256 log.entries log.checkpoints

  -- What happens to the log: a call of an operation, or the answer to a publication not yet answered.
  pub data Step : IntegrityAuditLogService → IntegrityAuditLogService → Type 0 where
    appended :
        {log : IntegrityAuditLogService} (id : String) (now now' now'' : ℕ) (kind : String)
        (payload : Json) (actor : String)
        → Step log (append id now now' now'' kind payload actor log)
    published :
        {log : IntegrityAuditLogService} (now : ℕ)
        → Step log (publish_checkpoint_for_latest now log)
    settled :
        {log : IntegrityAuditLogService} (now : ℕ) (url : String) (a : Answer)
        (before : List AuditLogEntry) (e : AuditLogEntry) (after : List AuditLogEntry)
        (now_unanswered : log.unanswered ≡ before ++ e ∷ after)
        → Step log (answered now e url a (record log { unanswered = before ++ after }))

  pub data Reaches : IntegrityAuditLogService → IntegrityAuditLogService → Type 0 where
    here : {log : IntegrityAuditLogService} → Reaches log log
    and_then :
        {log mid end : IntegrityAuditLogService} → Reaches log mid → Step mid end → Reaches log end
