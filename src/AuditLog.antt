-- ===== src/AuditLog.antt =====
-- The tamper-evident audit log, api/src/services/auditLog.ts, less its database copy. SHA-256 and the
-- texts of JSON primitives are parameters; ids and clock readings are arguments.
pub mod Verification
pub mod Service
pub mod Tampering
pub mod Recorded
pub mod Appending
pub mod Listing
mod Tests
use c_address_onboarding_bri.Prelude.{
  ℕ, suc, String, Bool, true, false, Option, none, some, ◌+◌, ◌*◌, ◌%◌, ◌&&◌, if◌then◌else◌, leb,
  ltb, List, [], ◌∷◌, ◌++◌, ◌===◌, ◌==◌, not, length, find, select, take,
}
use Prim.Native.Nat.{min, max}
use c_address_onboarding_bri.Json.{
  Json, number, text, object, end, field, Printer, stable_stringify,
}

-- An `Omit<AuditLogEntry, 'hash'>`.
pub record Unhashed : Type 0 where
  pub sequence : ℕ
  pub id : String
  pub timestamp : ℕ
  pub kind : String
  pub actor : String
  pub payload : Json
  pub previous_hash : String
  pub retention_until : ℕ

pub record AuditLogEntry : Type 0 where
  pub content : Unhashed
  pub open content use *
  pub hash : String

pub data Publisher : Type 0 where
  local_publisher trusted_timestamp : Publisher

pub record AuditCheckpoint : Type 0 where
  pub sequence : ℕ
  pub hash : String
  pub timestamp : ℕ
  pub publisher : Publisher
  pub publication_ref : String

abbrev pub genesis_hash : String
genesis_hash = "0000000000000000000000000000000000000000000000000000000000000000"

pub data Message : Type 0 where
  broken_chain_link entry_hash_mismatch checkpoint_mismatch : Message

abbrev pub AuditError : Type 0
AuditError = ℕ × Message

pub record AuditVerificationResult : Type 0 where
  pub valid : Bool
  pub entry_count : ℕ
  pub checkpoint_count : ℕ
  pub errors : List AuditError

-- `this.entries.at(-1)?.hash ?? GENESIS_HASH`
unfoldable pub last_hash : String → List AuditLogEntry → String
last_hash h [] = h
last_hash h (e ∷ es) = last_hash e.hash es

-- The checkpoint map: a later checkpoint of a sequence number replaces an earlier one.
unfoldable pub checkpoint_at : ℕ → List AuditCheckpoint → Option AuditCheckpoint
checkpoint_at n [] = none
checkpoint_at n (c ∷ cs) = elim (checkpoint_at n cs) [
  | some d ↦ some d
  | none ↦ if c.sequence == n then some c else none
]

module _ (p : Printer) where
  unfoldable pub entry_hash_material : Unhashed → String
  entry_hash_material e = stable_stringify p (
      object (
        field "sequence" (number e.sequence) (
          field "id" (text e.id) (
            field "timestamp" (number e.timestamp) (
              field "type" (text e.kind) (
                field "actor" (text e.actor) (
                  field "payload" e.payload (
                    field "previousHash" (text e.previous_hash)
                      (field "retentionUntil" (number e.retention_until) end)))))))))

module _ (p : Printer) (sha256 : String → String) where
  unfoldable pub hash_payload : Json → String
  hash_payload payload = sha256 (stable_stringify p payload)

  abbrev pub recomputed : AuditLogEntry → String
  recomputed e = sha256 (entry_hash_material p e.content)

  -- The errors that one round of `verifyAuditChain` pushes.
  unfoldable pub link_errors : String → AuditLogEntry → List AuditError
  link_errors expected e =
      if e.previous_hash === expected then [] else (e.sequence, broken_chain_link) ∷ []

  unfoldable pub hash_errors : AuditLogEntry → List AuditError
  hash_errors e = if recomputed e === e.hash then [] else (e.sequence, entry_hash_mismatch) ∷ []

  unfoldable pub checkpoint_errors : List AuditCheckpoint → AuditLogEntry → List AuditError
  checkpoint_errors cs e = elim (checkpoint_at e.sequence cs) [
    | none ↦ []
    | some c ↦ if c.hash === recomputed e then [] else (e.sequence, checkpoint_mismatch) ∷ []
  ]

  -- The loop of `verifyAuditChain`.
  unfoldable pub chain_errors : List AuditCheckpoint → String → List AuditLogEntry → List AuditError
  chain_errors cs expected [] = []
  chain_errors cs expected (e ∷ es) =
      link_errors expected e
      ++ (hash_errors e ++ (checkpoint_errors cs e ++ chain_errors cs e.hash es))

  unfoldable pub verify_audit_chain :
      List AuditLogEntry → List AuditCheckpoint → AuditVerificationResult
  verify_audit_chain entries checkpoints =
      let errors = chain_errors checkpoints genesis_hash entries in
      record {
        valid = length errors == 0;
        entry_count = length entries;
        checkpoint_count = length checkpoints;
        errors = errors;
      }
