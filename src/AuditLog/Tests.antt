-- ===== src/AuditLog/Tests.antt =====
-- Logs of a few entries, with the identity for the digest.
use c_address_onboarding_bri.Prelude.{
  String, ◌≡◌, ◌≢◌, ◌↔◌, true, false, some, if◌then◌else◌, ===_iff,
}
use c_address_onboarding_bri.Json.{
  null, text, Printer, stable_stringify, insert_field, sort_fields, ◌+++◌,
}
use c_address_onboarding_bri.AuditLog.{
  AuditLogEntry, recomputed, genesis_hash, last_hash, entry_hash_material, verify_audit_chain,
}
use c_address_onboarding_bri.AuditLog.Service.{
  IntegrityAuditLogService, init, append, new_entry, seven_years_ms, with_payload, verify, Reaches,
  here, and_then, appended,
}
use c_address_onboarding_bri.AuditLog.Verification.{IsLinked, AgreeAll, verify-IsLinked}
use c_address_onboarding_bri.AuditLog.Appending.{verify-Reaches}

abbrev printer : Printer
printer = record {
  show_null = "null";
  show_boolean = λ b. if b then "true" else "false";
  show_number = λ n. "0";
  show_text = λ s. "'" +++ s +++ "'";
  le = λ s t. true;
}

abbrev digest : String → String
digest s = s

abbrev first_log : IntegrityAuditLogService
first_log =
    append printer digest "a" 1 2 3 "admin_operation" null "system" (init (some 2) (some "url"))

abbrev second_log : IntegrityAuditLogService
second_log = append printer digest "b" 4 5 6 "fee_withdrawal" (text "x") "admin" first_log

Reaches-second : Reaches printer digest (init (some 2) (some "url")) second_log
Reaches-second =
    and_then (and_then here (appended "a" 1 2 3 "admin_operation" null "system"))
      (appended "b" 4 5 6 "fee_withdrawal" (text "x") "admin")

verify-Reaches_example : (verify printer digest second_log).valid ≡ true
verify-Reaches_example =
    verify-Reaches printer digest (some 2) (some "url") second_log Reaches-second

verify-IsLinked_example :
    ((verify_audit_chain printer digest second_log.entries second_log.checkpoints).valid ≡ true) ↔ (
      IsLinked printer digest genesis_hash second_log.entries
      × AgreeAll printer digest second_log.checkpoints second_log.entries)
verify-IsLinked_example = verify-IsLinked printer digest second_log.entries second_log.checkpoints

abbrev entry : AuditLogEntry
entry =
    new_entry printer digest "a" 1 2 "admin_operation" null "system" (init (some 2) (some "url"))

digest-changed : recomputed printer digest (with_payload (text "x") entry) ≢ entry.hash
unfolding new_entry entry_hash_material stable_stringify sort_fields insert_field last_hash init
    seven_years_ms
digest-changed e =
    let h : false ≡ true =
      (===_iff (recomputed printer digest (with_payload (text "x") entry)) entry.hash).1 e in
    cc
