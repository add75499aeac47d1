-- ===== src/AuditLog/Tampering.antt =====
-- Changes of the stored entries that `verifyAuditChain` of api/src/services/auditLog.ts sees, and one that
-- it does not.
use c_address_onboarding_bri.Prelude.{
  ℕ, zero, suc, String, true, false, some, ◌≡◌, ◌≢◌, subst, List, [], ◌∷◌, ◌==◌, if◌then◌else◌,
  find, take, Bool-cases, inl, inr,
}
use c_address_onboarding_bri.Json.{Json, Printer}
use c_address_onboarding_bri.AuditLog.{
  AuditLogEntry, AuditCheckpoint, recomputed, genesis_hash, verify_audit_chain,
}
use c_address_onboarding_bri.AuditLog.Service.{with_payload, set_payload}
use c_address_onboarding_bri.AuditLog.Verification.{IsLinked, AgreeAll, verify-IsLinked}

module _ (p : Printer) (sha256 : String → String) where
  set_payload_lem :
      (n : ℕ) (payload : Json) (x : String) (es : List AuditLogEntry) (e : AuditLogEntry)
      → find (λ d. d.sequence == n) es ≡ some e
      → IsLinked p sha256 x (set_payload n payload es)
      → recomputed p sha256 (with_payload payload e) ≡ e.hash
  unfolding set_payload
  set_payload_lem n payload x [] e found linked = cc
  set_payload_lem n payload x (d ∷ es) e found linked = elim (Bool-cases (d.sequence == n)) [
    | inl eq ↦
        let h =
          subst
            (λ b.
              IsLinked p sha256 x
                (if b then with_payload payload d ∷ es else d ∷ set_payload n payload es))
            eq linked in
        let f : some d ≡ some e =
          subst (λ b. (if b then some d else find (λ c. c.sequence == n) es) ≡ some e) eq found in
        let d≡e : d ≡ e = cc in
        subst (λ c. recomputed p sha256 (with_payload payload c) ≡ c.hash) d≡e h.1
    | inr ne ↦
        let h =
          subst
            (λ b.
              IsLinked p sha256 x
                (if b then with_payload payload d ∷ es else d ∷ set_payload n payload es))
            ne linked in
        let f : find (λ c. c.sequence == n) es ≡ some e =
          subst (λ b. (if b then some d else find (λ c. c.sequence == n) es) ≡ some e) ne found in
        set_payload_lem n payload d.hash es e f h.2
  ]

  -- Whatever the checkpoints: when the first entry of a sequence number gets a payload with which its
  -- content has another digest than the entry's hash, the verification fails.
  pub verify-set_payload :
      (n : ℕ) (payload : Json) (es : List AuditLogEntry) (cs : List AuditCheckpoint)
      (e : AuditLogEntry)
      → find (λ d. d.sequence == n) es ≡ some e
      → recomputed p sha256 (with_payload payload e) ≢ e.hash
      → (verify_audit_chain p sha256 (set_payload n payload es) cs).valid ≡ false
  verify-set_payload n payload es cs e found changed =
      elim (Bool-cases (verify_audit_chain p sha256 (set_payload n payload es) cs).valid) [
        | inr f ↦ f
        | inl t ↦
            let h =
              set_payload_lem n payload genesis_hash es e found
                ((verify-IsLinked p sha256 (set_payload n payload es) cs).0 t).0 in
            absurd (changed h)
      ]

  IsLinked-take :
      (k : ℕ) (x : String) (es : List AuditLogEntry)
      → IsLinked p sha256 x es
      → IsLinked p sha256 x (take k es)
  IsLinked-take zero x es h = tt
  IsLinked-take (suc k) x [] h = tt
  IsLinked-take (suc k) x (e ∷ es) (a, b, h) = (a, b, IsLinked-take k e.hash es h)

  AgreeAll-take :
      (k : ℕ) (cs : List AuditCheckpoint) (es : List AuditLogEntry)
      → AgreeAll p sha256 cs es
      → AgreeAll p sha256 cs (take k es)
  AgreeAll-take zero cs es h = tt
  AgreeAll-take (suc k) cs [] h = tt
  AgreeAll-take (suc k) cs (e ∷ es) (a, h) = (a, AgreeAll-take k cs es h)

  -- A verification that succeeds also succeeds when all entries after any place are removed and the
  -- checkpoints, those of the removed entries included, are left: checkpoints do not show a cut log.
  pub verify-take :
      (k : ℕ) (es : List AuditLogEntry) (cs : List AuditCheckpoint)
      → (verify_audit_chain p sha256 es cs).valid ≡ true
      → (verify_audit_chain p sha256 (take k es) cs).valid ≡ true
  verify-take k es cs h =
      let (linked, agree) = (verify-IsLinked p sha256 es cs).0 h in
      (verify-IsLinked p sha256 (take k es) cs).1
        (IsLinked-take k genesis_hash es linked, AgreeAll-take k cs es agree)
