-- ===== src/AuditLog/Verification.antt =====
-- What `verifyAuditChain` of api/src/services/auditLog.ts accepts, and what it does not see.
use c_address_onboarding_bri.Prelude.{
  String, true, Option, none, some, ◌≡◌, ◌↔◌, refl, ap, subst, List, [], ◌∷◌, ◌++◌, ◌===◌,
  ===-cases, ===_iff, if◌then◌else◌, length, length-append, inl, inr, arith,
}
use c_address_onboarding_bri.Json.{Printer}
use c_address_onboarding_bri.AuditLog.{
  AuditLogEntry, AuditCheckpoint, AuditError, recomputed, link_errors, hash_errors,
  checkpoint_errors, chain_errors, checkpoint_at, genesis_hash, verify_audit_chain,
  checkpoint_mismatch,
}

-- What an entry's checkpoint must be.
abbrev pub Agrees : Option AuditCheckpoint → String → Type 0
Agrees none h = Unit
Agrees (some c) h = c.hash ≡ h

abbrev IsQuiet : List AuditError → Type 0
IsQuiet es = length es ≡ 0

report_lem :
    (s t : String) (err : AuditError) → IsQuiet (if s === t then [] else err ∷ []) ↔ (s ≡ t)
report_lem s t err = elim (===-cases s t) [
  | inl e ↦ ((λ q. e), λ e'. ap (λ b. length (if b then [] else err ∷ [])) ((===_iff s t).1 e))
  | inr n ↦ (
    (λ q. let h = subst (λ b. length (if b then [] else err ∷ []) ≡ 0) n q in ground arith),
    λ e. let h = (===_iff s t).1 e in ground arith,
  )
]

module _ (p : Printer) (sha256 : String → String) where
  -- Each entry names the hash of the one before, and its own hash is the digest of its content.
  abbrev pub IsLinked : String → List AuditLogEntry → Type 0
  IsLinked expected [] = Unit
  IsLinked expected (e ∷ es) =
      e.previous_hash ≡ expected × recomputed p sha256 e ≡ e.hash × IsLinked e.hash es

  abbrev pub AgreeAll : List AuditCheckpoint → List AuditLogEntry → Type 0
  AgreeAll cs [] = Unit
  AgreeAll cs (e ∷ es) =
      Agrees (checkpoint_at e.sequence cs) (recomputed p sha256 e) × AgreeAll cs es

  link_errors_lem :
      (x : String) (e : AuditLogEntry) → IsQuiet (link_errors p sha256 x e) ↔ (e.previous_hash ≡ x)
  unfolding link_errors
  link_errors_lem x e = report_lem e.previous_hash x _

  hash_errors_lem :
      (e : AuditLogEntry) → IsQuiet (hash_errors p sha256 e) ↔ (recomputed p sha256 e ≡ e.hash)
  unfolding hash_errors
  hash_errors_lem e = report_lem (recomputed p sha256 e) e.hash _

  checkpoint_errors_lem :
      (cs : List AuditCheckpoint) (e : AuditLogEntry)
      → IsQuiet (checkpoint_errors p sha256 cs e)
        ↔ Agrees (checkpoint_at e.sequence cs) (recomputed p sha256 e)
  unfolding checkpoint_errors
  checkpoint_errors_lem cs e =
      elim (checkpoint_at e.sequence cs)
        as (λ o.
          IsQuiet (elim o [
            | none ↦ []
            | some c ↦
                if c.hash === recomputed p sha256 e
                then []
                else (e.sequence, checkpoint_mismatch) ∷ []
          ])
          ↔ Agrees o (recomputed p sha256 e)) [
            | none ↦ ((λ q. tt), λ q. refl)
            | some c ↦ report_lem c.hash (recomputed p sha256 e) _
          ]

  chain_errors_lem :
      (cs : List AuditCheckpoint) (x : String) (es : List AuditLogEntry)
      → IsQuiet (chain_errors p sha256 cs x es) ↔ (IsLinked x es × AgreeAll cs es)
  unfolding chain_errors
  chain_errors_lem cs x [] = ((λ q. (tt, tt)), λ q. refl)
  chain_errors_lem cs x (e ∷ es) =
      let l = link_errors_lem x e in
      let h = hash_errors_lem e in
      let c = checkpoint_errors_lem cs e in
      let r = chain_errors_lem cs e.hash es in
      let rest = chain_errors p sha256 cs e.hash es in
      let n1 =
        length-append (link_errors p sha256 x e)
          (hash_errors p sha256 e ++ (checkpoint_errors p sha256 cs e ++ rest)) in
      let n2 = length-append (hash_errors p sha256 e) (checkpoint_errors p sha256 cs e ++ rest) in
      let n3 = length-append (checkpoint_errors p sha256 cs e) rest in
      (
        (λ q.
            let linked = r.0 (omega arith) in
            ((l.0 (omega arith), h.0 (omega arith), linked.0), (c.0 (omega arith), linked.1))),
        λ q.
            let q1 = l.1 q.0.0 in
            let q2 = h.1 q.0.1 in let q3 = c.1 q.1.0 in let q4 = r.1 (q.0.2, q.1.1) in omega arith,
      )

  -- A verification succeeds exactly when every entry names the hash of the one before (the genesis hash
  -- for the first), carries the digest of its own content, and agrees with the checkpoint, if any, of its
  -- sequence number.
  pub verify-IsLinked :
      (es : List AuditLogEntry) (cs : List AuditCheckpoint)
      → ((verify_audit_chain p sha256 es cs).valid ≡ true)
        ↔ (IsLinked genesis_hash es × AgreeAll cs es)
  unfolding verify_audit_chain
  verify-IsLinked es cs =
      let r = chain_errors_lem cs genesis_hash es in
      ((λ e. r.0 (ground arith)), λ h. let q = r.1 h in ground arith)
