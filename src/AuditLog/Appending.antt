-- ===== src/AuditLog/Appending.antt =====
-- A log that only the operations of `IntegrityAuditLogService` (api/src/services/auditLog.ts) made verifies.
use c_address_onboarding_bri.Prelude.{
  ℕ, suc, String, true, false, Option, none, some, ◌≡◌, refl, sym, subst, List, [], ◌∷◌, ◌++◌, ◌==◌,
  ◌===◌, ◌+◌, ◌<◌, ◌&&◌, ◌%◌, ltb, if◌then◌else◌, find, length, All, All-last, All-weaken,
  All-append, All-parts, Option-cases, ◌⊎◌, inl, inr, arith,
}
use c_address_onboarding_bri.Json.{Printer}
use c_address_onboarding_bri.AuditLog.{
  AuditLogEntry, AuditCheckpoint, Publisher, local_publisher, trusted_timestamp, recomputed,
  genesis_hash, last_hash, checkpoint_at,
}
use c_address_onboarding_bri.AuditLog.Service.{
  IntegrityAuditLogService, init, local_ref, create_checkpoint, publish_checkpoint, push_entry,
  append, new_entry, answered, Answer, status, thrown, publish_checkpoint_for_latest, last_entry,
  verify, Step, appended, published, settled, Reaches, here, and_then,
}
use c_address_onboarding_bri.AuditLog.Verification.{IsLinked, Agrees, AgreeAll, verify-IsLinked}
use c_address_onboarding_bri.AuditLog.Recorded.{
  NumberedFrom, Recorded, Recorded-left, Recorded-last, Recorded-last_entry, Recorded-at,
  NumberedFrom-last, checkpoint_at-Mem,
}

module _ (p : Printer) (sha256 : String → String) where
  IsLinked-last :
      (x : String) (es : List AuditLogEntry) (e : AuditLogEntry)
      → IsLinked p sha256 x es
      → e.previous_hash ≡ last_hash x es
      → recomputed p sha256 e ≡ e.hash
      → IsLinked p sha256 x (es ++ e ∷ [])
  unfolding last_hash
  IsLinked-last x [] e h a b = (a, b, tt)
  IsLinked-last x (d ∷ es) e (c, f, h) a b = (c, f, IsLinked-last d.hash es e h a b)

  abbrev pub IsSound : IntegrityAuditLogService → Type 0
  IsSound log =
      IsLinked p sha256 genesis_hash log.entries
      × NumberedFrom 1 log.entries
      × All (λ c. Recorded log.entries c.sequence c.hash) log.checkpoints
      × All (λ e. Recorded log.entries e.sequence e.hash) log.unanswered

  -- What the verification needs of the checkpoints, for the entries from one on.
  Agrees-checkpoint_at :
      (n : ℕ) (x : String) (cs : List AuditCheckpoint) (e : AuditLogEntry) (es : List AuditLogEntry)
      → NumberedFrom n (e ∷ es)
      → All (λ c. (c.sequence < n) ⊎ Recorded (e ∷ es) c.sequence c.hash) cs
      → (o : Option AuditCheckpoint) → checkpoint_at n cs ≡ o
      → Agrees o e.hash
  Agrees-checkpoint_at n x cs e es (s, ns) h none eq = tt
  Agrees-checkpoint_at n x cs e es (s, ns) h (some c) eq =
      let (q, place) =
        checkpoint_at-Mem (λ c. (c.sequence < n) ⊎ Recorded (e ∷ es) c.sequence c.hash) n cs c h
          eq in
      elim place [
        | inl less ↦ absurd (omega arith)
        | inr (inl (a, b)) ↦ sym b
        | inr (inr r) ↦
            let i = Recorded-at (suc n) es c.sequence c.hash ns r in absurd (omega arith)
      ]

  IsSound-AgreeAll :
      (n : ℕ) (x : String) (cs : List AuditCheckpoint) (es : List AuditLogEntry)
      → IsLinked p sha256 x es
      → NumberedFrom n es
      → All (λ c. (c.sequence < n) ⊎ Recorded es c.sequence c.hash) cs
      → AgreeAll p sha256 cs es
  IsSound-AgreeAll n x cs [] l ns h = tt
  IsSound-AgreeAll n x cs (e ∷ es) (a, b, l) (s, ns) h = (
    subst (λ d. Agrees (checkpoint_at e.sequence cs) d) (sym b)
        (subst (λ k. Agrees (checkpoint_at k cs) e.hash) (sym s)
          (Agrees-checkpoint_at n x cs e es (s, ns) h _ refl)),
    IsSound-AgreeAll (suc n) e.hash cs es l ns (
        All-weaken (λ c. (c.sequence < n) ⊎ Recorded (e ∷ es) c.sequence c.hash)
          (λ c. (c.sequence < suc n) ⊎ Recorded es c.sequence c.hash)
          (λ c k. elim k [
            | inl less ↦ inl (omega arith)
            | inr (inl (q, r)) ↦ inl (omega arith)
            | inr (inr r) ↦ inr r
          ])
          cs h),
  )

  IsSound-create_checkpoint :
      (now : ℕ) (e : AuditLogEntry) (w : Publisher) (ref : String) (log : IntegrityAuditLogService)
      → IsSound log
      → Recorded log.entries e.sequence e.hash
      → IsSound (create_checkpoint now e w ref log)
  unfolding create_checkpoint
  IsSound-create_checkpoint now e w ref log (l, n, c, u) r =
      elim (find (λ c. c.sequence == e.sequence && c.hash === e.hash) log.checkpoints)
        as (λ o. IsSound (elim o [
          | some existing ↦ log
          | none ↦ record log {
            checkpoints =
                log.checkpoints
                ++ record {
                  sequence = e.sequence;
                  hash = e.hash;
                  timestamp = now;
                  publisher = w;
                  publication_ref = ref;
                }
                  ∷ [];
          }
        ])) [
          | some existing ↦ (l, n, c, u)
          | none ↦ (
            l,
            n,
            All-last (λ c. Recorded log.entries c.sequence c.hash) log.checkpoints _ c r,
            u,
          )
        ]

  IsSound-publish_checkpoint :
      (now : ℕ) (e : AuditLogEntry) (log : IntegrityAuditLogService)
      → IsSound log
      → Recorded log.entries e.sequence e.hash
      → IsSound (publish_checkpoint p sha256 now e log)
  unfolding publish_checkpoint
  IsSound-publish_checkpoint now e log (l, n, c, u) r =
      elim log.checkpoint_url
        as (λ o. IsSound (elim o [
          | none ↦ create_checkpoint now e local_publisher (local_ref p sha256 "local" e) log
          | some url ↦ record log { unanswered = log.unanswered ++ e ∷ [] }
        ])) [
          | none ↦ IsSound-create_checkpoint now e local_publisher _ log (l, n, c, u) r
          | some url ↦
              (l, n, c, All-last (λ d. Recorded log.entries d.sequence d.hash) log.unanswered e u r)
        ]

  IsSound-answered :
      (now : ℕ) (e : AuditLogEntry) (url : String) (a : Answer) (log : IntegrityAuditLogService)
      → IsSound log
      → Recorded log.entries e.sequence e.hash
      → IsSound (answered p sha256 now e url a log)
  unfolding answered
  IsSound-answered now e url (status n) log s r =
      IsSound-create_checkpoint now e trusted_timestamp _ log s r
  IsSound-answered now e url thrown log s r =
      IsSound-create_checkpoint now e local_publisher _ log s r

  -- One more entry, with its own digest and linked to the last.
  IsSound-push_entry :
      (now : ℕ) (e : AuditLogEntry) (log : IntegrityAuditLogService)
      → IsSound log
      → e.sequence ≡ 1 + length log.entries
      → e.previous_hash ≡ last_hash genesis_hash log.entries
      → recomputed p sha256 e ≡ e.hash
      → IsSound (push_entry p sha256 now e log)
  unfolding push_entry
  IsSound-push_entry now e log (l, n, c, u) number link digest =
      let log' : IntegrityAuditLogService = record log { entries = log.entries ++ e ∷ [] } in
      let sound : IsSound log' = (
        IsLinked-last genesis_hash log.entries e l link digest,
        NumberedFrom-last 1 log.entries e n number,
        All-weaken (λ c. Recorded log.entries c.sequence c.hash)
            (λ c. Recorded log'.entries c.sequence c.hash)
            (λ c r. Recorded-left log.entries e c.sequence c.hash r) log.checkpoints c,
        All-weaken (λ d. Recorded log.entries d.sequence d.hash)
            (λ d. Recorded log'.entries d.sequence d.hash)
            (λ d r. Recorded-left log.entries e d.sequence d.hash r) log.unanswered u,
      ) in
      elim (ltb 0 log.checkpoint_interval && e.sequence % log.checkpoint_interval == 0)
        as (λ b. IsSound (if b then publish_checkpoint p sha256 now e log' else log')) [
          | true ↦ IsSound-publish_checkpoint now e log' sound (Recorded-last log.entries e)
          | false ↦ sound
        ]

  abbrev latest_of : Option AuditLogEntry → ℕ → IntegrityAuditLogService → IntegrityAuditLogService
  latest_of o now log = elim o [
    | none ↦ log
    | some e ↦ create_checkpoint now e local_publisher (local_ref p sha256 "local" e) log
  ]

  IsSound-publish_checkpoint_for_latest :
      (now : ℕ) (log : IntegrityAuditLogService)
      → IsSound log
      → IsSound (publish_checkpoint_for_latest p sha256 now log)
  unfolding publish_checkpoint_for_latest
  IsSound-publish_checkpoint_for_latest now log s = elim (Option-cases (last_entry log.entries)) [
    | inl e ↦ subst (λ o. IsSound (latest_of o now log)) (sym e) s
    | inr (d, e) ↦
        subst (λ o. IsSound (latest_of o now log)) (sym e)
          (IsSound-create_checkpoint now d local_publisher _ log s
            (Recorded-last_entry log.entries d e))
  ]

  IsSound-Step :
      {log log' : IntegrityAuditLogService} → Step p sha256 log log' → IsSound log → IsSound log'
  unfolding append new_entry
  IsSound-Step (appended {log = log} id now now' now'' kind payload actor) s =
      IsSound-push_entry now'' (new_entry p sha256 id now now' kind payload actor log) log s
        (omega arith) refl refl
  IsSound-Step (published {log = log} now) s = IsSound-publish_checkpoint_for_latest now log s
  IsSound-Step (settled {log = log} now url a before e after eq) (l, n, c, u) =
      let (bs, (r, rest)) =
        All-parts (λ d. Recorded log.entries d.sequence d.hash) before (e ∷ after)
          (subst (λ es. All (λ d. Recorded log.entries d.sequence d.hash) es) eq u) in
      IsSound-answered now e url a (record log { unanswered = before ++ after })
        (l, n, c, All-append (λ d. Recorded log.entries d.sequence d.hash) before after bs rest) r

  IsSound-Reaches :
      {log log' : IntegrityAuditLogService} → Reaches p sha256 log log' → IsSound log → IsSound log'
  IsSound-Reaches here s = s
  IsSound-Reaches (and_then r step) s = IsSound-Step step (IsSound-Reaches r s)

  IsSound-init : (interval : Option ℕ) (url : Option String) → IsSound (init interval url)
  unfolding init
  IsSound-init interval url = (tt, tt, tt, tt)

  -- Whatever calls of `append` and `publishCheckpointForLatest` are made on a new log, in any order, and
  -- whenever and however the publications of checkpoints are answered in between, the log verifies.
  pub verify-Reaches :
      (interval : Option ℕ) (url : Option String) (log : IntegrityAuditLogService)
      → Reaches p sha256 (init interval url) log
      → (verify p sha256 log).valid ≡ true
  unfolding verify
  verify-Reaches interval url log r =
      let (l, n, c, u) = IsSound-Reaches r (IsSound-init interval url) in
      (verify-IsLinked p sha256 log.entries log.checkpoints).1 (
        l,
        IsSound-AgreeAll 1 genesis_hash log.checkpoints log.entries l n (
            All-weaken (λ c. Recorded log.entries c.sequence c.hash)
              (λ c. (c.sequence < 1) ⊎ Recorded log.entries c.sequence c.hash) (λ c r. inr r)
              log.checkpoints c),
      )

  pub NumberedFrom-Reaches :
      (interval : Option ℕ) (url : Option String) (log : IntegrityAuditLogService)
      → Reaches p sha256 (init interval url) log
      → NumberedFrom 1 log.entries
  NumberedFrom-Reaches interval url log r = (IsSound-Reaches r (IsSound-init interval url)).1
