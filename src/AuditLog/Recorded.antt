-- ===== src/AuditLog/Recorded.antt =====
-- Numbered entries, and checkpoints that name recorded ones, for api/src/services/auditLog.ts.
use c_address_onboarding_bri.Prelude.{
  ℕ, suc, String, Option, none, some, ◌≡◌, refl, ap, ◌∙◌, subst, List, [], ◌∷◌, ◌++◌, ◌==◌, ◌+◌,
  ◌<◌, if◌then◌else◌, length, All, Bool-cases, Option-cases, ◌⊎◌, inl, inr, arith,
}
use c_address_onboarding_bri.AuditLog.{AuditLogEntry, AuditCheckpoint, checkpoint_at}
use c_address_onboarding_bri.AuditLog.Service.{last_entry}

abbrev pub NumberedFrom : ℕ → List AuditLogEntry → Type 0
NumberedFrom n [] = Unit
NumberedFrom n (e ∷ es) = e.sequence ≡ n × NumberedFrom (suc n) es

-- Some entry has the sequence number and the hash.
abbrev pub Recorded : List AuditLogEntry → ℕ → String → Type 0
Recorded [] n h = ⊥
Recorded (e ∷ es) n h = (e.sequence ≡ n × e.hash ≡ h) ⊎ Recorded es n h

pub Recorded-left :
    (es : List AuditLogEntry) (e : AuditLogEntry) (n : ℕ) (h : String)
    → Recorded es n h
    → Recorded (es ++ e ∷ []) n h
Recorded-left [] e n h r = elim r [ ]
Recorded-left (d ∷ es) e n h (inl r) = inl r
Recorded-left (d ∷ es) e n h (inr r) = inr (Recorded-left es e n h r)

pub Recorded-last :
    (es : List AuditLogEntry) (e : AuditLogEntry) → Recorded (es ++ e ∷ []) e.sequence e.hash
Recorded-last [] e = inl (refl, refl)
Recorded-last (d ∷ es) e = inr (Recorded-last es e)

pub Recorded-last_entry :
    (es : List AuditLogEntry) (e : AuditLogEntry)
    → last_entry es ≡ some e
    → Recorded es e.sequence e.hash
Recorded-last_entry [] e h = absurd cc
Recorded-last_entry (d ∷ []) e h =
    let d≡e : d ≡ e = cc in inl (ap (λ c. c.sequence) d≡e, ap (λ c. c.hash) d≡e)
Recorded-last_entry (d ∷ f ∷ es) e h = inr (Recorded-last_entry (f ∷ es) e h)

pub Recorded-at :
    (n : ℕ) (es : List AuditLogEntry) (k : ℕ) (h : String)
    → NumberedFrom n es
    → Recorded es k h
    → n < suc k
Recorded-at n [] k h ns r = elim r [ ]
Recorded-at n (e ∷ es) k h (s, ns) (inl (a, b)) = omega arith
Recorded-at n (e ∷ es) k h (s, ns) (inr r) = let i = Recorded-at (suc n) es k h ns r in omega arith

pub NumberedFrom-last :
    (n : ℕ) (es : List AuditLogEntry) (e : AuditLogEntry)
    → NumberedFrom n es
    → e.sequence ≡ n + length es
    → NumberedFrom n (es ++ e ∷ [])
NumberedFrom-last n [] e h s = (omega arith, tt)
NumberedFrom-last n (d ∷ es) e (a, h) s = (a, NumberedFrom-last (suc n) es e h (omega arith))

-- The checkpoint that the loop over the checkpoints keeps.
abbrev newer : ℕ → AuditCheckpoint → Option AuditCheckpoint → Option AuditCheckpoint
newer n d o = elim o [ some k ↦ some k | none ↦ if d.sequence == n then some d else none ]

at_head :
    (P : AuditCheckpoint → Type 0) (n : ℕ) (d c : AuditCheckpoint)
    → P d
    → newer n d none ≡ some c
    → c.sequence ≡ n × P c
at_head P n d c a e = elim (Bool-cases (d.sequence == n)) [
  | inl t ↦
      let f : some d ≡ some c = subst (λ b. (if b then some d else none) ≡ some c) t e in
      let d≡c : d ≡ c = cc in subst (λ k. k.sequence ≡ n × P k) d≡c (ground arith, a)
  | inr t ↦ let f = subst (λ b. (if b then some d else none) ≡ some c) t e in absurd cc
]

-- What an entry's checkpoint is: one of the list, of that sequence number.
pub checkpoint_at-Mem :
    (P : AuditCheckpoint → Type 0) (n : ℕ) (cs : List AuditCheckpoint) (c : AuditCheckpoint)
    → All P cs
    → checkpoint_at n cs ≡ some c
    → c.sequence ≡ n × P c
unfolding checkpoint_at
checkpoint_at-Mem P n [] c h e = cc
checkpoint_at-Mem P n (d ∷ cs) c (a, h) e = elim (Option-cases (checkpoint_at n cs)) [
  | inr (k, q) ↦ checkpoint_at-Mem P n cs c h (q ∙ subst (λ o. newer n d o ≡ some c) q e)
  | inl q ↦ at_head P n d c a (subst (λ o. newer n d o ≡ some c) q e)
]
