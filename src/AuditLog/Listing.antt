-- ===== src/AuditLog/Listing.antt =====
-- The pages of `listEntries` of api/src/services/auditLog.ts.
use c_address_onboarding_bri.Prelude.{
  ℕ, zero, suc, String, Bool, true, false, Option, none, some, ◌≡◌, refl, sym, ap, ◌∙◌, List, [],
  ◌∷◌, ◌-◌, leb, if◌then◌else◌, take, drop, select, Bool-cases, inl, inr, arith,
}
use c_address_onboarding_bri.Json.{Printer}
use c_address_onboarding_bri.AuditLog.{AuditLogEntry}
use c_address_onboarding_bri.AuditLog.Service.{
  IntegrityAuditLogService, init, page_limit, of_kind, after_cursor, list_entries, Reaches,
}
use c_address_onboarding_bri.AuditLog.Recorded.{NumberedFrom}
use c_address_onboarding_bri.AuditLog.Appending.{NumberedFrom-Reaches}

module _ {A : Type 0} where
  select-all : (f : A → Bool) (xs : List A) → ((x : A) → f x ≡ true) → select f xs ≡ xs
  select-all f [] h = refl
  select-all f (x ∷ xs) h =
      ap (λ b. if b then x ∷ select f xs else select f xs) (h x)
      ∙ ap (λ l. x ∷ l) (select-all f xs h)

drop-nil : (n : ℕ) → drop {A = AuditLogEntry} n [] ≡ []
drop-nil zero = refl
drop-nil (suc n) = refl

zeroth : (n : ℕ) → n - 0 ≡ n
zeroth n = omega arith

-- Past the cursor n of entries numbered from k + 1 on are those after the first n - k.
select-after_cursor :
    (n k : ℕ) (es : List AuditLogEntry)
    → NumberedFrom (suc k) es
    → select (after_cursor (some n)) es ≡ drop (n - k) es
unfolding after_cursor
select-after_cursor n k [] h = sym (drop-nil (n - k))
select-after_cursor n k (e ∷ es) (s, h) =
    let rest = select-after_cursor n (suc k) es h in
    elim (Bool-cases (leb n k)) [
      | inl le ↦
          let passes : after_cursor (some n) e ≡ true = ground arith in
          let m : n - k ≡ 0 = ground arith in
          let m1 : n - suc k ≡ 0 = ground arith in
          ap
            (λ b.
              if b
              then e ∷ select (after_cursor (some n)) es
              else select (after_cursor (some n)) es)
            passes
          ∙ (ap (λ l. e ∷ l) (rest ∙ ap (λ i. drop i es) m1) ∙ ap (λ i. drop i (e ∷ es)) (sym m))
      | inr gt ↦
          let fails : after_cursor (some n) e ≡ false = ground arith in
          let m : n - k ≡ suc (n - suc k) = ground arith in
          ap
            (λ b.
              if b
              then e ∷ select (after_cursor (some n)) es
              else select (after_cursor (some n)) es)
            fails
          ∙ (rest ∙ ap (λ i. drop i (e ∷ es)) (sym m))
    ]

module _ (p : Printer) (sha256 : String → String) where
  -- In a log that the operations made, the page of any type after the cursor n is the first entries, as
  -- many as the limit in its bounds 1 and 1000 (100 when there is none), of those after the first n.
  pub list_entries-drop :
      (interval : Option ℕ) (url : Option String) (log : IntegrityAuditLogService)
      → Reaches p sha256 (init interval url) log
      → (n : ℕ) (limit : Option ℕ)
      → list_entries (record { kind = none; limit = limit; cursor = some n }) log
        ≡ take (page_limit limit) (drop n log.entries)
  unfolding list_entries of_kind
  list_entries-drop interval url log r n limit =
      ap (λ l. take (page_limit limit) l)
        (ap (λ l. select (after_cursor (some n)) l)
            (select-all (of_kind none) log.entries (λ e. refl))
          ∙ select-after_cursor n 0 log.entries (NumberedFrom-Reaches p sha256 interval url log r)
          ∙ ap (λ i. drop i log.entries) (zeroth n))
