-- ===== src/MigrationRunner/Migrating.antt =====
-- A second run of `migrate` (api/src/migrations/runner.ts) after one that succeeded.
use c_address_onboarding_bri.Prelude.{
  ℕ, suc, String, Bool, true, false, not, if◌then◌else◌, List, [], ◌∷◌, ◌++◌, ===_refl, ◌≡◌, refl,
  sym, ap, ◌∙◌, subst, All, arith,
}
use mathlib.Core.List.{append_assoc, append-nil}
use c_address_onboarding_bri.Prelude.Result.{ok}
use c_address_onboarding_bri.MigrationRunner.{
  Migration, Row, Database, is_listed, versions, Progress, run, finish, start, migrate,
}

pub versions-append :
    (rs : List Row) (r : Row) → versions (rs ++ r ∷ []) ≡ versions rs ++ r.version ∷ []
versions-append [] r = refl
versions-append (x ∷ rs) r = ap (λ vs. x.version ∷ vs) (versions-append rs r)

is_listed-append :
    (v u : String) (vs : List String) → is_listed v vs ≡ true → is_listed v (vs ++ u ∷ []) ≡ true
is_listed-append v u [] h = absurd cc
is_listed-append v u (w ∷ vs) h = let rest = is_listed-append v u vs in ground (arith, rest)

is_listed-last : (v : String) (vs : List String) → is_listed v (vs ++ v ∷ []) ≡ true
is_listed-last v [] = let e = ===_refl v in ground arith
is_listed-last v (w ∷ vs) = let rest = is_listed-last v vs in ground arith

module _ {W : Type 0} where
  abbrev pub IsIn : String → Progress W → Type 0
  IsIn v s = is_listed v (versions s.rows) ≡ true

  -- The progress after a migration that is not listed and succeeds.
  abbrev pub record_applied : (ℕ → ℕ) → ℕ → Migration W → Progress W → Progress W
  record_applied clock i m s = record {
    world = (m.up s.world).0;
    rows = s.rows ++ record { version = m.version; name = m.name; applied_at = clock i } ∷ [];
    applied = s.applied ++ m.version ∷ [];
    skipped = s.skipped;
  }

  abbrev pub record_skipped : Migration W → Progress W → Progress W
  record_skipped m s = record s { skipped = s.skipped ++ m.version ∷ [] }

  pub IsIn-record_applied :
      (clock : ℕ → ℕ) (i : ℕ) (m : Migration W) (s : Progress W) (v : String)
      → IsIn v s
      → IsIn v (record_applied clock i m s)
  IsIn-record_applied clock i m s v h =
      ap (λ vs. is_listed v vs) (versions-append s.rows _)
      ∙ is_listed-append v m.version (versions s.rows) h

  -- To show something of a run, for a first migration: it is skipped, the run stops, or it is recorded.
  abbrev pub by_step :
      Bool
      → Bool
      → Bool
      → Progress W × Bool
      → Progress W × Bool
      → Progress W × Bool
      → Progress W × Bool
  by_step a b c skip stop next =
      if a then skip else if not b then stop else if c then stop else next

  by_step_lem :
      (P : Progress W × Bool → Type 0) (a b c : Bool) (skip stop next : Progress W × Bool)
      → (a ≡ true → P skip)
      → P stop
      → (a ≡ false → b ≡ true → c ≡ false → P next)
      → P (by_step a b c skip stop next)
  by_step_lem P true b c skip stop next f h g = f refl
  by_step_lem P false false c skip stop next f h g = h
  by_step_lem P false true true skip stop next f h g = h
  by_step_lem P false true false skip stop next f h g = g refl refl refl

  run-step :
      (P : Progress W × Bool → Type 0) (clock : ℕ → ℕ) (i : ℕ) (set : List String) (m : Migration W)
      (ms : List (Migration W)) (s : Progress W)
      → (is_listed m.version set ≡ true → P (run clock (suc i) set ms (record_skipped m s)))
      → P (record s { world = (m.up s.world).0 }, false)
      → (is_listed m.version set ≡ false
          → (m.up s.world).1 ≡ true
          → is_listed m.version (versions s.rows) ≡ false
          → P (run clock (suc i) set ms (record_applied clock i m s)))
      → P (run clock i set (m ∷ ms) s)
  unfolding run
  run-step P clock i set m ms s skip stop next =
      by_step_lem P (is_listed m.version set) (m.up s.world).1
        (is_listed m.version (versions s.rows)) (run clock (suc i) set ms (record_skipped m s))
        (record s { world = (m.up s.world).0 }, false)
        (run clock (suc i) set ms (record_applied clock i m s)) skip stop next

  run-IsIn :
      (clock : ℕ → ℕ) (i : ℕ) (set : List String) (ms : List (Migration W)) (s : Progress W)
      (v : String)
      → IsIn v s
      → IsIn v (run clock i set ms s).0
  unfolding run
  run-IsIn clock i set [] s v h = h
  run-IsIn clock i set (m ∷ ms) s v h =
      run-step (λ r. IsIn v r.0) clock i set m ms s
        (λ a. run-IsIn clock (suc i) set ms (record_skipped m s) v h) h
        (λ a b c.
          run-IsIn clock (suc i) set ms (record_applied clock i m s) v
            (IsIn-record_applied clock i m s v h))

  -- Each migration has a row when a run is over, if those of the set had one before.
  run-All-IsIn :
      (clock : ℕ → ℕ) (i : ℕ) (set : List String) (ms : List (Migration W)) (s : Progress W)
      → ((v : String) → is_listed v set ≡ true → IsIn v s)
      → (run clock i set ms s).1 ≡ true
      → All (λ m. IsIn m.version (run clock i set ms s).0) ms
  run-All-IsIn clock i set [] s old = λ e. tt
  run-All-IsIn clock i set (m ∷ ms) s old =
      run-step (λ r. r.1 ≡ true → All (λ n. IsIn n.version r.0) (m ∷ ms)) clock i set m ms s
        (λ a e. (
          run-IsIn clock (suc i) set ms (record_skipped m s) m.version (old m.version a),
          run-All-IsIn clock (suc i) set ms (record_skipped m s) old e,
        ))
        (λ e. absurd cc)
        (λ a b c e. (
          run-IsIn clock (suc i) set ms (record_applied clock i m s) m.version (
              ap (λ vs. is_listed m.version vs) (versions-append s.rows _)
              ∙ is_listed-last m.version (versions s.rows)),
          run-All-IsIn clock (suc i) set ms (record_applied clock i m s)
              (λ v h. IsIn-record_applied clock i m s v (old v h)) e,
        ))

  abbrev pub versions_of : List (Migration W) → List String
  versions_of [] = []
  versions_of (m ∷ ms) = m.version ∷ versions_of ms

  run-skipping :
      (clock : ℕ → ℕ) (i : ℕ) (set : List String) (ms : List (Migration W)) (s : Progress W)
      → All (λ m. is_listed m.version set ≡ true) ms
      → run clock i set ms s ≡ (record s { skipped = s.skipped ++ versions_of ms }, true)
  unfolding run
  run-skipping clock i set [] s h =
      ap (λ l. (record s { skipped = l }, true)) (sym (append-nil s.skipped))
  run-skipping clock i set (m ∷ ms) s (a, h) =
      ap
        (λ b.
          by_step b (m.up s.world).1 (is_listed m.version (versions s.rows))
            (run clock (suc i) set ms (record_skipped m s))
            (record s { world = (m.up s.world).0 }, false)
            (run clock (suc i) set ms (record_applied clock i m s)))
        a
      ∙ (run-skipping clock (suc i) set ms (record_skipped m s) h
          ∙ ap (λ l. (record s { skipped = l }, true))
              (append_assoc s.skipped (m.version ∷ []) (versions_of ms)))

  finish_ok :
      (db db' : Database W) (p : Progress W × Bool) (r : List String × List String)
      → finish db p ≡ (db', ok r)
      → p.1 ≡ true × db' ≡ record { world = p.0.world; schema_migrations = p.0.rows }
  unfolding finish
  finish_ok db db' (s, true) r e = (refl, sym (ap (λ q. q.0) e))
  finish_ok db db' (s, false) r e = absurd (let h = ap (λ q. q.1) e in cc)

  -- When a run of the migrations has succeeded, the next run with the lock, whatever the clock, applies
  -- nothing, skips every registered migration, and leaves the database as it is.
  pub migrate_again :
      (clock clock' : ℕ → ℕ) (ms : List (Migration W)) (db db' : Database W)
      (r : List String × List String)
      → migrate true clock ms db ≡ (db', ok r)
      → migrate true clock' ms db' ≡ (db', ok ([], versions_of ms))
  unfolding migrate finish
  migrate_again clock clock' ms db db' r e =
      let p = run clock 0 (versions db.schema_migrations) ms (start db) in
      let (done, same) = finish_ok db db' p r e in
      let all =
        run-All-IsIn clock 0 (versions db.schema_migrations) ms (start db) (λ v h. h) done in
      let all' =
        subst (λ d. All (λ m. is_listed m.version (versions d.schema_migrations) ≡ true) ms)
          (sym same) all in
      ap (λ q. finish db' q)
        (run-skipping clock' 0 (versions db'.schema_migrations) ms (start db') all')
