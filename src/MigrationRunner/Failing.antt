-- ===== src/MigrationRunner/Failing.antt =====
-- A run of `migrate` (api/src/migrations/runner.ts) in which a migration fails after others.
use c_address_onboarding_bri.Prelude.{
  ℕ, suc, String, Bool, true, false, List, [], ◌∷◌, ◌++◌, ◌≡◌, sym, ap, ◌∙◌, subst, Bool-cases, inl,
  inr,
}
use c_address_onboarding_bri.Prelude.Result.{err}
use c_address_onboarding_bri.MigrationRunner.{
  Migration, Database, failed, is_listed, versions, Progress, run, finish, start, migrate,
}
use c_address_onboarding_bri.MigrationRunner.Migrating.{
  record_applied, record_skipped, by_step, versions-append, IsIn, IsIn-record_applied,
}

module _ {W : Type 0} where
  -- The versions are not in a list, and no two are the same.
  abbrev pub AreNew : List String → List (Migration W) → Type 0
  AreNew seen [] = Unit
  AreNew seen (m ∷ ms) = is_listed m.version seen ≡ false × AreNew (seen ++ m.version ∷ []) ms

  abbrev pub AllSucceed : List (Migration W) → W → Type 0
  AllSucceed [] w = Unit
  AllSucceed (m ∷ ms) w = (m.up w).1 ≡ true × AllSucceed ms (m.up w).0

  -- What the migrations make of the database, one after the other.
  abbrev pub ups : List (Migration W) → W → W
  ups [] w = w
  ups (m ∷ ms) w = ups ms (m.up w).0

  pub run-next :
      (clock : ℕ → ℕ) (i : ℕ) (set : List String) (m : Migration W) (ms : List (Migration W))
      (s : Progress W)
      → is_listed m.version set ≡ false
      → (m.up s.world).1 ≡ true
      → is_listed m.version (versions s.rows) ≡ false
      → run clock i set (m ∷ ms) s ≡ run clock (suc i) set ms (record_applied clock i m s)
  unfolding run
  run-next clock i set m ms s a b c =
      let skip = run clock (suc i) set ms (record_skipped m s) in
      let stop : Progress W × Bool = (record s { world = (m.up s.world).0 }, false) in
      let next = run clock (suc i) set ms (record_applied clock i m s) in
      ap (λ x. by_step x (m.up s.world).1 (is_listed m.version (versions s.rows)) skip stop next) a
      ∙ (ap (λ x. by_step false x (is_listed m.version (versions s.rows)) skip stop next) b
          ∙ ap (λ x. by_step false true x skip stop next) c)

  run-stop :
      (clock : ℕ → ℕ) (i : ℕ) (set : List String) (m : Migration W) (ms : List (Migration W))
      (s : Progress W)
      → is_listed m.version set ≡ false
      → (m.up s.world).1 ≡ false
      → run clock i set (m ∷ ms) s ≡ (record s { world = (m.up s.world).0 }, false)
  unfolding run
  run-stop clock i set m ms s a b =
      let skip = run clock (suc i) set ms (record_skipped m s) in
      let stop : Progress W × Bool = (record s { world = (m.up s.world).0 }, false) in
      let next = run clock (suc i) set ms (record_applied clock i m s) in
      ap (λ x. by_step x (m.up s.world).1 (is_listed m.version (versions s.rows)) skip stop next) a
      ∙ ap (λ x. by_step false x (is_listed m.version (versions s.rows)) skip stop next) b

  -- A version without a row is not in the set either.
  pub not_in_set :
      (set : List String) (s : Progress W) (v : String)
      → ((u : String) → is_listed u set ≡ true → IsIn u s)
      → is_listed v (versions s.rows) ≡ false
      → is_listed v set ≡ false
  not_in_set set s v old new = elim (Bool-cases (is_listed v set)) [
    | inr f ↦ f
    | inl t ↦ let h = old v t in absurd cc
  ]

  run-failing :
      (clock : ℕ → ℕ) (i : ℕ) (set : List String) (before : List (Migration W)) (m : Migration W)
      (after : List (Migration W)) (s : Progress W)
      → ((u : String) → is_listed u set ≡ true → IsIn u s)
      → AreNew (versions s.rows) (before ++ m ∷ after)
      → AllSucceed before s.world
      → (m.up (ups before s.world)).1 ≡ false
      → (run clock i set (before ++ m ∷ after) s).1 ≡ false
        × (run clock i set (before ++ m ∷ after) s).0.world ≡ (m.up (ups before s.world)).0
  run-failing clock i set [] m after s old (new, rest) succeed fails =
      let e = run-stop clock i set m after s (not_in_set set s m.version old new) fails in
      (ap (λ r. r.1) e, ap (λ r. r.0.world) e)
  run-failing clock i set (n ∷ before) m after s old (new, rest) (done, succeed) fails =
      let e =
        run-next clock i set n (before ++ m ∷ after) s (not_in_set set s n.version old new) done
          new in
      let rest' =
        subst (λ vs. AreNew vs (before ++ m ∷ after)) (sym (versions-append s.rows _)) rest in
      let (a, b) =
        run-failing clock (suc i) set before m after (record_applied clock i n s)
          (λ u h. IsIn-record_applied clock i n s u (old u h)) rest' succeed fails in
      (ap (λ r. r.1) e ∙ a, ap (λ r. r.0.world) e ∙ b)

  finish_failed :
      (db : Database W) (p : Progress W × Bool) (w : W)
      → p.1 ≡ false
      → p.0.world ≡ w
      → finish db p ≡ (record db { world = w }, err failed)
  unfolding finish
  finish_failed db (s, true) w a b = absurd cc
  finish_failed db (s, false) w a b = ap (λ v. (record db { world = v }, err failed)) b

  -- When migrations that have no rows yet succeed and a further one fails, the run fails and leaves no row
  -- of any of them, but what they and the failed one did to the database stays.
  pub migrate_failing :
      (clock : ℕ → ℕ) (before : List (Migration W)) (m : Migration W) (after : List (Migration W))
      (db : Database W)
      → AreNew (versions db.schema_migrations) (before ++ m ∷ after)
      → AllSucceed before db.world
      → (m.up (ups before db.world)).1 ≡ false
      → migrate true clock (before ++ m ∷ after) db
        ≡ (record db { world = (m.up (ups before db.world)).0 }, err failed)
  unfolding migrate
  migrate_failing clock before m after db new succeed fails =
      let set = versions db.schema_migrations in
      let (a, b) = run-failing clock 0 set before m after (start db) (λ u h. h) new succeed fails in
      finish_failed db (run clock 0 set (before ++ m ∷ after) (start db)) _ a b
