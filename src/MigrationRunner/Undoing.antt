-- ===== src/MigrationRunner/Undoing.antt =====
-- `rollback` (api/src/migrations/runner.ts) after `migrate` on a new database.
use c_address_onboarding_bri.Prelude.{
  ℕ, zero, suc, String, true, false, not, some, if◌then◌else◌, List, [], ◌∷◌, ◌++◌, ◌===◌, ===_refl,
  ◌≡◌, ◌≤◌, refl, sym, ap, ◌∙◌, subst, arith, All, find, select, take, length, length-append,
}
use mathlib.Core.List.{append_assoc, append-nil}
use c_address_onboarding_bri.Prelude.Result.{Result, ok, err}
use c_address_onboarding_bri.MigrationRunner.{
  Migration, Row, Database, Failure, is_listed, versions, Progress, run, finish, start, migrate,
  reverse, revert, revert_found, after_down, go_on, revert_all, rollback,
}
use c_address_onboarding_bri.MigrationRunner.Migrating.{
  record_applied, versions-append, versions_of, IsIn, IsIn-record_applied,
}
use c_address_onboarding_bri.MigrationRunner.Failing.{AreNew, AllSucceed, ups, run-next, not_in_set}

take-all : (n : ℕ) (vs : List String) → length vs ≤ n → take n vs ≡ vs
take-all zero [] h = refl
take-all (suc n) [] h = refl
take-all zero (v ∷ vs) h = absurd (omega arith)
take-all (suc n) (v ∷ vs) h = ap (λ l. v ∷ l) (take-all n vs (omega arith))

length-reverse : (vs : List String) → length (reverse vs) ≡ length vs
length-reverse [] = refl
length-reverse (v ∷ vs) = omega (arith, length-append (reverse vs) (v ∷ []), length-reverse vs)

-- The rows less those of a version that only the last one has.
select-last :
    (rs : List Row) (r : Row)
    → is_listed r.version (versions rs) ≡ false
    → select (λ x. not (x.version === r.version)) (rs ++ r ∷ []) ≡ rs
select-last [] r h = let e = ===_refl r.version in ground arith
select-last (x ∷ rs) r h =
    let others = select (λ y. not (y.version === r.version)) (rs ++ r ∷ []) in
    let f : (x.version === r.version) ≡ false = ground arith in
    let g : is_listed r.version (versions rs) ≡ false = ground arith in
    ap (λ b. if not b then x ∷ others else others) f ∙ ap (λ l. x ∷ l) (select-last rs r g)

module _ {W : Type 0} where
  abbrev row : (ℕ → ℕ) → ℕ → Migration W → Row
  row clock i m = record { version = m.version; name = m.name; applied_at = clock i }

  abbrev rows_of : (ℕ → ℕ) → ℕ → List (Migration W) → List Row
  rows_of clock i [] = []
  rows_of clock i (m ∷ ms) = row clock i m ∷ rows_of clock (suc i) ms

  -- A run of new migrations that succeed.
  run-AreNew :
      (clock : ℕ → ℕ) (i : ℕ) (set : List String) (ms : List (Migration W)) (s : Progress W)
      → ((u : String) → is_listed u set ≡ true → IsIn u s)
      → AreNew (versions s.rows) ms
      → AllSucceed ms s.world
      → run clock i set ms s ≡ (
        record {
          world = ups ms s.world;
          rows = s.rows ++ rows_of clock i ms;
          applied = s.applied ++ versions_of ms;
          skipped = s.skipped;
        },
        true,
      )
  unfolding run
  run-AreNew clock i set [] s old new succeed = sym (
      ap (λ l. (record s { rows = l; applied = s.applied ++ [] }, true)) (append-nil s.rows)
      ∙ ap (λ l. (record s { applied = l }, true)) (append-nil s.applied))
  run-AreNew clock i set (m ∷ ms) s old (new, rest) (done, succeed) =
      run-next clock i set m ms s (not_in_set set s m.version old new) done new
      ∙ (run-AreNew clock (suc i) set ms (record_applied clock i m s)
            (λ u h. IsIn-record_applied clock i m s u (old u h))
            (subst (λ vs. AreNew vs ms) (sym (versions-append s.rows _)) rest) succeed
          ∙ (ap
                (λ l. (
                  record s {
                    world = ups ms (m.up s.world).0;
                    rows = l;
                    applied = s.applied ++ m.version ∷ [] ++ versions_of ms;
                  },
                  true,
                ))
                (append_assoc s.rows (row clock i m ∷ []) (rows_of clock (suc i) ms))
              ∙ ap
                  (λ l. (
                    record s {
                      world = ups ms (m.up s.world).0;
                      rows = s.rows ++ row clock i m ∷ rows_of clock (suc i) ms;
                      applied = l;
                    },
                    true,
                  ))
                  (append_assoc s.applied (m.version ∷ []) (versions_of ms))))

  abbrev pub Inverts : Migration W → Type 0
  Inverts m = (w : W) → m.down (m.up w).0 ≡ (w, true)

  revert-last :
      (registry : List (Migration W)) (m : Migration W) (clock : ℕ → ℕ) (i : ℕ) (w : W)
      (rs : List Row)
      → find (λ n. n.version === m.version) registry ≡ some m
      → Inverts m
      → is_listed m.version (versions rs) ≡ false
      → revert registry m.version
          (record { world = (m.up w).0; schema_migrations = rs ++ row clock i m ∷ [] })
        ≡ (record { world = w; schema_migrations = rs }, ok (m.version ∷ []))
  unfolding revert revert_found after_down
  revert-last registry m clock i w rs found inverts new =
      let db : Database W = record {
        world = (m.up w).0;
        schema_migrations = rs ++ row clock i m ∷ [];
      } in
      ap (λ o. revert_found db o) found
      ∙ (ap (λ q. after_down m db q) (inverts w)
          ∙ ap (λ l. (record { world = w; schema_migrations = l }, ok (m.version ∷ [])))
              (select-last rs (row clock i m) new))

  go_on-ok :
      (k l : Database W → List String → Database W × Result Failure (List String))
      (done : List String) (q : Database W × Result Failure (List String))
      (r : Database W × Result Failure (List String)) (db' : Database W) (all : List String)
      → ((d : Database W) (x : List String) → k d x ≡ (db', ok all) → l d x ≡ r)
      → go_on k done q ≡ (db', ok all)
      → go_on l done q ≡ r
  go_on-ok k l done (d, ok x) r db' all f e = f d (done ++ x) e
  go_on-ok k l done (d, err x) r db' all f e = absurd (let h = ap (λ q. q.1) e in cc)

  -- The rounds over versions one after the other.
  revert_all-append :
      (registry : List (Migration W)) (us vs : List String) (db db' : Database W)
      (done all : List String)
      → revert_all registry us db done ≡ (db', ok all)
      → revert_all registry (us ++ vs) db done ≡ revert_all registry vs db' all
  unfolding revert_all
  revert_all-append registry [] vs db db' done all e =
      let h = ap (λ q. q.1) e in
      let same : done ≡ all = cc in
      ap (λ d. revert_all registry vs d done) (ap (λ q. q.0) e)
      ∙ ap (λ x. revert_all registry vs db' x) same
  revert_all-append registry (u ∷ us) vs db db' done all e =
      go_on-ok (revert_all registry us) (revert_all registry (us ++ vs)) done (revert registry u db)
        (revert_all registry vs db' all) db' all
        (λ d x h. revert_all-append registry us vs d db' x all h) e

  revert_all-rows_of :
      (registry : List (Migration W)) (clock : ℕ → ℕ) (i : ℕ) (ms : List (Migration W)) (w : W)
      (rs : List Row) (done : List String)
      → All (λ m. find (λ n. n.version === m.version) registry ≡ some m) ms
      → All Inverts ms
      → AreNew (versions rs) ms
      → revert_all registry
          (reverse (versions_of ms))
          (record { world = ups ms w; schema_migrations = rs ++ rows_of clock i ms })
          done
        ≡ (record { world = w; schema_migrations = rs }, ok (done ++ reverse (versions_of ms)))
  unfolding revert_all
  revert_all-rows_of registry clock i [] w rs done found inverts new =
      ap (λ l. (record { world = w; schema_migrations = l }, ok done)) (append-nil rs)
      ∙ ap (λ l. (record { world = w; schema_migrations = rs }, ok l)) (sym (append-nil done))
  revert_all-rows_of registry clock i (m ∷ ms) w rs done (f, found) (v, inverts) (n, new) =
      let before = reverse (versions_of ms) in
      let left : Database W = record {
        world = (m.up w).0;
        schema_migrations = rs ++ row clock i m ∷ [];
      } in
      let rest =
        revert_all-rows_of registry clock (suc i) ms (m.up w).0 (rs ++ row clock i m ∷ []) done
          found inverts (subst (λ vs. AreNew vs ms) (sym (versions-append rs _)) new) in
      ap
        (λ l.
          revert_all registry (before ++ m.version ∷ [])
            (record { world = ups ms (m.up w).0; schema_migrations = l }) done)
        (sym (append_assoc rs (row clock i m ∷ []) (rows_of clock (suc i) ms)))
      ∙ (revert_all-append registry before (m.version ∷ []) _ left done (done ++ before) rest
          ∙ (ap (λ q. go_on (revert_all registry []) (done ++ before) q)
                (revert-last registry m clock i w rs f v n)
              ∙ ap (λ l. (record { world = w; schema_migrations = rs }, ok l))
                  (append_assoc done before (m.version ∷ []))))

  abbrev pub empty : W → Database W
  empty w = record { world = w; schema_migrations = [] }

  versions-rows_of :
      (clock : ℕ → ℕ) (i : ℕ) (ms : List (Migration W))
      → versions (rows_of clock i ms) ≡ versions_of ms
  versions-rows_of clock i [] = refl
  versions-rows_of clock i (m ∷ ms) = ap (λ vs. m.version ∷ vs) (versions-rows_of clock (suc i) ms)

  length-versions_of : (ms : List (Migration W)) → length (versions_of ms) ≡ length ms
  length-versions_of [] = refl
  length-versions_of (m ∷ ms) = ap (λ n. suc n) (length-versions_of ms)

  migrate-AreNew :
      (clock : ℕ → ℕ) (ms : List (Migration W)) (w : W)
      → AreNew [] ms
      → AllSucceed ms w
      → (migrate true clock ms (empty w)).0
        ≡ record { world = ups ms w; schema_migrations = rows_of clock 0 ms }
  unfolding migrate finish
  migrate-AreNew clock ms w new succeed =
      ap (λ p. (finish (empty w) p).0)
        (run-AreNew clock 0 [] ms (start (empty w)) (λ u h. h) new succeed)

  -- On a database without rows, if the registered migrations have different versions and all succeed, if
  -- the down of each undoes its up, and if the rows made are in the database's order of versions, then a
  -- rollback of as many steps as there are migrations, or more, after the run gives back the database as it
  -- was, and reverts all of them, the last first.
  pub rollback-migrate :
      (sort : List Row → List Row) (clock : ℕ → ℕ) (steps : ℕ) (ms : List (Migration W)) (w : W)
      → AreNew [] ms
      → AllSucceed ms w
      → All (λ m. find (λ n. n.version === m.version) ms ≡ some m) ms
      → All Inverts ms
      → sort (migrate true clock ms (empty w)).0.schema_migrations
        ≡ (migrate true clock ms (empty w)).0.schema_migrations
      → length ms ≤ steps
      → rollback sort steps ms (migrate true clock ms (empty w)).0
        ≡ (empty w, ok (reverse (versions_of ms)))
  unfolding rollback
  rollback-migrate sort clock steps ms w new succeed found inverts sorted enough =
      let db : Database W = record { world = ups ms w; schema_migrations = rows_of clock 0 ms } in
      let e : (migrate true clock ms (empty w)).0 ≡ db = migrate-AreNew clock ms w new succeed in
      let sorted' : sort db.schema_migrations ≡ db.schema_migrations =
        subst (λ d. sort d.schema_migrations ≡ d.schema_migrations) e sorted in
      let listed : versions (sort db.schema_migrations) ≡ versions_of ms =
        ap (λ rs. versions rs) sorted' ∙ versions-rows_of clock 0 ms in
      let taken : take steps (reverse (versions_of ms)) ≡ reverse (versions_of ms) =
        take-all steps (reverse (versions_of ms))
          (omega (arith, length-reverse (versions_of ms), length-versions_of ms)) in
      ap (λ d. rollback sort steps ms d) e
      ∙ (ap (λ vs. revert_all ms (take steps (reverse vs)) db []) listed
          ∙ (ap (λ vs. revert_all ms vs db []) taken
              ∙ revert_all-rows_of ms clock 0 ms w [] [] found inverts new))
