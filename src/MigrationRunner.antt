-- ===== src/MigrationRunner.antt =====
-- The runner of database migrations, api/src/migrations/runner.ts. The order of `localeCompare` and that of
-- the database's ORDER BY are parameters; the connection itself does not fail.
pub mod Migrating
pub mod Failing
pub mod Undoing
mod Tests
use c_address_onboarding_bri.Prelude.{
  ℕ, suc, String, Bool, true, false, not, Option, none, some, ◌+◌, if◌then◌else◌, List, [], ◌∷◌,
  ◌++◌, ◌===◌, any, find, take, select, map,
}
use c_address_onboarding_bri.Prelude.Result.{Result, ok, err}

-- `up` and `down` run their statements on connections of their own, and so change the database, less the
-- table of this runner, at once; they tell whether they succeeded.
pub record Migration (W : Type 0) : Type 0 where
  pub version : String
  pub name : String
  pub up : W → W × Bool
  pub down : W → W × Bool

-- A row of `schema_migrations`.
pub record Row : Type 0 where
  pub version : String
  pub name : String
  pub applied_at : ℕ

pub record Database (W : Type 0) : Type 0 where
  pub world : W
  pub schema_migrations : List Row

pub data Failure : Type 0 where
  in_progress failed : Failure

abbrev pub is_listed : String → List String → Bool
is_listed v vs = any (λ u. u === v) vs

abbrev pub versions : List Row → List String
versions [] = []
versions (r ∷ rs) = r.version ∷ versions rs

-- What `migrate` has come to inside its transaction.
pub record Progress (W : Type 0) : Type 0 where
  pub world : W
  pub rows : List Row
  pub applied : List String
  pub skipped : List String

abbrev pub reverse {ℓ} : {A : Type ℓ} → List A → List A
reverse [] = []
reverse (x ∷ xs) = reverse xs ++ x ∷ []

module _ {W : Type 0} where
  -- The sort of `register`: stable, and the list is sorted before.
  unfoldable pub register :
      (String → String → Bool) → Migration W → List (Migration W) → List (Migration W)
  register le m [] = m ∷ []
  register le m (n ∷ ms) = if le n.version m.version then n ∷ register le m ms else m ∷ n ∷ ms

  -- The loop of `migrate`. The primary key refuses a version that has a row.
  unfoldable pub run :
      (ℕ → ℕ) → ℕ → List String → List (Migration W) → Progress W → Progress W × Bool
  run clock i applied_set [] s = (s, true)
  run clock i applied_set (m ∷ ms) s =
      if is_listed m.version applied_set
      then run clock (suc i) applied_set ms (record s { skipped = s.skipped ++ m.version ∷ [] })
      else if not (m.up s.world).1
      then (record s { world = (m.up s.world).0 }, false)
      else if is_listed m.version (versions s.rows)
      then (record s { world = (m.up s.world).0 }, false)
      else run clock (suc i) applied_set ms (record {
        world = (m.up s.world).0;
        rows = s.rows ++ record { version = m.version; name = m.name; applied_at = clock i } ∷ [];
        applied = s.applied ++ m.version ∷ [];
        skipped = s.skipped;
      })

  -- COMMIT, or ROLLBACK of what the runner's own connection wrote.
  unfoldable pub finish :
      Database W → Progress W × Bool → Database W × Result Failure (List String × List String)
  finish db (s, true) =
      (record { world = s.world; schema_migrations = s.rows }, ok (s.applied, s.skipped))
  finish db (s, false) = (record db { world = s.world }, err failed)

  abbrev pub start : Database W → Progress W
  start db = record { world = db.world; rows = db.schema_migrations; applied = []; skipped = [] }

  -- `migrate`; `locked` is whether the advisory lock was free.
  unfoldable pub migrate :
      Bool
      → (ℕ → ℕ)
      → List (Migration W)
      → Database W
      → Database W × Result Failure (List String × List String)
  migrate locked clock ms db =
      if not locked
      then (db, err in_progress)
      else finish db (run clock 0 (versions db.schema_migrations) ms (start db))

  -- What comes after `down` in a round of `rollback`.
  unfoldable pub after_down :
      Migration W → Database W → W × Bool → Database W × Result Failure (List String)
  after_down m db (w, true) = (
    record {
      world = w;
      schema_migrations = select (λ r. not (r.version === m.version)) db.schema_migrations;
    },
    ok (m.version ∷ []),
  )
  after_down m db (w, false) = (record db { world = w }, err failed)

  -- A round, for the migration found in the registry.
  unfoldable pub revert_found :
      Database W → Option (Migration W) → Database W × Result Failure (List String)
  revert_found db none = (db, ok [])
  revert_found db (some m) = after_down m db (m.down db.world)

  -- One round of `rollback`, for a version that `loadApplied` gave.
  unfoldable pub revert :
      List (Migration W) → String → Database W → Database W × Result Failure (List String)
  revert ms v db = revert_found db (find (λ m. m.version === v) ms)

  -- The loop of `rollback`, after a round.
  abbrev pub go_on :
      (Database W → List String → Database W × Result Failure (List String))
      → List String
      → Database W × Result Failure (List String)
      → Database W × Result Failure (List String)
  go_on k reverted (db, ok vs) = k db (reverted ++ vs)
  go_on k reverted (db, err e) = (db, err e)

  unfoldable pub revert_all :
      List (Migration W)
      → List String
      → Database W
      → List String
      → Database W × Result Failure (List String)
  revert_all ms [] db reverted = (db, ok reverted)
  revert_all ms (v ∷ vs) db reverted = go_on (revert_all ms vs) reverted (revert ms v db)

  -- `rollback`; `sort` is ORDER BY version ASC.
  unfoldable pub rollback :
      (List Row → List Row)
      → ℕ
      → List (Migration W)
      → Database W
      → Database W × Result Failure (List String)
  rollback sort steps ms db =
      revert_all ms (take steps (reverse (versions (sort db.schema_migrations)))) db []
