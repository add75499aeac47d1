-- ===== src/MigrationRunner/Tests.antt =====
-- Runs of two migrations on a database that counts what was done to it.
use c_address_onboarding_bri.Prelude.{
  ℕ, String, true, false, ◌+◌, ◌-◌, List, [], ◌∷◌, ◌≡◌, refl, ap, arith,
}
use c_address_onboarding_bri.Prelude.Result.{ok, err}
use c_address_onboarding_bri.MigrationRunner.{
  Migration, Database, failed, run, finish, migrate, register, rollback, revert_all, revert,
  revert_found, after_down,
}
use c_address_onboarding_bri.MigrationRunner.Migrating.{versions_of, migrate_again}
use c_address_onboarding_bri.MigrationRunner.Failing.{migrate_failing}
use c_address_onboarding_bri.MigrationRunner.Undoing.{empty, rollback-migrate}

abbrev counting : String → ℕ → Migration ℕ
counting version n = record {
  version = version;
  name = "count";
  up = λ w. (w + n, true);
  down = λ w. (w - n, true);
}

abbrev broken : Migration ℕ
broken = record { version = "002"; name = "broken"; up = λ w. (w, false); down = λ w. (w, true) }

undone : (w n : ℕ) → (counting "0" n).down (w + n) ≡ (w, true)
undone w n = ap (λ k. (k, true)) (omega arith)

abbrev registry : List (Migration ℕ)
registry = counting "001" 5 ∷ counting "002" 7 ∷ []

abbrev untouched : Database ℕ
untouched = record { world = 0; schema_migrations = [] }

abbrev migrated : Database ℕ
migrated = record {
  world = 12;
  schema_migrations =
      record { version = "001"; name = "count"; applied_at = 0 }
      ∷ record { version = "002"; name = "count"; applied_at = 1 }
      ∷ [];
}

migrate-registry :
    migrate true (λ i. i) registry untouched ≡ (migrated, ok ("001" ∷ "002" ∷ [], []))
unfolding migrate run finish
migrate-registry = refl

rollback-last : (rollback (λ rs. rs) 1 registry migrated).1 ≡ ok ("002" ∷ [])
unfolding rollback revert_all revert revert_found after_down
rollback-last = refl

register-first : register (λ a b. false) (counting "001" 5) (counting "002" 7 ∷ []) ≡ registry
unfolding register
register-first = refl

migrate_again_example :
    migrate true (λ i. i + 9) registry migrated ≡ (migrated, ok ([], versions_of registry))
migrate_again_example =
    migrate_again (λ i. i) (λ i. i + 9) registry untouched migrated ("001" ∷ "002" ∷ [], [])
      migrate-registry

migrate_failing_example :
    migrate true (λ i. i) (counting "001" 5 ∷ broken ∷ []) untouched
    ≡ (record { world = 5; schema_migrations = [] }, err failed)
migrate_failing_example =
    migrate_failing (λ i. i) (counting "001" 5 ∷ []) broken [] untouched (refl, (refl, tt))
      (refl, tt) refl

rollback-migrate_example :
    rollback (λ rs. rs) 2 registry (migrate true (λ i. i) registry (empty 3)).0
    ≡ (empty 3, ok ("002" ∷ "001" ∷ []))
rollback-migrate_example =
    rollback-migrate (λ rs. rs) (λ i. i) 2 registry 3 (refl, (refl, tt)) (refl, (refl, tt))
      (refl, (refl, tt)) ((λ w. undone w 5), ((λ w. undone w 7), tt)) refl (omega arith)
