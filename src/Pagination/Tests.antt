-- ===== src/Pagination/Tests.antt =====
-- Pages at concrete fetchers.
use c_address_onboarding_bri.Prelude.{
  ℕ, String, Option, some, none, ◌≡◌, refl, arith, [], ◌∷◌, ◌===◌, if◌then◌else◌,
}
use c_address_onboarding_bri.Prelude.Result.{Result, ok, err}
use c_address_onboarding_bri.Pagination.{
  Page, ParallelRun, fails_by_one_of, pages, all, settle_all, fetch_parallel,
}
use c_address_onboarding_bri.Pagination.Collected.{fetch_parallel_lem, Ends}

abbrev first : Page ℕ
first = record { data_of = 1 ∷ 2 ∷ []; next_cursor = some "a" }

abbrev second : Page ℕ
second = record { data_of = 3 ∷ []; next_cursor = none }

-- The cursor "x" is rejected.
abbrev fetcher : Option String → Result String (Page ℕ)
fetcher none = ok first
fetcher (some c) = if c === "x" then err "rejected" else ok second

all_three : all fetcher 2 ≡ some (ok (1 ∷ 2 ∷ 3 ∷ []))
unfolding all pages
all_three = refl

second_batch_fails :
    fetch_parallel fetcher 5 2 ("a" ∷ "b" ∷ "x" ∷ "c" ∷ "d" ∷ [])
    ≡ some (record {
      batches = ("a" ∷ "b" ∷ []) ∷ ("x" ∷ "c" ∷ []) ∷ [];
      outcome = fails_by_one_of ("rejected" ∷ []);
    })
unfolding fetch_parallel settle_all
second_batch_fails = refl

fetch_parallel_lem_example :
    (r : ParallelRun String ℕ) × (fetch_parallel fetcher 4 2 ("a" ∷ "b" ∷ "x" ∷ []) ≡ some r)
    × Ends fetcher 2 ("a" ∷ "b" ∷ "x" ∷ []) r
fetch_parallel_lem_example = fetch_parallel_lem fetcher 3 1 ("a" ∷ "b" ∷ "x" ∷ []) (omega arith)
