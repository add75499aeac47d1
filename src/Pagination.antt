-- ===== src/Pagination.antt =====
-- Pages of the SDK, sdk/src/pagination.ts, the class PaginationHelper: following cursors, and fetching
-- pages by their cursors in batches. A call of the fetcher gives a page or is rejected, by its cursor; a
-- signal that is not given and pauses are left out.
pub mod Collected
mod Tests
use mathlib.Core.Option
use c_address_onboarding_bri.Prelude.Result.{Result, ok, err}
use c_address_onboarding_bri.Prelude.{
  ℕ, zero, suc, String, Bool, true, false, Option, none, some, ◌+◌, if◌then◌else◌, ◌===◌, List, [],
  ◌∷◌, ◌++◌, map, take, drop,
}

pub record Page (T : Type 0) : Type 0 where
  pub data_of : List T
  pub next_cursor : Option String

-- What `fetchParallel` does: the batches that it starts, and how it ends, with the pages, or with the first
-- in time of the errors of its last batch.
pub data Fetched (E T : Type 0) : Type 0 where
  fetched : List (Page T) → Fetched E T
  fails_by_one_of : List E → Fetched E T

pub record ParallelRun (E T : Type 0) : Type 0 where
  pub batches : List (List String)
  pub outcome : Fetched E T

module _ {E T : Type 0} (fetcher : Option String → Result E (Page T)) where
  -- The cursor with which `while (cursor && …)` goes on: it is given and not empty.
  abbrev pub goes_on : Option String → Option (Option String)
  goes_on none = none
  goes_on (some c) = if c === "" then none else some (some c)

  abbrev pub next_of : Result E (Page T) → Option String
  next_of (err e) = none
  next_of (ok page) = page.next_cursor

  -- The pages that a generator yields, and the error that ends it, if one does.
  abbrev pub Yielded : Type 0
  Yielded = List (Page T) × Option E

  abbrev pub before : Page T → Option Yielded → Option Yielded
  before page rest = Option.map (λ y. (page ∷ y.0, y.1)) rest

  abbrev pub after_page :
      Result E (Page T) → Option Yielded → Option (Option String) → Option Yielded
  after_page (err e) rest next = some ([], some e)
  after_page (ok page) rest none = some (page ∷ [], none)
  after_page (ok page) rest (some c) = before page rest

  -- `pages`, on fuel; the fetcher is called for each page once.
  unfoldable pub pages : ℕ → Option String → Option Yielded
  pages zero cursor = none
  pages (suc fuel) cursor =
      let page = fetcher cursor in
      let rest = pages fuel (next_of page) in after_page page rest (goes_on (next_of page))

  abbrev pub concat : List (Page T) → List T
  concat [] = []
  concat (p ∷ ps) = p.data_of ++ concat ps

  abbrev pub all_of : Yielded → Result E (List T)
  all_of (ps, none) = ok (concat ps)
  all_of (ps, some e) = err e

  unfoldable pub all : ℕ → Option (Result E (List T))
  all fuel = Option.map all_of (pages fuel none)

  -- `Promise.all` of a batch: the errors, if there is one, or the pages.
  abbrev pub with_answer : Result E (Page T) → Fetched E T → Fetched E T
  with_answer (err e) (fetched ps) = fails_by_one_of (e ∷ [])
  with_answer (err e) (fails_by_one_of es) = fails_by_one_of (e ∷ es)
  with_answer (ok p) (fetched ps) = fetched (p ∷ ps)
  with_answer (ok p) (fails_by_one_of es) = fails_by_one_of es

  unfoldable pub settle_all : List String → Fetched E T
  settle_all [] = fetched []
  settle_all (c ∷ cs) = with_answer (fetcher (some c)) (settle_all cs)

  -- `results.push(...batchResults)`
  abbrev pub prepended : List (Page T) → Fetched E T → Fetched E T
  prepended ps (fetched qs) = fetched (ps ++ qs)
  prepended ps (fails_by_one_of es) = fails_by_one_of es

  abbrev pub then_batch : List String → List (Page T) → ParallelRun E T → ParallelRun E T
  then_batch batch ps r = record { batches = batch ∷ r.batches; outcome = prepended ps r.outcome }

  abbrev pub after_batch :
      List String → Fetched E T → Option (ParallelRun E T) → Option (ParallelRun E T)
  after_batch batch (fails_by_one_of es) rest =
      some (record { batches = batch ∷ []; outcome = fails_by_one_of es })
  after_batch batch (fetched ps) rest = Option.map (then_batch batch ps) rest

  abbrev pub unless_done : List String → Option (ParallelRun E T) → Option (ParallelRun E T)
  unless_done [] run = some (record { batches = []; outcome = fetched [] })
  unless_done (c ∷ cs) run = run

  -- `fetchParallel`, on fuel: `i` goes up by the concurrency, so the cursors that are left are dropped.
  unfoldable pub fetch_parallel : ℕ → ℕ → List String → Option (ParallelRun E T)
  fetch_parallel zero concurrency cursors = none
  fetch_parallel (suc fuel) concurrency cursors =
      let rest = fetch_parallel fuel concurrency (drop concurrency cursors) in
      let batch = take concurrency cursors in
      unless_done cursors (after_batch batch (settle_all batch) rest)
