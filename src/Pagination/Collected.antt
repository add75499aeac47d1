-- ===== src/Pagination/Collected.antt =====
-- All pages are collected, and batches fetch what one would fetch one by one.
use mathlib.Core.Option
use mathlib.Core.List.{append_assoc}
use c_address_onboarding_bri.Prelude.{
  ℕ, zero, suc, String, Option, none, some, ◌≡◌, ◌≢◌, refl, ap, ◌∙◌, subst, ◌≤◌, List, [], ◌∷◌,
  ◌++◌, take, drop, length, length-drop, arith, All,
}
use c_address_onboarding_bri.Prelude.Result.{Result, ok, err}
use c_address_onboarding_bri.Pagination.{
  Page, Fetched, fetched, fails_by_one_of, ParallelRun, goes_on, before, after_page, pages, concat,
  all_of, all, with_answer, settle_all, prepended, then_batch, after_batch, next_of, fetch_parallel,
}

module _ {E T : Type 0} (fetcher : Option String → Result E (Page T)) where
  take-drop : {A : Type 0} (n : ℕ) (xs : List A) → take n xs ++ drop n xs ≡ xs
  take-drop zero xs = refl
  take-drop (suc n) [] = refl
  take-drop (suc n) (x ∷ xs) = ap (λ l. x ∷ l) (take-drop n xs)

  length-take : {A : Type 0} (n : ℕ) (xs : List A) → length (take n xs) ≤ n
  length-take zero xs = omega arith
  length-take (suc n) [] = omega arith
  length-take (suc n) (x ∷ xs) = omega (arith, length-take n xs)

  -- The fetcher gives these pages for these cursors.
  abbrev pub AreAnswered : List String → List (Page T) → Type 0
  AreAnswered [] [] = Unit
  AreAnswered [] (p ∷ ps) = ⊥
  AreAnswered (c ∷ cs) [] = ⊥
  AreAnswered (c ∷ cs) (p ∷ ps) = (fetcher (some c) ≡ ok p) × AreAnswered cs ps

  -- The errors with which the fetcher rejects cursors, in the order of the cursors.
  abbrev error_of : Result E (Page T) → List E → List E
  error_of (err e) es = e ∷ es
  error_of (ok p) es = es

  abbrev pub errors : List String → List E
  errors [] = []
  errors (c ∷ cs) = error_of (fetcher (some c)) (errors cs)

  abbrev pub flat : List (List String) → List String
  flat [] = []
  flat (b ∷ bs) = b ++ flat bs

  -- How a call for cursors ends with its batches: all of them were answered with these pages, in order;
  -- or those of the first batches were, and some of the last batch were rejected, with these errors.
  abbrev pub EndsBy : List String → List (List String) → Fetched E T → Type 0
  EndsBy cursors batches (fetched ps) = (flat batches ≡ cursors) × AreAnswered cursors ps
  EndsBy cursors batches (fails_by_one_of es) =
      (done : List (List String)) × (last : List String) × (left : List String) × (ps : List
        (Page T))
      × (batches ≡ done ++ last ∷ [])
      × (flat done ++ (last ++ left) ≡ cursors)
      × AreAnswered (flat done) ps
      × (errors last ≡ es)
      × (es ≢ [])

  AreAnswered-append :
      (cs ds : List String) (ps qs : List (Page T))
      → AreAnswered cs ps
      → AreAnswered ds qs
      → AreAnswered (cs ++ ds) (ps ++ qs)
  AreAnswered-append [] ds [] qs a b = b
  AreAnswered-append [] ds (p ∷ ps) qs a b = absurd a
  AreAnswered-append (c ∷ cs) ds [] qs a b = absurd a
  AreAnswered-append (c ∷ cs) ds (p ∷ ps) qs (e, a) b = (e, AreAnswered-append cs ds ps qs a b)

  -- What a batch comes to.
  abbrev Settled : List String → Fetched E T → Type 0
  Settled batch (fetched ps) = AreAnswered batch ps × (errors batch ≡ [])
  Settled batch (fails_by_one_of es) = (errors batch ≡ es) × (es ≢ [])

  settle_all-Settled : (batch : List String) → Settled batch (settle_all fetcher batch)
  unfolding settle_all
  settle_all-Settled [] = (tt, refl)
  settle_all-Settled (c ∷ cs) =
      by (fetcher (some c)) (settle_all fetcher cs) refl (settle_all-Settled cs)
    where
      by :
          (a : Result E (Page T)) (f : Fetched E T)
          → fetcher (some c) ≡ a
          → Settled cs f
          → Settled (c ∷ cs) (with_answer fetcher a f)
      by (ok p) (fetched ps) e (s, n) = ((e, s), ap (λ x. error_of x (errors cs)) e ∙ n)
      by (ok p) (fails_by_one_of es) e (s, n) = (ap (λ x. error_of x (errors cs)) e ∙ s, n)
      by (err x) (fetched ps) e (s, n) =
          (ap (λ y. error_of y (errors cs)) e ∙ ap (λ l. x ∷ l) n, λ q. cc)
      by (err x) (fails_by_one_of es) e (s, n) =
          (ap (λ y. error_of y (errors cs)) e ∙ ap (λ l. x ∷ l) s, λ q. cc)

  prepended-EndsBy :
      (batch rest : List String) (batches : List (List String)) (ps : List (Page T))
      (f : Fetched E T)
      → AreAnswered batch ps
      → EndsBy rest batches f
      → EndsBy (batch ++ rest) (batch ∷ batches) (prepended fetcher ps f)
  prepended-EndsBy batch rest batches ps (fetched qs) a (e, b) =
      (ap (λ l. batch ++ l) e, AreAnswered-append batch rest ps qs a b)
  prepended-EndsBy batch rest batches ps (fails_by_one_of es) a
        (done, last, left, qs, b, e, g, h, n) =
      (
        batch ∷ done,
        last,
        left,
        ps ++ qs,
        ap (λ l. batch ∷ l) b,
        append_assoc batch (flat done) (last ++ left) ∙ ap (λ l. batch ++ l) e,
        AreAnswered-append batch (flat done) ps qs a g,
        h,
        n,
      )

  -- A call with batches of at most k cursors has ended.
  abbrev pub Ends : ℕ → List String → ParallelRun E T → Type 0
  Ends k cursors run = All (λ b. length b ≤ k) run.batches × EndsBy cursors run.batches run.outcome

  after_batch-Ends :
      (k : ℕ) (batch rest : List String) (f : Fetched E T) (run : ParallelRun E T)
      → length batch ≤ k
      → Settled batch f
      → Ends k rest run
      → (r : ParallelRun E T) × (after_batch fetcher batch f (some run) ≡ some r)
        × Ends k (batch ++ rest) r
  after_batch-Ends k batch rest (fetched ps) run l (a, n) (small, ends) = (
    then_batch fetcher batch ps run,
    refl,
    ((l, small), prepended-EndsBy batch rest run.batches ps run.outcome a ends),
  )
  after_batch-Ends k batch rest (fails_by_one_of es) run l (e, n) ends = (
    record { batches = batch ∷ []; outcome = fails_by_one_of es },
    refl,
    ((l, tt), ([], batch, rest, [], refl, refl, tt, e, n)),
  )

  -- With a concurrency that is not 0, a call that fetches pages in batches ends, whatever is rejected: no
  -- batch is larger than the concurrency; and either each cursor is fetched, in order, and gives the page
  -- of its place, or the batches up to one are fetched, of which all but the last give pages, and the call
  -- fails by one of the errors of the last.
  pub fetch_parallel_lem :
      (fuel k : ℕ) (cursors : List String)
      → length cursors ≤ fuel
      → (r : ParallelRun E T) × (fetch_parallel fetcher (suc fuel) (suc k) cursors ≡ some r)
        × Ends (suc k) cursors r
  unfolding fetch_parallel
  fetch_parallel_lem fuel k [] h =
      (record { batches = []; outcome = fetched [] }, refl, (tt, (refl, tt)))
  fetch_parallel_lem zero k (c ∷ cs) h = absurd (omega (arith, h))
  fetch_parallel_lem (suc fuel) k (c ∷ cs) h =
      let (run, e, ends) =
        fetch_parallel_lem fuel k (drop k cs) (omega (arith, length-drop k cs, h)) in
      let batch = c ∷ take k cs in
      let (r, q, ends') =
        after_batch-Ends (suc k) batch (drop k cs) (settle_all fetcher batch) run
          (omega (arith, length-take k cs)) (settle_all-Settled batch) ends in
      (
        r,
        ap (after_batch fetcher batch (settle_all fetcher batch)) e ∙ q,
        subst (λ l. Ends (suc k) (c ∷ l) r) (take-drop k cs) ends',
      )

  -- The fetcher serves these pages one after the other: each but the last names the next by a cursor
  -- that is not empty.
  abbrev pub Serves : Option String → Page T → List (Page T) → Type 0
  Serves cursor p [] = (fetcher cursor ≡ ok p) × (goes_on fetcher p.next_cursor ≡ none)
  Serves cursor p (q ∷ qs) =
      (fetcher cursor ≡ ok p)
      × ((c : String) × (goes_on fetcher p.next_cursor ≡ some (some c))
          × (p.next_cursor ≡ some c)
          × Serves (some c) q qs)

  pages-Serves :
      (fuel : ℕ) (cursor : Option String) (p : Page T) (ps : List (Page T))
      → length ps ≤ fuel
      → Serves cursor p ps
      → pages fetcher (suc fuel) cursor ≡ some (p ∷ ps, none)
  unfolding pages
  pages-Serves fuel cursor p [] h (e, n) =
      ap
        (λ q.
          after_page fetcher q (pages fetcher fuel (next_of fetcher q))
            (goes_on fetcher (next_of fetcher q)))
        e
      ∙ ap (after_page fetcher (ok p) (pages fetcher fuel p.next_cursor)) n
  pages-Serves zero cursor p (q ∷ qs) h s = absurd (omega (arith, h))
  pages-Serves (suc fuel) cursor p (q ∷ qs) h (e, (c, g, n, s)) =
      ap
        (λ r.
          after_page fetcher r (pages fetcher (suc fuel) (next_of fetcher r))
            (goes_on fetcher (next_of fetcher r)))
        e
      ∙ ap (after_page fetcher (ok p) (pages fetcher (suc fuel) p.next_cursor)) g
      ∙ ap (λ d. before fetcher p (pages fetcher (suc fuel) d)) n
      ∙ ap (before fetcher p) (pages-Serves fuel (some c) q qs (omega (arith, h)) s)

  -- If the fetcher serves pages one after the other, from none as the first cursor, collecting ends and
  -- gives the data of all of them, in order, with one call of the fetcher for each.
  pub all-Serves :
      (p : Page T) (ps : List (Page T))
      → Serves none p ps
      → all fetcher (suc (length ps)) ≡ some (ok (concat fetcher (p ∷ ps)))
  unfolding all
  all-Serves p ps s =
      ap (Option.map (all_of fetcher)) (pages-Serves (length ps) none p ps (omega arith) s)
