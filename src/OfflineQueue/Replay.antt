-- ===== src/OfflineQueue/Replay.antt =====
-- The loop of `replay` against what it means to do, while requests keep arriving.
use mathlib.Core.List.{append-nil}
use c_address_onboarding_bri.Prelude.{
  ℕ, suc, String, ◌≡◌, refl, ap, ◌+◌, true, false, if◌then◌else◌, leb, List, [], ◌∷◌, ◌++◌, arith,
  any, All, ◌===◌, ===_refl, ===_iff,
}
use c_address_onboarding_bri.OfflineQueue.{
  QueueEntry, OfflineQueue, remove_by_id, set_retries, Attempt, resolves, rejects, conclude,
}

abbrev pub retried : QueueEntry → QueueEntry
retried e = record e { retry_count = e.retry_count + 1 }

-- What a replay keeps of an entry, what it gives up, and what it counts.
abbrev pub kept : ℕ → Attempt → QueueEntry → List QueueEntry
kept limit resolves e = []
kept limit (rejects false) e = []
kept limit (rejects true) e = if leb limit (e.retry_count + 1) then [] else retried e ∷ []

abbrev pub given_up : ℕ → Attempt → QueueEntry → List QueueEntry
given_up limit resolves e = []
given_up limit (rejects false) e = e ∷ []
given_up limit (rejects true) e = if leb limit (e.retry_count + 1) then retried e ∷ [] else []

abbrev pub counted : Attempt → ℕ
counted resolves = 1
counted (rejects r) = 0

-- No entry of the list has the id.
abbrev pub NotIn : String → List QueueEntry → Type 0
NotIn id es = any (λ e. e.id === id) es ≡ false

abbrev pub DistinctIds : List QueueEntry → Type 0
DistinctIds [] = Unit
DistinctIds (e ∷ es) = NotIn e.id es × DistinctIds es

remove_by_id-append :
    (s rest : List QueueEntry) (e : QueueEntry)
    → NotIn e.id s
    → remove_by_id e.id (s ++ e ∷ rest) ≡ s ++ rest
unfolding remove_by_id
remove_by_id-append [] rest e h = ground (arith, ===_refl e.id)
remove_by_id-append (x ∷ s) rest e h = ground (arith, remove_by_id-append s rest e)

set_retries-append :
    (s rest : List QueueEntry) (e : QueueEntry) (n : ℕ)
    → NotIn e.id s
    → set_retries e.id n (s ++ e ∷ rest) ≡ s ++ record e { retry_count = n } ∷ rest
unfolding set_retries
set_retries-append [] rest e n h = ground (arith, ===_refl e.id)
set_retries-append (x ∷ s) rest e n h = ground (arith, set_retries-append s rest e n)

-- One round, on a queue that holds the entry between others.
pub conclude_lem :
    (a : Attempt) (e : QueueEntry) (s rest : List QueueEntry) (q : OfflineQueue) (processed : ℕ)
    → q.queue ≡ s ++ e ∷ rest
    → NotIn e.id s
    → conclude a e (q, processed) ≡ (
      record q {
        queue = s ++ (kept q.max_retries a e ++ rest);
        dead_letters = q.dead_letters ++ given_up q.max_retries a e;
      },
      processed + counted a,
    )
unfolding conclude
conclude_lem resolves e s rest q processed h n =
    ground
      (arith, remove_by_id-append s rest e n, ap (remove_by_id e.id) h, append-nil q.dead_letters)
conclude_lem (rejects false) e s rest q processed h n =
    ground (arith, remove_by_id-append s rest e n, ap (remove_by_id e.id) h)
conclude_lem (rejects true) e s rest q processed h n = ground (
  arith,
  remove_by_id-append s rest e n,
  ap (remove_by_id e.id) h,
  ap (set_retries e.id (e.retry_count + 1)) h,
  set_retries-append s rest e (e.retry_count + 1) n,
  append-nil q.dead_letters,
)

NotIn-append : (id : String) (s t : List QueueEntry) → NotIn id s → NotIn id t → NotIn id (s ++ t)
NotIn-append id [] t h k = k
NotIn-append id (x ∷ s) t h k = ground (arith, NotIn-append id s t)

NotIn-kept :
    (limit : ℕ) (a : Attempt) (e : QueueEntry) (id : String)
    → (e.id === id) ≡ false
    → NotIn id (kept limit a e)
NotIn-kept limit resolves e id h = refl
NotIn-kept limit (rejects false) e id h = refl
NotIn-kept limit (rejects true) e id h = ground arith

pub All-NotIn-kept :
    (limit : ℕ) (a : Attempt) (e : QueueEntry) (s es : List QueueEntry)
    → NotIn e.id es
    → All (λ x. NotIn x.id s) es
    → All (λ x. NotIn x.id (s ++ kept limit a e)) es
All-NotIn-kept limit a e s [] n h = tt
All-NotIn-kept limit a e s (x ∷ es) n (h, hs) =
    let apart : (e.id === x.id) ≡ false = ground (arith, ===_iff e.id x.id, ===_iff x.id e.id) in
    (
      NotIn-append x.id s (kept limit a e) h (NotIn-kept limit a e x.id apart),
      All-NotIn-kept limit a e s es (ground arith) hs,
    )

module _ (attempts : ℕ → Attempt) (limit : ℕ) where
  abbrev pub survivors : ℕ → List QueueEntry → List QueueEntry
  survivors i [] = []
  survivors i (e ∷ es) = kept limit (attempts i) e ++ survivors (suc i) es

  abbrev pub casualties : ℕ → List QueueEntry → List QueueEntry
  casualties i [] = []
  casualties i (e ∷ es) = given_up limit (attempts i) e ++ casualties (suc i) es

  abbrev pub successes : ℕ → List QueueEntry → ℕ
  successes i [] = 0
  successes i (e ∷ es) = counted (attempts i) + successes (suc i) es

-- What arrives during the waits for so many entries.
abbrev pub arrived : (ℕ → List QueueEntry) → ℕ → List QueueEntry → List QueueEntry
arrived arrivals i [] = []
arrived arrivals i (e ∷ es) = arrivals i ++ arrived arrivals (suc i) es
