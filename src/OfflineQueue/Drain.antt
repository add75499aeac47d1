-- ===== src/OfflineQueue/Drain.antt =====
-- `replay`: the loop over the snapshot against what it means to do, while requests keep arriving.
use mathlib.Core.List.{append-nil, append_assoc}
use native.Mathlib.Nat.{add_assoc}
use c_address_onboarding_bri.Prelude.{
  ℕ, suc, ◌≡◌, refl, sym, ◌∙◌, ap, subst, ◌<◌, ◌+◌, Bool, true, false, Option, none, some,
  if◌then◌else◌, leb, List, [], ◌∷◌, ◌++◌, arith, All,
}
use c_address_onboarding_bri.OfflineQueue.{
  QueueEntry, OfflineQueue, Attempt, resolves, rejects, conclude, replay_loop, replay, persist,
}
use c_address_onboarding_bri.OfflineQueue.Replay.{
  kept, given_up, counted, NotIn, DistinctIds, conclude_lem, All-NotIn-kept, survivors, casualties,
  successes, arrived,
}

-- Still to be retried: below the limit on retries.
abbrev pub AreRetryable : ℕ → List QueueEntry → Type 0
AreRetryable limit = All (λ e. e.retry_count < limit)

AreRetryable-append :
    (limit : ℕ) (s t : List QueueEntry)
    → AreRetryable limit s
    → AreRetryable limit t
    → AreRetryable limit (s ++ t)
AreRetryable-append limit [] t h k = k
AreRetryable-append limit (e ∷ s) t (h, hs) k = (h, AreRetryable-append limit s t hs k)

AreRetryable-kept : (limit : ℕ) (a : Attempt) (e : QueueEntry) → AreRetryable limit (kept limit a e)
AreRetryable-kept limit resolves e = tt
AreRetryable-kept limit (rejects false) e = tt
AreRetryable-kept limit (rejects true) e = ground arith

abbrev finished : OfflineQueue → List QueueEntry → List QueueEntry → ℕ → OfflineQueue × ℕ
finished q queue dead n = (record q { queue = queue; dead_letters = dead }, n)

module _ (attempts : ℕ → Attempt) (arrivals : ℕ → List QueueEntry) where
  replay_loop_lem :
      (i : ℕ) (es s a : List QueueEntry) (q : OfflineQueue) (n : ℕ)
      → q.queue ≡ s ++ (es ++ a)
      → All (λ e. NotIn e.id s) es
      → DistinctIds es
      → replay_loop attempts arrivals i es (q, n)
        ≡ finished q
            ((s ++ survivors attempts q.max_retries i es) ++ (a ++ arrived arrivals i es))
            (q.dead_letters ++ casualties attempts q.max_retries i es)
            (n + successes attempts q.max_retries i es)
  unfolding replay_loop
  replay_loop_lem i [] s a q n h f d =
      ground (arith, append-nil s, append-nil a, append-nil q.dead_letters)
  replay_loop_lem i (e ∷ es) s a q n h (f, fs) (u, d) =
      ap (replay_loop attempts arrivals (suc i) es) step
      ∙ replay_loop_lem (suc i) es (s ++ keep) (a ++ arrivals i)
          (record waiting {
            queue = s ++ (keep ++ (es ++ (a ++ arrivals i)));
            dead_letters = q.dead_letters ++ given_up q.max_retries (attempts i) e;
          })
          (n + counted (attempts i)) (sym (append_assoc s keep (es ++ (a ++ arrivals i))))
          (All-NotIn-kept q.max_retries (attempts i) e s es u fs) d
      ∙ simp (append_assoc, add_assoc)
    where
      keep : List QueueEntry
      keep = kept q.max_retries (attempts i) e

      waiting : OfflineQueue
      waiting = record q { queue = q.queue ++ arrivals i }

      held : waiting.queue ≡ s ++ e ∷ (es ++ (a ++ arrivals i))
      held = ap (λ l. l ++ arrivals i) h ∙ simp append_assoc

      step :
          conclude (attempts i) e (waiting, n)
          ≡ finished waiting
              (s ++ (keep ++ (es ++ (a ++ arrivals i))))
              (q.dead_letters ++ given_up q.max_retries (attempts i) e)
              (n + counted (attempts i))
      step = conclude_lem (attempts i) e s (es ++ (a ++ arrivals i)) waiting n held f

  All-NotIn_nil : (es : List QueueEntry) → All (λ e. NotIn e.id []) es
  All-NotIn_nil [] = tt
  All-NotIn_nil (e ∷ es) = (refl, All-NotIn_nil es)

  -- What a replay of the entries comes to.
  abbrev pub Replayed : OfflineQueue → List QueueEntry → OfflineQueue × Option ℕ → Type 0
  Replayed q es r =
      (r.0.queue ≡ survivors attempts q.max_retries 0 es ++ arrived arrivals 0 es)
      × (r.0.dead_letters ≡ q.dead_letters ++ casualties attempts q.max_retries 0 es)
      × (r.0.replaying ≡ false)
      × (r.1 ≡ (
          if leb 1 (successes attempts q.max_retries 0 es)
          then some (successes attempts q.max_retries 0 es)
          else none))

  persisted :
      (written : Bool) (q : OfflineQueue)
      → ((persist written q).queue ≡ q.queue) × ((persist written q).dead_letters ≡ q.dead_letters)
  unfolding persist
  persisted written q = ground arith

  Replayed-of_entries :
      (written : Bool) (q : OfflineQueue) (es : List QueueEntry)
      → q.queue ≡ es
      → q.replaying ≡ false
      → DistinctIds es
      → Replayed q es (replay attempts arrivals written q)
  unfolding replay
  Replayed-of_entries written q [] h idle d = ground (arith, append-nil q.dead_letters)
  Replayed-of_entries written q (e ∷ es) h idle d =
      let loop =
        replay_loop_lem 0 (e ∷ es) [] [] (record q { replaying = true }) 0
          (h ∙ sym (append-nil (e ∷ es))) (All-NotIn_nil (e ∷ es)) d in
      let left = ap (λ r. r.0.queue) loop in
      let dead = ap (λ r. r.0.dead_letters) loop in
      let number : (replay_loop attempts arrivals 0 (e ∷ es) (record q { replaying = true }, 0)).1
          ≡ successes attempts q.max_retries 0 (e ∷ es) =
        ap (λ r. r.1) loop ∙ omega arith in
      let (same, same_dead) =
        persisted written
          (replay_loop attempts arrivals 0 (e ∷ es) (record q { replaying = true }, 0)).0 in
      (ground arith, ground arith, ground arith, ground arith)

  -- A replay that starts while none is running, over entries with distinct ids, while other requests
  -- arrive: an entry that is executed leaves the queue; one that fails for good, or for the last time
  -- allowed, goes to the dead letters; any other stays, with one more retry counted, ahead of all that
  -- arrived meanwhile, which is kept in order. If any entry was executed the drain handlers are told how
  -- many, whether or not the queue is empty then; and a next replay may start.
  pub replay-Replayed :
      (written : Bool) (q : OfflineQueue)
      → q.replaying ≡ false
      → DistinctIds q.queue
      → Replayed q q.queue (replay attempts arrivals written q)
  replay-Replayed written q idle d = Replayed-of_entries written q q.queue refl idle d

  AreRetryable-survivors :
      (limit i : ℕ) (es : List QueueEntry) → AreRetryable limit (survivors attempts limit i es)
  AreRetryable-survivors limit i [] = tt
  AreRetryable-survivors limit i (e ∷ es) =
      AreRetryable-append limit (kept limit (attempts i) e) _
        (AreRetryable-kept limit (attempts i) e) (AreRetryable-survivors limit (suc i) es)

  AreRetryable-arrived :
      (limit i : ℕ) (es : List QueueEntry)
      → ((n : ℕ) → AreRetryable limit (arrivals n))
      → AreRetryable limit (arrived arrivals i es)
  AreRetryable-arrived limit i [] h = tt
  AreRetryable-arrived limit i (e ∷ es) h =
      AreRetryable-append limit (arrivals i) _ (h i) (AreRetryable-arrived limit (suc i) es h)

  -- After a replay no entry of the queue has reached the limit on retries, if none that arrived
  -- meanwhile has: whatever the answers, an entry is executed no more often than the limit.
  pub replay-AreRetryable :
      (written : Bool) (q : OfflineQueue)
      → q.replaying ≡ false
      → DistinctIds q.queue
      → ((n : ℕ) → AreRetryable q.max_retries (arrivals n))
      → AreRetryable q.max_retries (replay attempts arrivals written q).0.queue
  replay-AreRetryable written q idle d h =
      subst (AreRetryable q.max_retries) (sym (replay-Replayed written q idle d).0) (
        AreRetryable-append q.max_retries (survivors attempts q.max_retries 0 q.queue) _
          (AreRetryable-survivors q.max_retries 0 q.queue)
          (AreRetryable-arrived q.max_retries 0 q.queue h))
