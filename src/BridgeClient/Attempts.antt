-- ===== src/BridgeClient/Attempts.antt =====
-- When an attempt is followed by another, and with what delay.
use c_address_onboarding_bri.Prelude.{
  ℕ, Bool, true, false, Option, none, some, ◌≡◌, refl, ◌&&◌, ◌↔◌, not, arith, if◌then◌else◌,
}
use c_address_onboarding_bri.Prelude.Result.{Result, ok, err}
use c_address_onboarding_bri.SdkErrors.{
  BridgeError, ErrorBody, Thrown, bridge_thrown, abort_error, type_error, other, parse_http_error,
  network_error, timeout_error, server_error,
}
use c_address_onboarding_bri.BridgeClient.{
  RetryConfig, Attempt, Ending, replied, threw, Step, again, finish, may_retry, should_retry,
  caught, attempt_once, compute_delay, refused, error_body, is_ok,
}

module _ {J : Type 0} (read_error : J → ErrorBody) (config : RetryConfig) (started_at : ℕ) where
  -- An ending that is not final: a reply that is no success, or an error of `fetch` that is neither an
  -- abort nor an error of the SDK.
  abbrev pub is_transient : Ending J → Bool
  is_transient (replied status body) = not (is_ok read_error config started_at status)
  is_transient (threw abort_error) = false
  is_transient (threw (bridge_thrown e)) = false
  is_transient (threw type_error) = true
  is_transient (threw (other name)) = true

  abbrev pub next : ℕ → Attempt J → Step J
  next = attempt_once read_error config started_at

  abbrev pub allowed : ℕ → Attempt J → Bool
  allowed attempt a = may_retry read_error config started_at attempt a.now

  refused-again :
      (attempt status now drawn : ℕ) (body : Option J) (b : ErrorBody) (e : Ending J)
      → may_retry read_error config started_at attempt now ≡ true
      → refused read_error config started_at attempt
          (record { ending = e; now = now; drawn = drawn })
          (parse_http_error status b none)
        ≡ again (compute_delay config attempt drawn)
  unfolding parse_http_error caught should_retry
  refused-again attempt status now drawn body b e h = ground arith

  -- The value of a reply that is a success.
  abbrev pub success : Ending J → Option J
  success (threw thrown) = none
  success (replied status body) = if is_ok read_error config started_at status then body else none

  -- How an attempt that is not followed by another ends the request.
  abbrev pub IsFinal : ℕ → Attempt J → Type 0
  IsFinal attempt a =
      (r : Result Thrown J) × (next attempt a ≡ finish r)
      × ((j : J) → (r ≡ ok j) ↔ (success a.ending ≡ some j))

  abbrev pub repeats : ℕ → Attempt J → Bool
  repeats attempt a = is_transient a.ending && allowed attempt a

  next-again :
      (attempt now drawn : ℕ) (e : Ending J)
      → repeats attempt (record { ending = e; now = now; drawn = drawn }) ≡ true
      → next attempt (record { ending = e; now = now; drawn = drawn })
        ≡ again (compute_delay config attempt drawn)
  unfolding attempt_once caught should_retry
  next-again attempt now drawn (threw abort_error) h = absurd cc
  next-again attempt now drawn (threw (bridge_thrown e)) h = absurd cc
  next-again attempt now drawn (threw type_error) h = ground arith
  next-again attempt now drawn (threw (other name)) h = ground arith
  next-again attempt now drawn (replied status body) h = ground (
    arith,
    refused-again attempt status now drawn body (error_body read_error config started_at body)
        (replied status body),
  )

  caught-final :
      (attempt : ℕ) (a : Attempt J) (thrown : Thrown)
      → allowed attempt a ≡ false
      → (t : Thrown) × (caught read_error config started_at attempt a thrown ≡ finish (err t))
  unfolding caught should_retry
  caught-final attempt a (bridge_thrown e) h = (_, refl)
  caught-final attempt a abort_error h = (_, refl)
  caught-final attempt a type_error h = (bridge_thrown network_error, rw h)
  caught-final attempt a (other name) h = (other name, rw h)

  refused-final :
      (attempt : ℕ) (a : Attempt J) (p : Result Thrown BridgeError)
      → allowed attempt a ≡ false
      → (t : Thrown) × (refused read_error config started_at attempt a p ≡ finish (err t))
  unfolding caught
  refused-final attempt a (err thrown) h = caught-final attempt a thrown h
  refused-final attempt a (ok e) h = (bridge_thrown e, ground arith)

  IsFinal-failed :
      (attempt : ℕ) (a : Attempt J) (f : (t : Thrown) × (next attempt a ≡ finish (err t)))
      → success a.ending ≡ none
      → IsFinal attempt a
  IsFinal-failed attempt a (t, e) n = (err t, e, λ j. ((λ k. absurd cc), λ k. absurd cc))

  abbrev pub reply : ℕ → Option J → ℕ → ℕ → Attempt J
  reply status body now drawn = record { ending = replied status body; now = now; drawn = drawn }

  abbrev pub failure : Thrown → ℕ → ℕ → Attempt J
  failure thrown now drawn = record { ending = threw thrown; now = now; drawn = drawn }

  reply-IsFinal :
      (attempt status now drawn : ℕ) (body : Option J) (good : Bool)
      → is_ok read_error config started_at status ≡ good
      → not good && may_retry read_error config started_at attempt now ≡ false
      → IsFinal attempt (reply status body now drawn)
  unfolding attempt_once caught
  reply-IsFinal attempt status now drawn none true e h =
      IsFinal-failed attempt (reply status none now drawn)
        (bridge_thrown (server_error (some status) none (some false)), rw e refl) (rw e refl)
  reply-IsFinal attempt status now drawn (some j) true e h =
      (ok j, rw e refl, λ i. rw e ((λ k. ground arith), λ k. ground arith))
  reply-IsFinal attempt status now drawn body false e h =
      let (t, f) =
        refused-final attempt (reply status body now drawn)
          (parse_http_error status (error_body read_error config started_at body) none) h in
      IsFinal-failed attempt (reply status body now drawn) (t, rw e f) (rw e refl)

  next-IsFinal :
      (attempt now drawn : ℕ) (e : Ending J)
      → repeats attempt (record { ending = e; now = now; drawn = drawn }) ≡ false
      → IsFinal attempt (record { ending = e; now = now; drawn = drawn })
  unfolding attempt_once caught
  next-IsFinal attempt now drawn (threw abort_error) h =
      IsFinal-failed attempt (failure abort_error now drawn)
        (bridge_thrown (timeout_error none), refl) refl
  next-IsFinal attempt now drawn (threw (bridge_thrown e)) h =
      IsFinal-failed attempt (failure (bridge_thrown e) now drawn) (bridge_thrown e, refl) refl
  next-IsFinal attempt now drawn (threw type_error) h =
      IsFinal-failed attempt (failure type_error now drawn)
        (caught-final attempt (failure type_error now drawn) type_error h) refl
  next-IsFinal attempt now drawn (threw (other name)) h =
      IsFinal-failed attempt (failure (other name) now drawn)
        (caught-final attempt (failure (other name) now drawn) (other name) h) refl
  next-IsFinal attempt now drawn (replied status body) h =
      reply-IsFinal attempt status now drawn body (is_ok read_error config started_at status) refl h

  -- After an attempt comes another, with the delay for this attempt, just when fewer than the
  -- configured retries were made, the budget of time is not used up, and the ending is transient:
  -- every reply but a success (the client errors too), and every error of `fetch` but an abort.
  -- Otherwise the request ends, with a value just when the reply is a success with this value.
  pub attempt_once_lem :
      (attempt : ℕ) (a : Attempt J)
      → (repeats attempt a ≡ true → next attempt a ≡ again (compute_delay config attempt a.drawn))
        × (repeats attempt a ≡ false → IsFinal attempt a)
  attempt_once_lem attempt a =
      (next-again attempt a.now a.drawn a.ending, next-IsFinal attempt a.now a.drawn a.ending)
