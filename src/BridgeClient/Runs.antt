-- ===== src/BridgeClient/Runs.antt =====
-- A whole request: it ends, after at most the configured number of retries, and what its calls carry.
use mathlib.Core.Option
use c_address_onboarding_bri.Prelude.{
  ℕ, zero, suc, Bool, true, false, Option, some, ◌≡◌, refl, ap, ◌∙◌, subst, ◌⊎◌, ◌≤◌, ◌<◌, ◌+◌,
  List, [], ◌∷◌, length, All, arith, inl, inr, Bool-cases,
}
use c_address_onboarding_bri.SdkErrors.{ErrorBody}
use c_address_onboarding_bri.BridgeClient.{
  RetryConfig, Attempt, finish, Fetch, Run, followed_by, by_step, request_loop, compute_delay,
  may_retry,
}
use c_address_onboarding_bri.BridgeClient.Attempts.{next, repeats, attempt_once_lem}

module _ {J : Type 0} (read_error : J → ErrorBody) (config : RetryConfig) (started_at : ℕ)
    (attempts : ℕ → Attempt J) (fetch : Fetch) where
  -- The delays after `n` attempts from one on.
  abbrev pub waits : ℕ → ℕ → List ℕ
  waits first zero = []
  waits first (suc n) = compute_delay config first (attempts first).drawn ∷ waits (suc first) n

  abbrev pub repeats_at : ℕ → Bool
  repeats_at i = repeats read_error config started_at i (attempts i)

  -- A run whose attempts are those from `first` to `last`: each but the last is repeated, with its own
  -- delay, the last is not and gives the outcome, and all call `fetch` with the same arguments.
  pub record IsCourse (first last : ℕ) (run : Run J) : Type 0 where
    pub same : All (λ f. f ≡ fetch) run.fetches
    pub calls : length run.fetches + first ≡ suc last
    pub pauses : length run.delays + first ≡ last
    pub delays : run.delays ≡ waits first (length run.delays)
    pub repeated : (i : ℕ) → first ≤ i → i < last → repeats_at i ≡ true
    pub ended : repeats_at last ≡ false
    pub outcome : next read_error config started_at last (attempts last) ≡ finish run.outcome

  abbrev pub EndingOf : ℕ → ℕ → Option (Run J) → Type 0
  EndingOf fuel first o =
      (last : ℕ) × (run : Run J) × (last ≤ first + fuel) × (o ≡ some run) × IsCourse first last run

  -- The end at this attempt.
  ends_here :
      (fuel first : ℕ)
      → repeats_at first ≡ false
      → EndingOf fuel first
          (request_loop read_error config started_at (suc fuel) attempts fetch first)
  unfolding request_loop
  ends_here fuel first h =
      let (r, e, f) = (attempt_once_lem read_error config started_at first (attempts first)).1 h in
      (
        first,
        record { fetches = fetch ∷ []; delays = []; outcome = r },
        omega arith,
        ap
            (by_step read_error config started_at fetch
              (request_loop read_error config started_at fuel attempts fetch (suc first)))
            e,
        record {
          same = (refl, tt);
          calls = omega arith;
          pauses = omega arith;
          delays = refl;
          repeated = λ i a b. absurd (omega arith);
          ended = h;
          outcome = e;
        },
      )

  from_first : (a b : ℕ) → a ≤ b → (a ≡ b) ⊎ (suc a ≤ b)
  from_first a b h = omega arith

  at_most_retries : (i : ℕ) → repeats_at i ≡ true → i < config.max_retries
  unfolding may_retry
  at_most_retries i h = ground arith

  -- The end at a later attempt.
  ends_later :
      (fuel first : ℕ)
      → repeats_at first ≡ true
      → EndingOf fuel
          (suc first)
          (request_loop read_error config started_at (suc fuel) attempts fetch (suc first))
      → EndingOf
          (suc fuel)
          first
          (request_loop read_error config started_at (suc (suc fuel)) attempts fetch first)
  unfolding request_loop
  ends_later fuel first h (last, run, b, e, c) = (
    last,
    followed_by read_error config started_at fetch
        (compute_delay config first (attempts first).drawn) run,
    omega (arith, b),
    ap
          (by_step read_error config started_at fetch
            (request_loop read_error config started_at (suc fuel) attempts fetch (suc first)))
          ((attempt_once_lem read_error config started_at first (attempts first)).0 h)
        ∙ ap
            (Option.map (
              followed_by read_error config started_at fetch
                (compute_delay config first (attempts first).drawn)))
            e,
    record {
      same = (refl, c.same);
      calls = omega (arith, c.calls);
      pauses = omega (arith, c.pauses);
      delays = ap (λ l. compute_delay config first (attempts first).drawn ∷ l) c.delays;
      repeated = λ i a l. elim (from_first first i a) [
        | inl p ↦ subst (λ k. repeats_at k ≡ true) p h
        | inr q ↦ c.repeated i q l
      ];
      ended = c.ended;
      outcome = c.outcome;
    },
  )

  pub loop_lem :
      (fuel first : ℕ)
      → first + fuel ≡ config.max_retries
      → EndingOf fuel first
          (request_loop read_error config started_at (suc fuel) attempts fetch first)
  loop_lem zero first h = ends_here zero first (elim (Bool-cases (repeats_at first)) [
    | inl e ↦ absurd (omega (arith, at_most_retries first e))
    | inr e ↦ e
  ])
  loop_lem (suc fuel) first h = elim (Bool-cases (repeats_at first)) [
    | inl e ↦ ends_later fuel first e (loop_lem fuel (suc first) (omega (arith, h)))
    | inr e ↦ ends_here (suc fuel) first e
  ]
