-- ===== src/RpcPool/Selection.antt =====
-- Which provider `selectProvider` picks.
use c_address_onboarding_bri.Prelude.{
  ℕ, zero, suc, ◌≡◌, refl, sym, ◌∙◌, subst, ◌≤◌, ◌<◌, ◌-◌, Bool, true, false, some, List, [], ◌∷◌,
  arith, length, get_elem?, select, All, if◌then◌else◌, Bool-cases, inl, inr,
}
use c_address_onboarding_bri.RpcPool.{
  Provider, Strategy, round_robin, latency, random, RpcPool, positions, healthy_providers,
  position_at, faster, fastest, measured, select_by_latency, select_by, select_provider,
}

-- The position is that of the provider, which is healthy.
abbrev pub IsHealthyAt : List Provider → ℕ → Type 0
IsHealthyAt ps i = (p : Provider) × (get_elem? ps i ≡ some p) × (p.healthy ≡ true)

abbrev pub Listed : ℕ → List Provider → ℕ × Provider → Type 0
Listed k ps e = (k ≤ e.0) × (get_elem? ps (e.0 - k) ≡ some e.1) × (e.1.healthy ≡ true)

Listed-cons :
    (k : ℕ) (q : Provider) (ps : List Provider) (e : ℕ × Provider)
    → Listed (suc k) ps e
    → Listed k (q ∷ ps) e
Listed-cons k q ps (i, p) (h, g, t) =
    let shift : i - k ≡ suc (i - suc k) = omega arith in
    (omega arith, subst (λ j. get_elem? (q ∷ ps) j ≡ some p) (sym shift) g, t)

All-Listed_cons :
    (k : ℕ) (q : Provider) (ps : List Provider) (es : List (ℕ × Provider))
    → All (Listed (suc k) ps) es
    → All (Listed k (q ∷ ps)) es
All-Listed_cons k q ps [] h = tt
All-Listed_cons k q ps (e ∷ es) (h, hs) = (Listed-cons k q ps e h, All-Listed_cons k q ps es hs)

All-keep_if :
    (P : ℕ × Provider → Type 0) (b : Bool) (e : ℕ × Provider) (es : List (ℕ × Provider))
    → (b ≡ true → P e)
    → All P es
    → All P (if b then e ∷ es else es)
All-keep_if P true e es h hs = (h refl, hs)
All-keep_if P false e es h hs = hs

pub select-All-Listed :
    (k : ℕ) (ps : List Provider) → All (Listed k ps) (select (λ e. e.1.healthy) (positions k ps))
select-All-Listed k [] = tt
select-All-Listed k (p ∷ ps) =
    All-keep_if (Listed k (p ∷ ps)) p.healthy (k, p) _
      (λ ok. (omega arith, subst (λ j. get_elem? (p ∷ ps) j ≡ some p) (sym here) refl, ok))
      (All-Listed_cons k p ps _ (select-All-Listed (suc k) ps))
  where
    here : k - k ≡ 0
    here = omega arith

module _ (P : ℕ × Provider → Type 0) where
  abbrev Picks : ℕ → Type 0
  Picks i = (e : ℕ × Provider) × (i ≡ e.0) × P e

  position_at-Picks :
      (es : List (ℕ × Provider)) (i : ℕ) → All P es → i < length es → Picks (position_at es i)
  position_at-Picks [] i h lt = absurd (omega arith)
  position_at-Picks (e ∷ es) zero (h, _) lt = (e, refl, h)
  position_at-Picks (e ∷ es) (suc i) (_, h) lt = position_at-Picks es i h (omega arith)

  pub fastest-Picks :
      (best : ℕ × Provider) (es : List (ℕ × Provider)) → P best → All P es → P (fastest best es)
  unfolding fastest
  fastest-Picks best [] h hs = h
  fastest-Picks best (e ∷ es) h (k, ks) =
      elim (Bool-cases (faster e.1.last_latency_ms best.1.last_latency_ms)) [
        | inl t ↦ rw t (fastest-Picks e es k ks)
        | inr t ↦ rw t (fastest-Picks best es h ks)
      ]

  pub All-select :
      (q : ℕ × Provider → Bool) (es : List (ℕ × Provider)) → All P es → All P (select q es)
  All-select q [] h = tt
  All-select q (e ∷ es) (h, hs) = All-keep_if P (q e) e _ (λ _. h) (All-select q es hs)

  by_latency :
      (healthy chosen : List (ℕ × Provider))
      → select measured healthy ≡ chosen
      → All P healthy
      → 0 < length healthy
      → Picks (select_by_latency healthy)
  unfolding select_by_latency
  by_latency healthy [] e h lt = rw (e, select_by_latency) (position_at-Picks healthy 0 h lt)
  by_latency healthy (c ∷ cs) e h lt =
      let (k, ks) = subst (All P) e (All-select measured healthy h) in
      rw (e, select_by_latency) (fastest c cs, refl, fastest-Picks c cs k ks)

  by_strategy :
      (s : Strategy) (draw : ℕ) (healthy : List (ℕ × Provider)) (pool : RpcPool)
      → All P healthy
      → 0 < length healthy
      → Picks (select_by s draw healthy pool).1
  unfolding select_by
  by_strategy latency draw healthy pool h lt = by_latency healthy _ refl h lt
  by_strategy random draw healthy pool h lt = position_at-Picks healthy _ h (omega arith)
  by_strategy round_robin draw healthy pool h lt = position_at-Picks healthy _ h (omega arith)

-- The providers' list is not changed by a selection.
pub select_provider-providers :
    (draw : ℕ) (pool : RpcPool) → (select_provider draw pool).0.providers ≡ pool.providers
unfolding select_provider select_by
select_provider-providers draw pool = ground arith

select_provider_of :
    (draw : ℕ) (pool : RpcPool) (healthy : List (ℕ × Provider))
    → healthy_providers pool ≡ healthy
    → All (Listed 0 pool.providers) healthy
    → 0 < length healthy
    → IsHealthyAt pool.providers (select_provider draw pool).1
unfolding select_provider
select_provider_of draw pool [] e h lt = absurd (omega arith)
select_provider_of draw pool (c ∷ cs) e h lt =
    let ((i, p), same, (_, found, ok)) =
      by_strategy (Listed 0 pool.providers) pool.strategy draw (c ∷ cs) pool h lt in
    let zero_off : i - 0 ≡ i = omega arith in
    rw (e, select_provider)
      (p, subst (λ j. get_elem? pool.providers j ≡ some p) (zero_off ∙ sym same) found, ok)

-- While some provider is healthy, `selectProvider` returns a healthy one, by every strategy and
-- whatever the random draw.
pub select_provider-IsHealthyAt :
    (draw : ℕ) (pool : RpcPool)
    → 0 < length (healthy_providers pool)
    → IsHealthyAt pool.providers (select_provider draw pool).1
select_provider-IsHealthyAt draw pool h =
    select_provider_of draw pool _ refl
      (unfold healthy_providers in select-All-Listed 0 pool.providers) h
