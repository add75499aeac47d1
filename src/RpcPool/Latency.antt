-- ===== src/RpcPool/Latency.antt =====
-- The latency strategy picks a fastest provider.
use c_address_onboarding_bri.Prelude.{
  ℕ, ◌≡◌, refl, sym, ap, subst, ◌<◌, ◌-◌, true, false, Option, none, some, List, [], ◌∷◌, arith,
  length, get_elem?, select, All, if◌then◌else◌, Bool-cases, inl, inr,
}
use c_address_onboarding_bri.RpcPool.{
  Provider, latency, RpcPool, healthy_providers, faster, fastest, measured, select_by_latency,
  select_by, select_provider,
}
use c_address_onboarding_bri.RpcPool.Selection.{
  Listed, select-All-Listed, fastest-Picks, All-select,
}

-- The latency of the first is at most that of the second; an unmeasured one is slowest.
abbrev pub NotSlower : Option ℕ → Option ℕ → Type 0
NotSlower a b = faster b a ≡ false

NotSlower-trans : (a b c : Option ℕ) → NotSlower a b → NotSlower b c → NotSlower a c
NotSlower-trans (some a) (some b) (some c) h k = ground arith
NotSlower-trans (some a) (some b) none h k = refl
NotSlower-trans (some a) none (some c) h k = cc
NotSlower-trans (some a) none none h k = refl
NotSlower-trans none (some b) (some c) h k = cc
NotSlower-trans none (some b) none h k = refl
NotSlower-trans none none (some c) h k = cc
NotSlower-trans none none none h k = refl

NotSlower-of_faster : (a b : Option ℕ) → faster a b ≡ true → NotSlower a b
NotSlower-of_faster (some a) (some b) h = ground arith
NotSlower-of_faster (some a) none h = refl
NotSlower-of_faster none b h = cc

NotSlower-refl : (a : Option ℕ) → NotSlower a a
NotSlower-refl (some a) = ground arith
NotSlower-refl none = refl

abbrev pub latency_of : ℕ × Provider → Option ℕ
latency_of e = e.1.last_latency_ms

abbrev Least : ℕ × Provider → ℕ × Provider → List (ℕ × Provider) → ℕ × Provider → Type 0
Least best e es r =
    NotSlower (latency_of r) (latency_of best)
    × All (λ x. NotSlower (latency_of r) (latency_of x)) (e ∷ es)

fastest-true :
    (best e : ℕ × Provider) (es : List (ℕ × Provider))
    → faster (latency_of e) (latency_of best) ≡ true
    → fastest best (e ∷ es) ≡ fastest e es
unfolding fastest
fastest-true best e es t = ap (λ b. fastest (if b then e else best) es) t

fastest-false :
    (best e : ℕ × Provider) (es : List (ℕ × Provider))
    → faster (latency_of e) (latency_of best) ≡ false
    → fastest best (e ∷ es) ≡ fastest best es
unfolding fastest
fastest-false best e es t = ap (λ b. fastest (if b then e else best) es) t

fastest-NotSlower :
    (best : ℕ × Provider) (es : List (ℕ × Provider))
    → NotSlower (latency_of (fastest best es)) (latency_of best)
      × All (λ e. NotSlower (latency_of (fastest best es)) (latency_of e)) es
fastest-NotSlower best [] = unfold fastest in (NotSlower-refl (latency_of best), tt)
fastest-NotSlower best (e ∷ es) = elim (Bool-cases (faster (latency_of e) (latency_of best))) [
  | inl t ↦
      let (h, hs) = fastest-NotSlower e es in
      let old =
        NotSlower-trans _ (latency_of e) (latency_of best) h
          (NotSlower-of_faster (latency_of e) (latency_of best) t) in
      subst (Least best e es) (sym (fastest-true best e es t)) (old, (h, hs))
  | inr t ↦
      let (h, hs) = fastest-NotSlower best es in
      subst (Least best e es) (sym (fastest-false best e es t))
        (h, (NotSlower-trans _ (latency_of best) (latency_of e) h t, hs))
]

by_latency :
    (draw : ℕ) (pool : RpcPool) (healthy chosen : List (ℕ × Provider))
    → pool.strategy ≡ latency
    → healthy_providers pool ≡ healthy
    → select measured healthy ≡ chosen
    → 0 < length chosen
    → All (Listed 0 pool.providers) chosen
    → (e : ℕ × Provider) × ((select_provider draw pool).1 ≡ e.0)
      × (get_elem? pool.providers e.0 ≡ some e.1)
      × All (λ x. NotSlower (latency_of e) (latency_of x)) chosen
unfolding select_provider select_by select_by_latency
by_latency draw pool healthy [] s h m lt a = absurd (omega arith)
by_latency draw pool [] (c ∷ cs) s h m lt a = cc
by_latency draw pool (d ∷ ds) (c ∷ cs) s h m lt (k, ks) =
    let (_, found, _) = fastest-Picks (Listed 0 pool.providers) c cs k ks in
    let whole : (fastest c cs).0 - 0 ≡ (fastest c cs).0 = omega arith in
    (
      fastest c cs,
      ground arith,
      subst (λ j. get_elem? pool.providers j ≡ some (fastest c cs).1) whole found,
      fastest-NotSlower c cs,
    )

All-healthy : (pool : RpcPool) → All (Listed 0 pool.providers) (healthy_providers pool)
unfolding healthy_providers
All-healthy pool = select-All-Listed 0 pool.providers

-- Where the latency of some healthy provider is known, the latency strategy selects a provider that
-- is at least as fast as every healthy provider with a known latency.
pub select_provider_fastest :
    (draw : ℕ) (pool : RpcPool)
    → pool.strategy ≡ latency
    → 0 < length (select measured (healthy_providers pool))
    → (e : ℕ × Provider) × ((select_provider draw pool).1 ≡ e.0)
      × (get_elem? pool.providers e.0 ≡ some e.1)
      × All
          (λ x. NotSlower (latency_of e) (latency_of x))
          (select measured (healthy_providers pool))
select_provider_fastest draw pool s lt =
    by_latency draw pool _ _ s refl refl lt
      (All-select (Listed 0 pool.providers) measured (healthy_providers pool) (All-healthy pool))
