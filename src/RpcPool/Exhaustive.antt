-- ===== src/RpcPool/Exhaustive.antt =====
-- `executeWithFailover` tries every provider before it gives up, whatever else happens to the pool.
use c_address_onboarding_bri.Prelude.{
  ℕ, zero, suc, String, ◌≡◌, refl, sym, ◌∙◌, ap, subst, ◌≤◌, ◌+◌, true, Option, none, some, List,
  [], ◌∷◌, arith, length, get_elem?, All, map, any, Bool-cases, inl, inr, ◌===◌, ===_iff,
}
use c_address_onboarding_bri.RpcPool.{
  Provider, RpcPool, select_provider, count_request, Reply, answers, fails, Outcome, returned,
  thrown, tried_has, target, after_call, failover, execute_with_failover, healthy_providers,
}
use c_address_onboarding_bri.RpcPool.Selection.{
  select_provider-providers, select_provider-IsHealthyAt,
}
use c_address_onboarding_bri.RpcPool.Failover.{
  urls, untried, urls-update, mark_failure-url, untried-lt, Targets, target-Targets,
}

selected_first :
    (draw : ℕ) (pool : RpcPool) → healthy_providers pool ≡ [] → (select_provider draw pool).1 ≡ 0
unfolding select_provider
selected_first draw pool e = rw (e, select_provider)

select_provider_in_range :
    (draw : ℕ) (pool : RpcPool) (healthy : List (ℕ × Provider)) (p : Provider) (ps : List Provider)
    → healthy_providers pool ≡ healthy
    → pool.providers ≡ p ∷ ps
    → (q : Provider) × (get_elem? pool.providers (select_provider draw pool).1 ≡ some q)
select_provider_in_range draw pool [] p ps e h =
    (p, rw (selected_first draw pool e) (ap (λ l. get_elem? l 0) h))
select_provider_in_range draw pool (c ∷ cs) p ps e h =
    let (q, found, _) = select_provider-IsHealthyAt draw pool (rw e (omega arith)) in (q, found)

target_no_providers :
    (tried : List String) (pool : RpcPool) (i : ℕ)
    → pool.providers ≡ []
    → target tried pool i ≡ none
unfolding target
target_no_providers tried pool i e = ground (arith, ap (λ l. get_elem? l i) e)

-- The round's provider is untried; there is none only where every address was tried.
round-Targets :
    (tried : List String) (pool : RpcPool) (draw : ℕ) (ps : List Provider)
    → pool.providers ≡ ps
    → let st = select_provider draw pool in Targets tried st.0 (target tried st.0 st.1)
round-Targets tried pool draw [] e =
    let st = select_provider draw pool in
    let empty : st.0.providers ≡ [] = select_provider-providers draw pool ∙ e in
    inl (
      target_no_providers tried st.0 st.1 empty,
      ap (λ l. length (untried tried (map (λ p. p.url) l))) empty,
    )
round-Targets tried pool draw (c ∷ cs) e =
    let st = select_provider draw pool in
    let same = select_provider-providers draw pool in
    let (q, found) = select_provider_in_range draw pool _ c cs refl e in
    target-Targets tried st.0 st.1 q (subst (λ l. get_elem? l st.1 ≡ some q) (sym same) found)

module _ {ℓ} {T : Type ℓ} (call : ℕ → String → Reply T) (meanwhile : ℕ → RpcPool → RpcPool)
    (draw : ℕ → ℕ) where
  -- Some call of this address failed.
  abbrev pub Failed : String → Type ℓ
  Failed u = (attempt now : ℕ) × (e : String) × (call attempt u ≡ fails now e)

  -- What an outcome says of the addresses: the answer is one provider's, or every provider failed.
  abbrev pub Explained : List String → Outcome T → Type ℓ
  Explained us (returned v) =
      (u : String) × (attempt start now : ℕ) × (any (λ w. w === u) us ≡ true)
      × (call attempt u ≡ answers start now v)
  Explained us (thrown e) = All Failed us

  Failed-of_tried :
      (tried : List String) (u : String) → All Failed tried → tried_has tried u ≡ true → Failed u
  Failed-of_tried [] u h t = cc
  Failed-of_tried (v ∷ tried) u (h, hs) t = elim (Bool-cases (v === u)) [
    | inl e ↦ subst Failed ((===_iff v u).0 e) h
    | inr e ↦ Failed-of_tried tried u hs (rw e at t)
  ]

  All-Failed :
      (tried us : List String) → All Failed tried → length (untried tried us) ≡ 0 → All Failed us
  All-Failed tried [] h n = tt
  All-Failed tried (u ∷ us) h n = elim (Bool-cases (tried_has tried u)) [
    | inl old ↦ (Failed-of_tried tried u h old, All-Failed tried us h (rw old at n))
    | inr new ↦ absurd (ground arith)
  ]

  after_call-Explained :
      (us : List String) (attempt j : ℕ) (u : String) (pool : RpcPool) (r : Reply T)
      (rest : Option String → RpcPool → RpcPool × Outcome T)
      → any (λ w. w === u) us ≡ true
      → call attempt u ≡ r
      → urls pool ≡ us
      → ((e : Option String) (q : RpcPool) → Failed u → urls q ≡ us → Explained us (rest e q).1)
      → Explained us (after_call call meanwhile draw j pool r rest).1
  unfolding after_call
  after_call-Explained us attempt j u pool (answers start now v) rest m c e k =
      (u, attempt, start, now, m, c)
  after_call-Explained us attempt j u pool (fails now msg) rest m c e k =
      k (some msg) _ (attempt, now, msg, c)
        (urls-update j _ pool.providers (mark_failure-url pool.failure_threshold now) ∙ e)

  module _ (keeps : (attempt : ℕ) (q : RpcPool) → urls (meanwhile attempt q) ≡ urls q) where
    failover-Explained :
        (rounds attempt : ℕ) (tried : List String) (last : Option String) (pool : RpcPool)
        (us : List String)
        → urls pool ≡ us
        → All Failed tried
        → length (untried tried us) ≤ rounds
        → Explained us (failover call meanwhile draw rounds attempt tried last pool).1
    unfolding failover
    failover-Explained zero attempt tried last pool us e h n = All-Failed tried us h (omega arith)
    failover-Explained (suc rounds) attempt tried last pool us e h n =
        let st = select_provider (draw attempt) pool in
        let same : urls st.0 ≡ us =
          ap (map (λ p. p.url)) (select_provider-providers (draw attempt) pool) ∙ e in
        elim (round-Targets tried pool (draw attempt) pool.providers refl) [
          | inl (f, none_left) ↦
              rw (f, failover)
                (All-Failed tried us h (subst (λ l. length (untried tried l) ≡ 0) same none_left))
          | inr (j, p, f, (m, new)) ↦
              let inside = subst (λ l. any (λ w. w === p.url) l ≡ true) same m in
              rw (f, failover)
                (after_call-Explained us attempt j p.url _ (call attempt p.url) _ inside refl
                  (keeps attempt _ ∙ urls-update j count_request st.0.providers (λ q. refl) ∙ same)
                  (λ err q failed eq.
                    failover-Explained rounds (attempt + 1) (p.url ∷ tried) err q us eq (failed, h)
                      (omega (arith, untried-lt tried us p.url (inside, new)))))
        ]

    -- Whatever the calls give, whatever the random draws, and whatever other code does to the pool
    -- during each call as long as it keeps the addresses: `executeWithFailover` returns an answer
    -- that a provider of the pool gave, or it throws after a call of every provider's address failed.
    pub execute_with_failover-Explained :
        (pool : RpcPool) → Explained (urls pool) (execute_with_failover call meanwhile draw pool).1
    unfolding execute_with_failover
    execute_with_failover-Explained pool =
        failover-Explained (length pool.providers) 0 [] none pool (urls pool) refl tt
          (untried_all pool.providers)
      where
        untried_all : (ps : List Provider) → length (untried [] (map (λ p. p.url) ps)) ≤ length ps
        untried_all [] = omega arith
        untried_all (p ∷ ps) = omega (arith, untried_all ps)
