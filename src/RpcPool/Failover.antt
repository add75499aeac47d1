-- ===== src/RpcPool/Failover.antt =====
-- Which provider a round of `executeWithFailover` takes: one whose address is untried, if there is one.
use c_address_onboarding_bri.Prelude.{
  ℕ, zero, suc, String, ◌≡◌, refl, ◌∙◌, ap, subst, ◌≤◌, ◌<◌, ◌+◌, ◌⊎◌, true, false, Option, none,
  some, List, [], ◌∷◌, arith, length, get_elem?, select, map, any, not, Bool-cases, inl, inr, ◌===◌,
  ===_iff,
}
use c_address_onboarding_bri.RpcPool.{
  Provider, RpcPool, update, mark_failure, tried_has, find_untried, target,
}

abbrev pub urls : RpcPool → List String
urls pool = map (λ p. p.url) pool.providers

-- The providers' addresses that were not tried.
abbrev pub untried : List String → List String → List String
untried tried us = select (λ u. not (tried_has tried u)) us

pub urls-update :
    (i : ℕ) (f : Provider → Provider) (ps : List Provider)
    → ((p : Provider) → (f p).url ≡ p.url)
    → map (λ p. p.url) (update i f ps) ≡ map (λ p. p.url) ps
urls-update i f [] h = refl
urls-update zero f (p ∷ ps) h = rw (h p)
urls-update (suc i) f (p ∷ ps) h = rw (urls-update i f ps h)

pub mark_failure-url :
    (threshold now : ℕ) (p : Provider) → (mark_failure threshold now p).url ≡ p.url
unfolding mark_failure
mark_failure-url threshold now p = refl

-- An untried address among the given ones.
abbrev pub Fresh : List String → List String → String → Type 0
Fresh tried us u = (any (λ v. v === u) us ≡ true) × (tried_has tried u ≡ false)

get_elem?-url :
    (ps : List Provider) (i : ℕ) (p : Provider)
    → get_elem? ps i ≡ some p
    → any (λ v. v === p.url) (map (λ q. q.url) ps) ≡ true
get_elem?-url [] i p e = cc
get_elem?-url (q ∷ ps) zero p e = ground (arith, ===_iff q.url p.url)
get_elem?-url (q ∷ ps) (suc i) p e = ground (arith, get_elem?-url ps i p e)

untried-length_cons :
    (tried us : List String) (u : String)
    → length (untried (u ∷ tried) us) ≤ length (untried tried us)
untried-length_cons tried [] u = omega arith
untried-length_cons tried (v ∷ us) u = ground (arith, untried-length_cons tried us u)

-- Trying a fresh address leaves fewer untried ones.
pub untried-lt :
    (tried us : List String) (u : String)
    → Fresh tried us u
    → length (untried (u ∷ tried) us) < length (untried tried us)
untried-lt tried [] u (m, f) = cc
untried-lt tried (v ∷ us) u (m, f) =
    ground (arith, untried-lt tried us u, untried-length_cons tried us u, ===_iff v u, ===_iff u v)

find_untried-cases :
    (tried : List String) (k : ℕ) (ps : List Provider)
    → ((find_untried tried k ps ≡ none) × (length (untried tried (map (λ p. p.url) ps)) ≡ 0))
      ⊎ ((j : ℕ) × (p : Provider) × (find_untried tried k ps ≡ some (k + j))
          × (get_elem? ps j ≡ some p)
          × (tried_has tried p.url ≡ false))
find_untried-cases tried k [] = inl (refl, refl)
find_untried-cases tried k (p ∷ ps) = elim (Bool-cases (tried_has tried p.url)) [
  | inl old ↦ elim (find_untried-cases tried (suc k) ps) [
    | inl (e, n) ↦ inl (rw old e, rw old n)
    | inr (j, q, e, g, f) ↦ inr (suc j, q, rw old (e ∙ ap some (omega arith)), g, f)
  ]
  | inr new ↦ inr (0, p, rw new (ap some (omega arith)), refl, new)
]

abbrev pub Targets : List String → RpcPool → Option (ℕ × Provider) → Type 0
Targets tried pool r =
    ((r ≡ none) × (length (untried tried (urls pool)) ≡ 0))
    ⊎ ((j : ℕ) × (p : Provider) × (r ≡ some (j, p)) × Fresh tried (urls pool) p.url)

target-Targets_tried :
    (tried : List String) (pool : RpcPool) (i : ℕ) (p : Provider)
    → get_elem? pool.providers i ≡ some p
    → tried_has tried p.url ≡ true
    → Targets tried pool (target tried pool i)
unfolding target
target-Targets_tried tried pool i p e old = elim (find_untried-cases tried 0 pool.providers) [
  | inl (f, n) ↦ inl (ground arith, n)
  | inr (j, q, f, g, new) ↦
      let at : get_elem? pool.providers (0 + j) ≡ some q =
        subst (λ n. get_elem? pool.providers n ≡ some q) (omega arith) g in
      inr (0 + j, q, ground arith, (get_elem?-url pool.providers j q g, new))
]

pub target-Targets :
    (tried : List String) (pool : RpcPool) (i : ℕ) (p : Provider)
    → get_elem? pool.providers i ≡ some p
    → Targets tried pool (target tried pool i)
unfolding target
target-Targets tried pool i p e = elim (Bool-cases (tried_has tried p.url)) [
  | inl old ↦ target-Targets_tried tried pool i p e old
  | inr new ↦ inr (i, p, ground arith, (get_elem?-url pool.providers i p e, new))
]
