-- ===== src/RpcPool/RoundRobin.antt =====
-- The round-robin strategy is fair.
use native.Mathlib.Nat.{mod-add-mod}
use c_address_onboarding_bri.Prelude.{
  ℕ, zero, suc, ◌≡◌, ◌∙◌, ap, ◌<◌, ◌+◌, ◌%◌, some, List, [], ◌∷◌, arith, length, get_elem?,
}
use c_address_onboarding_bri.RpcPool.{
  Provider, round_robin, RpcPool, healthy_providers, position_at, select_by, select_provider,
}

-- Selections in a row, none of whose calls changes the pool.
unfoldable pub selections : ℕ → RpcPool → List ℕ
selections zero pool = []
selections (suc k) pool = let (pool', i) = select_provider 0 pool in i ∷ selections k pool'

select_provider-round_robin :
    (pool : RpcPool) (healthy : List (ℕ × Provider))
    → pool.strategy ≡ round_robin
    → healthy_providers pool ≡ healthy
    → 0 < length healthy
    → let i = pool.rr_index % length healthy in
      select_provider 0 pool
      ≡ (record pool { rr_index = (i + 1) % length healthy }, position_at healthy i)
unfolding select_provider select_by
select_provider-round_robin pool [] s e h = absurd (omega arith)
select_provider-round_robin pool (c ∷ cs) s e h = ground arith

mod_shift : (i j m : ℕ) → ((i % m + 1) % m + j) % m ≡ (i + suc j) % m
mod_shift i j m =
    mod-add-mod (i % m + 1) m j ∙ ap (λ n. n % m) (omega arith) ∙ mod-add-mod i m (suc j)

-- While the same providers stay healthy, the j-th of the selections of round robin in a row takes the
-- healthy provider j places after the first, round the list of them.
pub selections-round_robin :
    (k j : ℕ) (pool : RpcPool) (healthy : List (ℕ × Provider))
    → pool.strategy ≡ round_robin
    → healthy_providers pool ≡ healthy
    → 0 < length healthy
    → j < k
    → get_elem? (selections k pool) j
      ≡ some (position_at healthy ((pool.rr_index + j) % length healthy))
unfolding selections
selections-round_robin zero j pool healthy s e h lt = absurd (omega arith)
selections-round_robin (suc k) zero pool healthy s e h lt =
    rw (select_provider-round_robin pool healthy s e h)
      (ap (λ n. some (position_at healthy (n % length healthy))) (omega arith))
selections-round_robin (suc k) (suc j) pool healthy s e h lt =
    rw (select_provider-round_robin pool healthy s e h) (
      selections-round_robin k j (record pool { rr_index = next }) healthy s
        (unfold healthy_providers in e) h (omega arith)
      ∙ ap (λ n. some (position_at healthy n)) (mod_shift pool.rr_index j (length healthy)))
  where
    next : ℕ
    next = (pool.rr_index % length healthy + 1) % length healthy
