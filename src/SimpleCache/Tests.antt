-- ===== src/SimpleCache/Tests.antt =====
-- The cache at concrete inputs.
use c_address_onboarding_bri.Prelude.{ℕ, ◌≡◌, refl, false, [], ◌∷◌}
use c_address_onboarding_bri.JsMap
use c_address_onboarding_bri.JsMap.Distinct.{Distinct}
use c_address_onboarding_bri.SimpleCache.{
  CacheEntry, SimpleCache, get, set, make_room, evict_oldest, touch,
}
use c_address_onboarding_bri.SimpleCache.Recency.{recency, lru_set, recency-set}

abbrev entry : ℕ → CacheEntry ℕ
entry v = record { value = v; expires_at = 100; stale_until = 0 }

abbrev pair : SimpleCache ℕ
pair = record { entries = ("a", entry 1) ∷ ("b", entry 2) ∷ []; max_entries = 2 }

evicts_oldest : recency (set 5 "c" 3 50 false pair) ≡ "b" ∷ "c" ∷ []
unfolding set make_room evict_oldest JsMap.set JsMap.delete
evicts_oldest = refl

read_then_write : recency (set 5 "c" 3 50 false (get 5 "a" pair).0) ≡ "a" ∷ "c" ∷ []
unfolding set get touch make_room evict_oldest JsMap.set JsMap.get JsMap.delete
read_then_write = refl

recency-set_example :
    (recency (set 5 "c" 3 50 false pair) ≡ lru_set 2 "c" ("a" ∷ "b" ∷ []))
    × Distinct (recency (set 5 "c" 3 50 false pair))
recency-set_example = recency-set 5 50 false "c" 3 pair (refl, (refl, tt))
