-- ===== src/SimpleCache.antt =====
-- The SDK's in-memory cache, sdk/src/cache.ts. `Date.now()` is the argument `now`; debug output is
-- left out.
pub mod Expiry
pub mod Recency
mod Tests
use c_address_onboarding_bri.Prelude.{
  ℕ, String, Bool, true, false, Option, none, some, ◌+◌, ◌*◌, ◌&&◌, if◌then◌else◌, leb, List, [],
  ◌∷◌,
}
use c_address_onboarding_bri.JsMap.{JsMap, size}
use c_address_onboarding_bri.JsMap

pub record CacheEntry {ℓ} (T : Type ℓ) : Type ℓ where
  pub value : T
  pub expires_at : ℕ
  pub stale_until : ℕ

pub record SimpleCache {ℓ} (T : Type ℓ) : Type ℓ where
  pub entries : JsMap (CacheEntry T)
  pub max_entries : ℕ

module _ {ℓ} {T : Type ℓ} where
  unfoldable pub init : Option ℕ → SimpleCache T
  init none = record { entries = []; max_entries = 100 }
  init (some n) = record { entries = []; max_entries = n }

  abbrev pub is_expired : ℕ → CacheEntry T → Bool
  is_expired now e = leb e.expires_at now && leb e.stale_until now

  -- The hit: the entry goes to the end of the map.
  unfoldable pub touch : String → CacheEntry T → SimpleCache T → SimpleCache T
  touch key e c = record c { entries = JsMap.set key e (JsMap.delete key c.entries) }

  -- `get`: the cache afterwards, and the value with its staleness.
  unfoldable pub get : ℕ → String → SimpleCache T → SimpleCache T × Option (T × Bool)
  get now key c = elim (JsMap.get key c.entries) [
    | none ↦ (c, none)
    | some e ↦
        if is_expired now e
        then (record c { entries = JsMap.delete key c.entries }, none)
        else (touch key e c, some (e.value, leb e.expires_at now))
  ]

  -- `this.entries.delete(this.entries.keys().next().value)`
  unfoldable pub evict_oldest : JsMap (CacheEntry T) → JsMap (CacheEntry T)
  evict_oldest [] = []
  evict_oldest ((k, e) ∷ m) = JsMap.delete k ((k, e) ∷ m)

  -- The entries of `set` before the new one is stored.
  unfoldable pub make_room : String → SimpleCache T → JsMap (CacheEntry T)
  make_room key c =
      let rest = JsMap.delete key c.entries in
      if leb c.max_entries (size rest) then evict_oldest rest else rest

  abbrev pub new_entry : ℕ → T → ℕ → Bool → CacheEntry T
  new_entry now value ttl swr = record {
    value = value;
    expires_at = now + ttl;
    stale_until = now + (if swr then ttl * 2 else 0);
  }

  unfoldable pub set : ℕ → String → T → ℕ → Bool → SimpleCache T → SimpleCache T
  set now key value ttl swr c = record c {
    entries = JsMap.set key (new_entry now value ttl swr) (make_room key c);
  }

  unfoldable pub invalidate : String → SimpleCache T → SimpleCache T
  invalidate key c = record c { entries = JsMap.delete key c.entries }

  unfoldable pub clear : SimpleCache T → SimpleCache T
  clear c = record c { entries = [] }
