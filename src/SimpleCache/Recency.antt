-- ===== src/SimpleCache/Recency.antt =====
-- The cache as a list of keys, the least recently used first: what each operation does to it.
use c_address_onboarding_bri.Prelude.{
  ℕ, String, ◌≡◌, refl, sym, ◌∙◌, ap, Bool, false, Option, none, some, if◌then◌else◌, leb, List, [],
  ◌∷◌, ◌++◌, arith, Bool-cases, Option-cases, inl, inr, length, drop,
}
use c_address_onboarding_bri.JsMap.{JsMap, size, keys}
use c_address_onboarding_bri.JsMap
use c_address_onboarding_bri.JsMap.Laws.{without, keys-delete, size-keys, set_new, keys-append}
use c_address_onboarding_bri.JsMap.Distinct.{
  listed, Distinct, without_head, without_absent, without-Distinct, append-Distinct,
  listed-without_self, has-listed, keys-set-delete,
}
use c_address_onboarding_bri.SimpleCache.{
  CacheEntry, SimpleCache, get, set, touch, is_expired, evict_oldest, make_room, new_entry,
}

-- The least recently used key goes if the list is full; the new one goes to the end.
abbrev pub lru_room : ℕ → List String → List String
lru_room most ks = if leb most (length ks) then drop 1 ks else ks

abbrev pub lru_set : ℕ → String → List String → List String
lru_set most k ks = lru_room most (without k ks) ++ k ∷ []

abbrev pub lru_touch : String → List String → List String
lru_touch k ks = without k ks ++ k ∷ []

listed-drop : (k : String) (ks : List String) → listed k ks ≡ false → listed k (drop 1 ks) ≡ false
listed-drop k [] h = refl
listed-drop k (j ∷ ks) h = ground arith

drop-Distinct : (ks : List String) → Distinct ks → Distinct (drop 1 ks)
drop-Distinct [] d = tt
drop-Distinct (k ∷ ks) (_, d) = d

room_fresh :
    (most : ℕ) (key : String) (ks : List String)
    → listed key (lru_room most (without key ks)) ≡ false
room_fresh most key ks = ground (
  arith,
  listed-without_self key ks,
  listed-drop key (without key ks) (listed-without_self key ks),
)

room-Distinct : (most : ℕ) (ks : List String) → Distinct ks → Distinct (lru_room most ks)
room-Distinct most ks d = ground (arith, drop-Distinct ks d)

touch-Distinct : (k : String) (ks : List String) → Distinct ks → Distinct (lru_touch k ks)
touch-Distinct k ks d =
    append-Distinct k (without k ks) (listed-without_self k ks) (without-Distinct k ks d)

module _ {T : Type 0} where
  abbrev pub recency : SimpleCache T → List String
  recency c = keys c.entries

  keys-evict_oldest :
      (m : JsMap (CacheEntry T)) → Distinct (keys m) → keys (evict_oldest m) ≡ drop 1 (keys m)
  unfolding evict_oldest
  keys-evict_oldest [] d = refl
  keys-evict_oldest ((k, e) ∷ m) d = keys-delete k ((k, e) ∷ m) ∙ without_head k (keys m) d

  keys-make_room :
      (key : String) (c : SimpleCache T)
      → Distinct (recency c)
      → keys (make_room key c) ≡ lru_room c.max_entries (without key (recency c))
  unfolding make_room
  keys-make_room key c d =
      elim (Bool-cases (leb c.max_entries (size (JsMap.delete key c.entries)))) [
        | inl full ↦ rw full (
            keys-evict_oldest _ distinct
            ∙ ap (drop 1) (keys-delete key c.entries)
            ∙ sym (ap (λ b. if b then drop 1 ks else ks) (same ∙ full)))
        | inr free ↦
            rw free (
              keys-delete key c.entries ∙ sym (ap (λ b. if b then drop 1 ks else ks) (same ∙ free)))
      ]
    where
      ks : List String
      ks = without key (recency c)

      distinct : Distinct (keys (JsMap.delete key c.entries))
      distinct = rw (keys-delete key c.entries) (without-Distinct key (recency c) d)

      same : leb c.max_entries (length ks) ≡ leb c.max_entries (size (JsMap.delete key c.entries))
      same =
          ap (leb c.max_entries)
            (ap length (sym (keys-delete key c.entries)) ∙ size-keys (JsMap.delete key c.entries))

  -- A write acts on the keys as on a list of keys by recency: the key moves to the most recent place,
  -- and if the others fill the cache then exactly the least recently used of them is dropped. The keys
  -- stay distinct.
  pub recency-set :
      (now ttl : ℕ) (swr : Bool) (key : String) (value : T) (c : SimpleCache T)
      → Distinct (recency c)
      → (recency (set now key value ttl swr c) ≡ lru_set c.max_entries key (recency c))
        × Distinct (recency (set now key value ttl swr c))
  unfolding set
  recency-set now ttl swr key value c d = (same, rw same spread)
    where
      room : List String
      room = lru_room c.max_entries (without key (recency c))

      fresh : listed key room ≡ false
      fresh = room_fresh c.max_entries key (recency c)

      same : keys (JsMap.set key (new_entry now value ttl swr) (make_room key c)) ≡ room ++ key ∷ []
      same =
          ap keys (
            set_new key (new_entry now value ttl swr) (make_room key c)
              (has-listed key (make_room key c) ∙ ap (listed key) (keys-make_room key c d) ∙ fresh))
          ∙ keys-append (make_room key c) key (new_entry now value ttl swr)
          ∙ ap (λ l. l ++ key ∷ []) (keys-make_room key c d)

      spread : Distinct (room ++ key ∷ [])
      spread = append-Distinct key room fresh (
          room-Distinct c.max_entries (without key (recency c))
            (without-Distinct key (recency c) d))

  -- A read with a result makes its key the most recent, one without a result leaves no entry for it.
  abbrev pub lru_get : Option (T × Bool) → String → List String → List String
  lru_get none k ks = without k ks
  lru_get (some r) k ks = lru_touch k ks

  get_absent :
      (k : String) (m : JsMap (CacheEntry T)) → JsMap.get k m ≡ none → listed k (keys m) ≡ false
  unfolding JsMap.get
  get_absent k [] h = refl
  get_absent k ((j, v) ∷ m) h = ground (arith, get_absent k m)

  -- A read acts on the keys by recency: one that returns a value moves its key to the most recent
  -- place, one that returns nothing removes the key; the other keys keep their order, and all stay
  -- distinct.
  pub recency-get :
      (now : ℕ) (key : String) (c : SimpleCache T)
      → Distinct (recency c)
      → (recency (get now key c).0 ≡ lru_get (get now key c).1 key (recency c))
        × Distinct (recency (get now key c).0)
  unfolding get touch
  recency-get now key c d = elim (Option-cases (JsMap.get key c.entries)) [
    | inl e ↦ rw (e, get) (sym (without_absent key (recency c) (get_absent key c.entries e)), d)
    | inr (w, e) ↦ elim (Bool-cases (is_expired now w)) [
      | inl old ↦
          rw (e, get)
            (rw old (
              keys-delete key c.entries,
              rw (keys-delete key c.entries) (without-Distinct key (recency c) d),
            ))
      | inr new ↦
          rw (e, get)
            (rw new (
              keys-set-delete key w c.entries,
              rw (keys-set-delete key w c.entries) (touch-Distinct key (recency c) d),
            ))
    ]
  ]
