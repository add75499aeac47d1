-- ===== src/SimpleCache/Expiry.antt =====
-- What `get` finds after `set`, and the bound on the number of entries.
use c_address_onboarding_bri.Prelude.{
  ℕ, String, ◌≡◌, ◌∙◌, ◌≤◌, ◌<◌, ◌+◌, ◌*◌, suc, Bool, true, false, Option, none, some,
  if◌then◌else◌, ltb, [], ◌∷◌, arith, ===_refl, inl, inr, Option-cases, ◌-◌,
}
use c_address_onboarding_bri.JsMap.{JsMap, size}
use c_address_onboarding_bri.JsMap
use c_address_onboarding_bri.JsMap.Laws.{
  get-set, size-delete-le, size-set-le, size-delete_head, size-delete_lt,
}
use c_address_onboarding_bri.SimpleCache.{
  CacheEntry, SimpleCache, get, set, touch, evict_oldest, make_room, new_entry,
}

module _ {T : Type 0} where
  -- What a reader sees of a value stored at `now`: fresh until the time to live is over, then, with
  -- stale-while-revalidate, stale for as long again, then nothing.
  abbrev pub seen : ℕ → ℕ → Bool → ℕ → T → Option (T × Bool)
  seen now ttl swr later value =
      if ltb later (now + ttl)
      then some (value, false)
      else if swr
      then if ltb later (now + ttl * 2) then some (value, true) else none
      else none

  seen_of :
      (now ttl later : ℕ) (swr : Bool) (key : String) (value : T) (c : SimpleCache T)
      → now ≤ later
      → JsMap.get key c.entries ≡ some (new_entry now value ttl swr)
      → (get later key c).1 ≡ seen now ttl swr later value
  unfolding get
  seen_of now ttl later true key value c h e = ground arith
  seen_of now ttl later false key value c h e = ground arith

  -- A value that was stored and not touched since is returned as fresh before its time to live is
  -- over; after that it is returned as stale, for as long again, if it was stored with
  -- stale-while-revalidate; otherwise nothing is returned.
  pub get-set_same :
      (now later ttl : ℕ) (swr : Bool) (key : String) (value : T) (c : SimpleCache T)
      → now ≤ later
      → (get later key (set now key value ttl swr c)).1 ≡ seen now ttl swr later value
  unfolding set
  get-set_same now later ttl swr key value c h =
      seen_of now ttl later swr key value (set now key value ttl swr c) h
        (get-set key key (new_entry now value ttl swr) (make_room key c) ∙ rw (===_refl key))

  evict_oldest-size :
      (m : JsMap (CacheEntry T)) (n : ℕ) → size m ≤ suc n → size (evict_oldest m) ≤ n
  unfolding evict_oldest
  evict_oldest-size [] n h = omega arith
  evict_oldest-size ((k, e) ∷ m) n h = omega (arith, size-delete_head k e m)

  abbrev pub IsBounded : SimpleCache T → Type 0
  IsBounded c = size c.entries ≤ c.max_entries

  -- A write leaves at most as many entries as the cache may hold, if it may hold any and held no
  -- more before; the capacity is not changed.
  pub set-IsBounded :
      (now ttl : ℕ) (swr : Bool) (key : String) (value : T) (c : SimpleCache T)
      → 0 < c.max_entries
      → IsBounded c
      → IsBounded (set now key value ttl swr c)
  unfolding set make_room
  set-IsBounded now ttl swr key value c p h = ground (
    arith,
    size-set-le key (new_entry now value ttl swr) (make_room key c),
    size-delete-le key c.entries,
    evict_oldest-size (JsMap.delete key c.entries) (c.max_entries - 1),
  )

  pub get-IsBounded :
      (now : ℕ) (key : String) (c : SimpleCache T) → IsBounded c → IsBounded (get now key c).0
  unfolding get touch
  get-IsBounded now key c h = elim (Option-cases (JsMap.get key c.entries)) [
    | inl e ↦ rw (e, get) h
    | inr (w, e) ↦
        rw (e, get)
          (ground (
            arith,
            size-set-le key w (JsMap.delete key c.entries),
            size-delete_lt key w c.entries e,
          ))
  ]
