-- ===== src/BridgeClient/Refreshing.antt =====
-- What reads through the cache return, and that a key has one refresh at a time.
use c_address_onboarding_bri.Prelude.{
  ℕ, suc, String, Bool, true, false, not, Option, none, some, ◌≡◌, refl, ◌≤◌, ◌<◌, ◌+◌, ◌*◌, ◌-◌,
  ◌&&◌, if◌then◌else◌, ltb, List, [], ◌∷◌, ◌===◌, ===_iff, any, select, arith,
}
use c_address_onboarding_bri.Prelude.Result.{Result, ok, err}
use c_address_onboarding_bri.SimpleCache
use c_address_onboarding_bri.SimpleCache.Expiry.{get-set_same}
use c_address_onboarding_bri.SdkErrors.{Thrown}
use c_address_onboarding_bri.BridgeClient.Cached.{
  CacheOptions, Query, cache_key, get_ttl, should_use_stale_while_revalidate, ClientState, Found,
  hit, miss, trigger_background_refresh, served, answered, look_up, store, fetched, refresh_ended,
}

-- How many refreshes of a key are under way.
abbrev pub count : String → List String → ℕ
count key [] = 0
count key (k ∷ ks) = if k === key then suc (count key ks) else count key ks

-- The refreshes under way without one of a key.
abbrev pub without_one : String → List String → List String
without_one key [] = []
without_one key (k ∷ ks) = if k === key then ks else k ∷ without_one key ks

abbrev pub is_in : String → List String → Bool
is_in key = any (λ k. k === key)

-- The set of keys agrees with the refreshes under way.
abbrev Agree : List String → List String → Type 0
Agree set ks = (key : String) → count key ks ≡ (if is_in key set then 1 else 0)

is_in-select :
    (key j : String) (ks : List String)
    → is_in j (select (λ k. not (k === key)) ks) ≡ (if key === j then false else is_in j ks)
is_in-select key j [] = ground arith
is_in-select key j (k ∷ ks) =
    ground (arith, ===_iff k key, ===_iff k j, ===_iff key j, is_in-select key j ks)

count-without_one :
    (key j : String) (ks : List String)
    → count j (without_one key ks) ≡ count j ks - (if key === j then 1 else 0)
count-without_one key j [] = ground arith
count-without_one key j (k ∷ ks) =
    ground (arith, ===_iff k key, ===_iff k j, ===_iff key j, count-without_one key j ks)

module _ {J : Type 0} (options : Option CacheOptions) where
  abbrev pub is_refreshing : Query → ClientState J → Bool
  is_refreshing q st = any (λ k. k === cache_key q) st.refreshing

  -- After a request for a query returned a value, a read of the same query returns this value and asks
  -- for nothing while the time to live lasts; with stale-while-revalidate it returns the value as long
  -- again, and starts a refresh in the background unless one for this query is under way; otherwise the
  -- read makes a request.
  pub look_up-fetched :
      (now later : ℕ) (q : Query) (value : J) (st : ClientState J)
      → now ≤ later
      → (look_up options later q (fetched options now q (ok value) st)).1 ≡ (
          if ltb later (now + get_ttl q options)
          then hit value false
          else if should_use_stale_while_revalidate options
              && ltb later (now + get_ttl q options * 2)
          then hit value (not (is_refreshing q st))
          else miss)
  unfolding look_up fetched store trigger_background_refresh
  look_up-fetched now later q value st h = ground (
    arith,
    get-set_same now later (get_ttl q options) (should_use_stale_while_revalidate options)
        (cache_key q) value st.cache h,
  )

  abbrev pub with_started : String → Found J → List String → List String
  with_started key miss ks = ks
  with_started key (hit value false) ks = ks
  with_started key (hit value true) ks = key ∷ ks

  -- What a client reaches from nothing, with the refreshes under way: reads start them as `look_up`
  -- says, requests end, and one that is under way ends.
  pub data Reaches (limit : Option ℕ) : ClientState J → List String → Type 0 where
    start : Reaches limit (record { cache = SimpleCache.init limit; refreshing = [] }) []
    reads :
        (now : ℕ) (q : Query) (st : ClientState J) (ks : List String)
        → Reaches limit st ks
        → Reaches limit
            (look_up options now q st).0
            (with_started (cache_key q) (look_up options now q st).1 ks)
    answer_comes :
        (now : ℕ) (q : Query) (result : Result Thrown J) (st : ClientState J) (ks : List String)
        → Reaches limit st ks
        → Reaches limit (fetched options now q result st) ks
    refresh_ends :
        (now : ℕ) (q : Query) (result : Result Thrown J) (st : ClientState J) (ks : List String)
        → Reaches limit st ks
        → 0 < count (cache_key q) ks
        → Reaches limit (refresh_ended options now q result st) (without_one (cache_key q) ks)

  fetched-refreshing :
      (now : ℕ) (q : Query) (result : Result Thrown J) (st : ClientState J)
      → (fetched options now q result st).refreshing ≡ st.refreshing
  unfolding fetched store
  fetched-refreshing now q (err thrown) st = refl
  fetched-refreshing now q (ok value) st = refl

  served-Agree :
      (key : String) (cached : J × Bool) (st : ClientState J) (ks : List String)
      → Agree st.refreshing ks
      → Agree
          (served options key cached st).0.refreshing
          (with_started key (served options key cached st).1 ks)
  unfolding trigger_background_refresh
  served-Agree key (value, false) st ks h j = h j
  served-Agree key (value, true) st ks h j = ground (arith, ===_iff key j, h j, h key)

  answered-Agree :
      (key : String) (found : Option (J × Bool)) (st : ClientState J) (ks : List String)
      → Agree st.refreshing ks
      → Agree
          (answered options key found st).0.refreshing
          (with_started key (answered options key found st).1 ks)
  answered-Agree key none st ks h = h
  answered-Agree key (some cached) st ks h = served-Agree key cached st ks h

  look_up-Agree :
      (now : ℕ) (q : Query) (st : ClientState J) (ks : List String)
      → Agree st.refreshing ks
      → Agree
          (look_up options now q st).0.refreshing
          (with_started (cache_key q) (look_up options now q st).1 ks)
  unfolding look_up
  look_up-Agree now q st ks h =
      let (cache, found) = SimpleCache.get now (cache_key q) st.cache in
      answered-Agree (cache_key q) found (record st { cache = cache }) ks h

  ended-Agree :
      (now : ℕ) (q : Query) (result : Result Thrown J) (st : ClientState J) (ks : List String)
      → Agree st.refreshing ks
      → Agree (refresh_ended options now q result st).refreshing (without_one (cache_key q) ks)
  unfolding refresh_ended
  ended-Agree now q result st ks h j = rw (fetched-refreshing now q result st) (
      ground (
        arith,
        count-without_one (cache_key q) j ks,
        is_in-select (cache_key q) j st.refreshing,
        h j,
      ))

  -- Whatever reads are made and in whatever order requests and refreshes end, at most one refresh in the
  -- background is under way for a key, and the client's set of keys holds those that have one.
  pub refreshes-one :
      (limit : Option ℕ) (st : ClientState J) (ks : List String)
      → Reaches limit st ks
      → (key : String) → count key ks ≡ (if is_in key st.refreshing then 1 else 0)
  refreshes-one limit st ks start key = refl
  refreshes-one limit st ks (reads now q before bs r) key =
      look_up-Agree now q before bs (refreshes-one limit before bs r) key
  refreshes-one limit st ks (answer_comes now q result before bs r) key =
      rw (fetched-refreshing now q result before) (refreshes-one limit before bs r key)
  refreshes-one limit st ks (refresh_ends now q result before bs r n) key =
      ended-Agree now q result before bs (refreshes-one limit before bs r) key
