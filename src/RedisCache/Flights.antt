-- ===== src/RedisCache/Flights.antt =====
-- Single flight: one computation of a key at a time in a process, and the poll ends.
use c_address_onboarding_bri.Prelude.{
  ℕ, zero, suc, String, Bool, true, false, Option, none, some, ◌≡◌, ◌≢◌, ◌⊎◌, inl, inr, refl, sym,
  ap, subst, Bool-cases, Option-cases, ◌∙◌, ◌≤◌, ◌<◌, ◌+◌, ◌*◌, if◌then◌else◌, ltb, List, [], ◌∷◌,
  ◌==◌, ◌===◌, ===_iff, arith,
}
use c_address_onboarding_bri.JsMap
use c_address_onboarding_bri.JsMap.Laws.{get-set, get-delete}
use c_address_onboarding_bri.RedisCache.SingleFlight.{
  LockAnswer, Phase, acquiring, Joined, shares, starts, polling, computing, Flight, Flights,
  with_single_flight, set_phase, lock_answered, poll_left, drop_id, settled, Round, PollEnd,
  calls_fn, poll_once, or_round, poll, acquire_redis_lock,
}

-- How many promises of a key are pending.
abbrev pub count : String → List (ℕ × Flight) → ℕ
count key [] = 0
count key ((i, f) ∷ fs) = if f.key === key then suc (count key fs) else count key fs

abbrev pub key_of : ℕ → List (ℕ × Flight) → Option String
key_of id [] = none
key_of id ((i, f) ∷ fs) = if i == id then some f.key else key_of id fs

abbrev pub is_some : {A : Type 0} → Option A → Bool
is_some none = false
is_some (some a) = true

-- What a process reaches: calls, answers of the lock, polls that are left, promises that settle.
pub data Reaches : Flights → Type 0 where
  start : Reaches (record { in_flight_map = []; pending = []; next_id = 0 })
  called : (key : String) (f : Flights) → Reaches f → Reaches (with_single_flight key f).0
  lock_comes : (id : ℕ) (a : LockAnswer) (f : Flights) → Reaches f → Reaches (lock_answered id a f)
  poll_leaves : (id : ℕ) (f : Flights) → Reaches f → Reaches (poll_left id f)
  settles :
      (id : ℕ) (key : String) (f : Flights)
      → key_of id f.pending ≡ some key
      → Reaches f
      → Reaches (settled id key f)

count-set_phase :
    (key : String) (id : ℕ) (phase : Phase) (fs : List (ℕ × Flight))
    → count key (set_phase id phase fs) ≡ count key fs
count-set_phase key id phase [] = refl
count-set_phase key id phase ((i, f) ∷ fs) = ground (arith, count-set_phase key id phase fs)

count-drop_id :
    (key : String) (id : ℕ) (own : String) (fs : List (ℕ × Flight))
    → key_of id fs ≡ some own
    → count key fs ≡ count key (drop_id id fs) + (if own === key then 1 else 0)
count-drop_id key id own [] h = absurd cc
count-drop_id key id own ((i, f) ∷ fs) h = ground (arith, count-drop_id key id own fs)

-- The map holds a key just when a promise of it is pending, and then one.
abbrev Counts : Flights → Type 0
Counts f =
    (key : String)
    → count key f.pending ≡ (if is_some (JsMap.get key f.in_flight_map) then 1 else 0)

-- The promise of a key in the map is pending, and is of this key.
abbrev Points : Flights → Type 0
Points f =
    (key : String) (id : ℕ)
    → JsMap.get key f.in_flight_map ≡ some id
    → key_of id f.pending ≡ some key

-- Promises have numbers below the next.
abbrev IsFresh : Flights → Type 0
IsFresh f = (id : ℕ) (key : String) → key_of id f.pending ≡ some key → id < f.next_id

abbrev IsSound : Flights → Type 0
IsSound f = Counts f × Points f × IsFresh f

key_of-set_phase :
    (i id : ℕ) (phase : Phase) (fs : List (ℕ × Flight))
    → key_of i (set_phase id phase fs) ≡ key_of i fs
key_of-set_phase i id phase [] = refl
key_of-set_phase i id phase ((k, f) ∷ fs) = ground (arith, key_of-set_phase i id phase fs)

key_of-drop_id :
    (i id : ℕ) (fs : List (ℕ × Flight)) → i ≢ id → key_of i (drop_id id fs) ≡ key_of i fs
key_of-drop_id i id [] ne = refl
key_of-drop_id i id ((k, f) ∷ fs) ne = ground (arith, key_of-drop_id i id fs ne)

abbrev started : String → Flights → Flights
started key f = record {
  in_flight_map = JsMap.set key f.next_id f.in_flight_map;
  pending = (f.next_id, record { key = key; phase = acquiring }) ∷ f.pending;
  next_id = suc f.next_id;
}

abbrev joining : String → Flights → Option ℕ → Flights × Joined
joining key f none = (started key f, starts f.next_id)
joining key f (some id) = (f, shares id)

called-some :
    (key : String) (f : Flights) (id : ℕ)
    → JsMap.get key f.in_flight_map ≡ some id
    → with_single_flight key f ≡ (f, shares id)
unfolding with_single_flight
called-some key f id e = ap (joining key f) e

called-none :
    (key : String) (f : Flights)
    → JsMap.get key f.in_flight_map ≡ none
    → with_single_flight key f ≡ (started key f, starts f.next_id)
unfolding with_single_flight
called-none key f e = ap (joining key f) e

started-IsSound :
    (key : String) (f : Flights)
    → JsMap.get key f.in_flight_map ≡ none
    → IsSound f
    → IsSound (started key f)
started-IsSound key f free (c, p, n) = (
  λ j. ground (arith, get-set key j f.next_id f.in_flight_map, c j, c key, free, ===_iff key j),
  (λ j id e. by j id (Bool-cases (key === j)) e),
  λ id k e. elim (Bool-cases (f.next_id == id)) [
    | inl same ↦ ground arith
    | inr other ↦
        let older : key_of id f.pending ≡ some k =
          sym (ap (λ b. if b then some key else key_of id f.pending) other) ∙ e in
        omega (arith, n id k older)
  ],
)
  where
    by :
        (j : String) (id : ℕ)
        → ((key === j) ≡ true) ⊎ ((key === j) ≡ false)
        → JsMap.get j (JsMap.set key f.next_id f.in_flight_map) ≡ some id
        → key_of id (started key f).pending ≡ some j
    by j id (inl same) e = ground (arith, get-set key j f.next_id f.in_flight_map, ===_iff key j)
    by j id (inr other) e =
        let older : JsMap.get j f.in_flight_map ≡ some id =
          ground (arith, get-set key j f.next_id f.in_flight_map) in
        let mine = p j id older in ground (arith, n id j mine)

called-IsSound : (key : String) (f : Flights) → IsSound f → IsSound (with_single_flight key f).0
called-IsSound key f h = elim (Option-cases (JsMap.get key f.in_flight_map)) [
  | inl e ↦ subst IsSound (sym (ap (λ q. q.0) (called-none key f e))) (started-IsSound key f e h)
  | inr (id, e) ↦ subst IsSound (sym (ap (λ q. q.0) (called-some key f id e))) h
]

-- A change of the phase of a promise.
phase-IsSound :
    (id : ℕ) (phase : Phase) (f : Flights)
    → IsSound f
    → IsSound (record f { pending = set_phase id phase f.pending })
phase-IsSound id phase f (c, p, n) = (
  (λ j. count-set_phase j id phase f.pending ∙ c j),
  (λ j i e. key_of-set_phase i id phase f.pending ∙ p j i e),
  λ i j e. n i j (sym (key_of-set_phase i id phase f.pending) ∙ e),
)

settled-IsSound :
    (id : ℕ) (key : String) (f : Flights)
    → key_of id f.pending ≡ some key
    → IsSound f
    → IsSound (settled id key f)
unfolding settled
settled-IsSound id key f own (c, p, n) = (
  (λ j.
      ground (arith, count-drop_id j id key f.pending own, get-delete key j f.in_flight_map, c j)),
  (λ j i e.
      let kept : ((key === j) ≡ false) × (JsMap.get j f.in_flight_map ≡ some i) =
        apart j i (key === j) (JsMap.get j f.in_flight_map)
          (sym (get-delete key j f.in_flight_map) ∙ e) in
      let ne : i ≢ id = λ q.
        let mine = subst (λ m. key_of m f.pending ≡ some j) q (p j i kept.1) in
        let one : key ≡ j = inside key j (sym own ∙ mine) in differ key j one kept.0 in
      key_of-drop_id i id f.pending ne ∙ p j i kept.1),
  λ i j e. elim (Bool-cases (i == id)) [
    | inl same ↦ let own' : id < f.next_id = n id key own in ground arith
    | inr other ↦
        let ne : i ≢ id = λ q. ground arith in n i j (sym (key_of-drop_id i id f.pending ne) ∙ e)
  ],
)
  where
    apart :
        (j : String) (i : ℕ) (b : Bool) (o : Option ℕ)
        → (if b then none else o) ≡ some i
        → (b ≡ false) × (o ≡ some i)
    apart j i true o e = absurd cc
    apart j i false o e = (refl, e)

    inside : (k j : String) → some k ≡ some j → k ≡ j
    inside k j e = cc

    differ : (k j : String) → k ≡ j → (k === j) ≡ false → ⊥
    differ k j e f = ground (arith, ===_iff k j)

reaches-IsSound : (f : Flights) → Reaches f → IsSound f
unfolding lock_answered poll_left JsMap.get
reaches-IsSound f start = ((λ j. refl), (λ j id e. absurd cc), λ id j e. absurd cc)
reaches-IsSound f (called key g r) = called-IsSound key g (reaches-IsSound g r)
reaches-IsSound f (lock_comes id a g r) =
    phase-IsSound id (if acquire_redis_lock a then computing true else polling) g
      (reaches-IsSound g r)
reaches-IsSound f (poll_leaves id g r) = phase-IsSound id (computing false) g (reaches-IsSound g r)
reaches-IsSound f (settles id key g e r) = settled-IsSound id key g e (reaches-IsSound g r)

-- A key has no promise, and a call starts one; or it has one, to which a call is joined, and the call
-- changes nothing.
abbrev pub IsSingle : String → Flights → Type 0
IsSingle key f =
    ((count key f.pending ≡ 0) × ((with_single_flight key f).1 ≡ starts f.next_id))
    ⊎ ((count key f.pending ≡ 1)
        × ((id : ℕ) × (key_of id f.pending ≡ some key)
            × (with_single_flight key f ≡ (f, shares id))))

-- Of a key at most one promise is pending at a time in a process, whatever is called and in whatever
-- order locks are answered and promises settle. If there is none, a call of the key starts one; if
-- there is one, a call is joined to it, changes nothing and starts no computation.
pub flights-IsSingle : (f : Flights) → Reaches f → (key : String) → IsSingle key f
flights-IsSingle f r key =
    let (c, p, n) = reaches-IsSound f r in
    elim (Option-cases (JsMap.get key f.in_flight_map)) [
      | inl e ↦
          inl (c key ∙ ap (λ o. if is_some o then 1 else 0) e, ap (λ q. q.1) (called-none key f e))
      | inr (id, e) ↦
          inr (
            c key ∙ ap (λ o. if is_some o then 1 else 0) e,
            (id, p key id e, called-some key f id e),
          )
    ]

module _ {T : Type 0} where
  poll_within :
      (fuel deadline i : ℕ) (rounds : ℕ → Round T)
      → ((k : ℕ) → (rounds k).now + 50 ≤ (rounds (suc k)).now)
      → deadline ≤ (rounds i).now + 50 * fuel
      → (e : PollEnd T) × (poll (suc fuel) deadline rounds i ≡ some e)
  unfolding poll
  poll_within zero deadline i rounds h d = (calls_fn, ground arith)
  poll_within (suc fuel) deadline i rounds h d =
      let (e, p) = poll_within fuel deadline (suc i) rounds h (omega (arith, d, h i)) in
      by (ltb (rounds i).now deadline) (poll_once (rounds i)) e p
    where
      by :
          (more : Bool) (o : Option (PollEnd T)) (e : PollEnd T)
          → poll (suc fuel) deadline rounds (suc i) ≡ some e
          → (x : PollEnd T) × ((if more
                then or_round o (poll (suc fuel) deadline rounds (suc i))
                else some calls_fn)
              ≡ some x)
      by false o e p = (calls_fn, refl)
      by true none e p = (e, p)
      by true (some x) e p = (x, refl)

  -- The poll of a call that did not get the lock ends, whatever Redis answers: if the clock goes on by
  -- the pause of 50 ms in each round, after at most one round more than fit into the time of the lock.
  pub poll_ends :
      (n lock_ttl_ms started_at : ℕ) (rounds : ℕ → Round T)
      → lock_ttl_ms ≤ 50 * n
      → started_at ≤ (rounds 0).now
      → ((k : ℕ) → (rounds k).now + 50 ≤ (rounds (suc k)).now)
      → (e : PollEnd T) × (poll (suc n) (started_at + lock_ttl_ms) rounds 0 ≡ some e)
  poll_ends n lock_ttl_ms started_at rounds b s h =
      poll_within n (started_at + lock_ttl_ms) 0 rounds h (omega arith)
