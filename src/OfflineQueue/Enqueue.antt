-- ===== src/OfflineQueue/Enqueue.antt =====
-- What `enqueue` and the storage load do.
use mathlib.Core.List.{append_assoc, append-nil}
use c_address_onboarding_bri.Prelude.{
  String, ◌≡◌, refl, sym, ◌∙◌, ap, subst, ◌≤◌, ◌<◌, Bool, true, false, Option, none, some,
  if◌then◌else◌, List, [], ◌∷◌, ◌++◌, arith, Bool-cases, inl, inr, length, length-append, any, All,
  ◌===◌, ===_refl,
}
use c_address_onboarding_bri.OfflineQueue.{
  QueueEntry, OfflineQueue, Storage, no_adapter, holding, is_non_idempotent, persist, key_for,
  new_item, enqueue, merge, load_from_storage,
}

abbrev pub IsBounded : OfflineQueue → Type 0
IsBounded q = length q.queue ≤ q.max_size

-- The queue never grows over its capacity, and a full queue is left as it was.
pub enqueue-IsBounded :
    (id at generated : String) (written : Bool) (e : QueueEntry) (q : OfflineQueue)
    → IsBounded q
    → IsBounded (enqueue id at generated written e q).0
unfolding enqueue persist
enqueue-IsBounded id at generated written e q h =
    ground (arith, length-append q.queue (new_item id at generated e ∷ []))

-- The key that a replay sends: the caller's, or else a generated one where a repeated request could
-- have a second effect.
abbrev pub KeptKey : Option String → Bool → String → Option String → Type 0
KeptKey (some k) repeats generated key = key ≡ some k
KeptKey none true generated key = key ≡ some generated
KeptKey none false generated key = key ≡ none

key_for-KeptKey :
    (supplied : Option String) (generated : String) (e : QueueEntry)
    → e.idempotency_key ≡ supplied
    → KeptKey e.idempotency_key (is_non_idempotent e) generated (key_for generated e)
unfolding key_for
key_for-KeptKey none generated e h = ground arith
key_for-KeptKey (some k) generated e h = ground arith

-- A request that is queued stands at the end of the queue under its new id, unchanged but for a retry
-- count of zero and its key: the key of the failed attempt is kept as it is, and without one a
-- non-idempotent POST gets the generated key.
pub enqueue-KeptKey :
    (id at generated : String) (written : Bool) (e : QueueEntry) (q : OfflineQueue)
    → length q.queue < q.max_size
    → (item : QueueEntry) × ((enqueue id at generated written e q).0.queue ≡ q.queue ++ item ∷ [])
      × ((enqueue id at generated written e q).1 ≡ some item.id)
      × (item ≡ record e {
        id = id;
        timestamp = at;
        retry_count = 0;
        idempotency_key = item.idempotency_key;
      })
      × KeptKey e.idempotency_key (is_non_idempotent e) generated item.idempotency_key
unfolding enqueue persist new_item
enqueue-KeptKey id at generated written e q h = (
  new_item id at generated e,
  ground arith,
  ground arith,
  refl,
  key_for-KeptKey e.idempotency_key generated e refl,
)

-- Some entry has the id of this one.
abbrev pub has_id : List QueueEntry → QueueEntry → Bool
has_id es e = any (λ x. x.id === e.id) es

has_id-append :
    (e : QueueEntry) (xs ys : List QueueEntry) → has_id xs e ≡ true → has_id (xs ++ ys) e ≡ true
has_id-append e [] ys h = cc
has_id-append e (x ∷ xs) ys h = ground (arith, has_id-append e xs ys)

has_id-last : (e : QueueEntry) (xs : List QueueEntry) → has_id (xs ++ e ∷ []) e ≡ true
has_id-last e [] = ground (arith, ===_refl e.id)
has_id-last e (x ∷ xs) = ground (arith, has_id-last e xs)

-- `merge` keeps what is in the queue, in place.
merge_behind :
    (existing loaded queue : List QueueEntry)
    → (more : List QueueEntry) × (merge existing loaded queue ≡ queue ++ more)
unfolding merge
merge_behind existing [] queue = ([], sym (append-nil queue))
merge_behind existing (e ∷ loaded) queue = elim (Bool-cases (has_id existing e)) [
  | inl old ↦ let (more, same) = merge_behind existing loaded queue in (more, rw old same)
  | inr new ↦
      let (more, same) = merge_behind existing loaded (queue ++ e ∷ []) in
      (e ∷ more, rw new (same ∙ append_assoc queue (e ∷ []) more))
]

merge_seen :
    (existing loaded queue : List QueueEntry)
    → All (λ e. has_id existing e ≡ true) loaded
    → merge existing loaded queue ≡ queue
unfolding merge
merge_seen existing [] queue h = refl
merge_seen existing (e ∷ loaded) queue (h, hs) = rw h (merge_seen existing loaded queue hs)

abbrev Covers : List QueueEntry → List QueueEntry → Type 0
Covers queue es = All (λ e. has_id queue e ≡ true) es

merge-cons :
    (existing loaded queue : List QueueEntry) (e : QueueEntry) (b : Bool)
    → has_id existing e ≡ b
    → merge existing (e ∷ loaded) queue
      ≡ merge existing loaded (if b then queue else queue ++ e ∷ [])
unfolding merge
merge-cons existing loaded queue e b h =
    ap (λ c. merge existing loaded (if c then queue else queue ++ e ∷ [])) h

has_id-merge :
    (existing loaded queue : List QueueEntry) (e : QueueEntry)
    → has_id queue e ≡ true
    → has_id (merge existing loaded queue) e ≡ true
has_id-merge existing loaded queue e h =
    let (more, same) = merge_behind existing loaded queue in
    subst (λ l. has_id l e ≡ true) (sym same) (has_id-append e queue more h)

-- What was loaded is in the merged queue, if what counts as there already is.
merge-Covers :
    (existing loaded queue : List QueueEntry)
    → ((e : QueueEntry) → has_id existing e ≡ true → has_id queue e ≡ true)
    → Covers (merge existing loaded queue) loaded
merge-Covers existing [] queue k = tt
merge-Covers existing (e ∷ loaded) queue k = elim (Bool-cases (has_id existing e)) [
  | inl old ↦
      subst (λ l. Covers l (e ∷ loaded)) (sym (merge-cons existing loaded queue e true old))
        (has_id-merge existing loaded queue e (k e old), merge-Covers existing loaded queue k)
  | inr new ↦
      subst (λ l. Covers l (e ∷ loaded)) (sym (merge-cons existing loaded queue e false new))
        (
          has_id-merge existing loaded (queue ++ e ∷ []) e (has_id-last e queue),
          merge-Covers existing loaded (queue ++ e ∷ [])
              (λ x h. has_id-append x queue (e ∷ []) (k x h)),
        )
]

merge_twice :
    (loaded queue : List QueueEntry)
    → merge (merge queue loaded queue) loaded (merge queue loaded queue) ≡ merge queue loaded queue
merge_twice loaded queue =
    merge_seen (merge queue loaded queue) loaded (merge queue loaded queue)
      (merge-Covers queue loaded queue (λ e h. h))

load_twice :
    (q : OfflineQueue) (s : Storage)
    → q.storage ≡ s
    → load_from_storage (load_from_storage q) ≡ load_from_storage q
unfolding load_from_storage
load_twice q no_adapter h = ground arith
load_twice q (holding none) h = ground arith
load_twice q (holding (some loaded)) h = ground (arith, merge_twice loaded q.queue)

load_behind :
    (q : OfflineQueue) (s : Storage)
    → q.storage ≡ s
    → (more : List QueueEntry) × ((load_from_storage q).queue ≡ q.queue ++ more)
unfolding load_from_storage
load_behind q no_adapter h = ([], ground (arith, append-nil q.queue))
load_behind q (holding none) h = ([], ground (arith, append-nil q.queue))
load_behind q (holding (some loaded)) h =
    let (more, same) = merge_behind q.queue loaded q.queue in (more, ground arith)

-- Loading the stored entries keeps every entry that was queued before the load ended, in place and
-- ahead of the loaded ones, and a second load of the same entries adds nothing.
pub load_from_storage_lem :
    (q : OfflineQueue)
    → (load_from_storage (load_from_storage q) ≡ load_from_storage q)
      × ((more : List QueueEntry) × ((load_from_storage q).queue ≡ q.queue ++ more))
load_from_storage_lem q = (load_twice q q.storage refl, load_behind q q.storage refl)
