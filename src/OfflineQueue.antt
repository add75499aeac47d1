-- ===== src/OfflineQueue.antt =====
-- The SDK's offline queue, sdk/src/offline.ts. An entry object is known by its id, which both
-- `queue` and the snapshot of a replay share; generated ids and keys, clock readings and the answers of
-- `executeEntry` are arguments, and so is what is enqueued while a replay waits.
pub mod Replay
pub mod Drain
pub mod Enqueue
mod Tests
use c_address_onboarding_bri.Prelude.{
  ℕ, suc, zero, String, Bool, true, false, Option, none, some, ◌+◌, ◌&&◌, if◌then◌else◌, leb, List,
  [], ◌∷◌, ◌++◌, ◌===◌, length, any, map,
}

pub record QueueEntry : Type 0 where
  pub id : String
  pub timestamp : String
  pub retry_count : ℕ
  pub method : String
  pub path : String
  pub body : String
  pub params : String
  pub idempotency_key : Option String

-- The storage adapter, with what it holds under the queue's key.
pub data Storage : Type 0 where
  no_adapter : Storage
  holding : Option (List QueueEntry) → Storage

pub record OfflineQueue : Type 0 where
  pub queue : List QueueEntry
  pub max_size : ℕ
  pub max_retries : ℕ
  pub server_online : Bool
  pub replaying : Bool
  pub dead_letters : List QueueEntry
  pub storage : Storage

abbrev with_default : Option ℕ → ℕ → ℕ
with_default none d = d
with_default (some x) d = x

unfoldable pub init : Option ℕ → Option ℕ → Storage → OfflineQueue
init size retries storage = record {
  queue = [];
  max_size = with_default size 50;
  max_retries = with_default retries 3;
  server_online = true;
  replaying = false;
  dead_letters = [];
  storage = storage;
}

abbrev pub non_idempotent_post_paths : List String
non_idempotent_post_paths =
    "/api/v1/offramp/moonpay" ∷ "/api/v1/offramp/transak" ∷ "/api/v1/cex/route" ∷ "/api/v1/fund"
    ∷ []

unfoldable pub is_non_idempotent : QueueEntry → Bool
is_non_idempotent e = e.method === "POST" && any (λ p. p === e.path) non_idempotent_post_paths

-- `persistToStorage`; a write that fails is swallowed.
unfoldable pub persist : Bool → OfflineQueue → OfflineQueue
persist written q = elim q.storage [
  | no_adapter ↦ q
  | holding old ↦ if written then record q { storage = holding (some q.queue) } else q
]

-- The key of a new entry: `generated` is what `generateIdempotencyKey()` gives.
unfoldable pub key_for : String → QueueEntry → Option String
key_for generated e =
    if is_non_idempotent e
    then elim e.idempotency_key [ none ↦ some generated | some k ↦ some k ]
    else e.idempotency_key

-- The item that `enqueue` makes of a request: the id, the time stamp and the key are new.
unfoldable pub new_item : String → String → String → QueueEntry → QueueEntry
new_item id at generated e = record e {
  id = id;
  timestamp = at;
  retry_count = 0;
  idempotency_key = key_for generated e;
}

-- `enqueue`, once the storage is loaded: the id, or `none` for the `QueueFullError`.
unfoldable pub enqueue :
    String → String → String → Bool → QueueEntry → OfflineQueue → OfflineQueue × Option String
enqueue id at generated written e q = if leb q.max_size (length q.queue) then (q, none) else (
  persist written
      (record q { server_online = false; queue = q.queue ++ new_item id at generated e ∷ [] }),
  some id,
)

-- `removeById`: the first entry with the id goes.
unfoldable pub remove_by_id : String → List QueueEntry → List QueueEntry
remove_by_id id [] = []
remove_by_id id (e ∷ es) = if e.id === id then es else e ∷ remove_by_id id es

-- `entry.retryCount++` seen in the queue, which holds the same object.
unfoldable pub set_retries : String → ℕ → List QueueEntry → List QueueEntry
set_retries id n [] = []
set_retries id n (e ∷ es) =
    if e.id === id then record e { retry_count = n } ∷ es else e ∷ set_retries id n es

-- What `executeEntry` gives: it resolves, or rejects with an error that may be retried or not.
pub data Attempt : Type 0 where
  resolves : Attempt
  rejects : Bool → Attempt

abbrev pub bury : QueueEntry → OfflineQueue → OfflineQueue
bury e q = record q { dead_letters = q.dead_letters ++ e ∷ []; queue = remove_by_id e.id q.queue }

-- One round of the loop of `replay`, after the wait: the queue and the count of processed entries.
unfoldable pub conclude : Attempt → QueueEntry → OfflineQueue × ℕ → OfflineQueue × ℕ
conclude resolves e (q, processed) = (record q { queue = remove_by_id e.id q.queue }, processed + 1)
conclude (rejects false) e (q, processed) = (bury e q, processed)
conclude (rejects true) e (q, processed) =
    if leb q.max_retries (e.retry_count + 1)
    then (bury (record e { retry_count = e.retry_count + 1 }) q, processed)
    else (record q { queue = set_retries e.id (e.retry_count + 1) q.queue }, processed)

module _ (attempts : ℕ → Attempt) (arrivals : ℕ → List QueueEntry) where
  -- The loop over the snapshot; `arrivals i` is pushed to the queue while the i-th entry is awaited.
  unfoldable pub replay_loop : ℕ → List QueueEntry → OfflineQueue × ℕ → OfflineQueue × ℕ
  replay_loop i [] st = st
  replay_loop i (e ∷ es) (q, processed) =
      replay_loop (suc i) es
        (conclude (attempts i) e (record q { queue = q.queue ++ arrivals i }, processed))

  -- `replay`; the number is what the drain handlers are told, none where they are not called.
  unfoldable pub replay : Bool → OfflineQueue → OfflineQueue × Option ℕ
  replay written q = if q.replaying then (q, none) else elim q.queue [
    | [] ↦ (q, none)
    | e ∷ es ↦
        let (q', processed) = replay_loop 0 (e ∷ es) (record q { replaying = true }, 0) in
        (
          record (persist written q') { replaying = false },
          if leb 1 processed then some processed else none,
        )
  ]

-- `loadFromStorage`: the entries of the storage whose ids are not in the queue, behind it.
unfoldable pub merge : List QueueEntry → List QueueEntry → List QueueEntry → List QueueEntry
merge existing [] queue = queue
merge existing (e ∷ loaded) queue =
    merge existing loaded (if any (λ x. x.id === e.id) existing then queue else queue ++ e ∷ [])

unfoldable pub load_from_storage : OfflineQueue → OfflineQueue
load_from_storage q = elim q.storage [
  | no_adapter ↦ q
  | holding raw ↦ elim raw [
    | none ↦ q
    | some loaded ↦ record q { queue = merge q.queue loaded q.queue }
  ]
]

unfoldable pub clear_queue : OfflineQueue → OfflineQueue
clear_queue q = elim q.storage [
  | no_adapter ↦ record q { queue = [] }
  | holding old ↦ record q { queue = []; storage = holding none }
]

-- `setOnline`: whether a replay is started.
unfoldable pub set_online : Bool → OfflineQueue → OfflineQueue × Bool
set_online online q =
    (record q { server_online = online }, if q.server_online then false else online)

-- The body of the health timer: `none` where `checkHealth` rejects; whether a replay is started.
unfoldable pub poll : Option Bool → OfflineQueue → OfflineQueue × Bool
poll none q = (record q { server_online = false }, false)
poll (some online) q = (record q { server_online = online }, online && leb 1 (length q.queue))
