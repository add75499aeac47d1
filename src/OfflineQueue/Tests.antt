-- ===== src/OfflineQueue/Tests.antt =====
-- The queue at concrete inputs.
use c_address_onboarding_bri.Prelude.{ℕ, ◌≡◌, refl, true, false, none, some, List, [], ◌∷◌}
use c_address_onboarding_bri.OfflineQueue
use c_address_onboarding_bri.OfflineQueue.{
  QueueEntry, OfflineQueue, Storage, holding, Attempt, resolves, rejects, enqueue, replay,
  load_from_storage, is_non_idempotent,
}
use c_address_onboarding_bri.OfflineQueue.Drain.{Replayed, replay-Replayed}

abbrev fund : QueueEntry
fund = record {
  id = "1";
  timestamp = "t";
  retry_count = 2;
  method = "POST";
  path = "/api/v1/fund";
  body = "{}";
  params = "";
  idempotency_key = some "k1";
}

abbrev quote : QueueEntry
quote = record fund {
  id = "2";
  retry_count = 0;
  method = "GET";
  path = "/api/v1/quote";
  idempotency_key = none;
}

abbrev late : QueueEntry
late = record quote { id = "3" }

abbrev waiting : OfflineQueue
waiting = record {
  queue = fund ∷ quote ∷ [];
  max_size = 3;
  max_retries = 3;
  server_online = true;
  replaying = false;
  dead_letters = [];
  storage = holding (some (late ∷ []));
}

-- Every request fails again.
abbrev failing : ℕ → Attempt
failing i = rejects true

abbrev one_late : ℕ → List QueueEntry
one_late i = late ∷ []

replay-failing :
    (replay failing one_late true waiting).0.dead_letters ≡ record fund { retry_count = 3 } ∷ []
unfolding replay OfflineQueue.replay_loop OfflineQueue.conclude OfflineQueue.remove_by_id
    OfflineQueue.set_retries OfflineQueue.persist
replay-failing = refl

replay-Replayed_example :
    Replayed failing one_late waiting (fund ∷ quote ∷ []) (replay failing one_late true waiting)
replay-Replayed_example = replay-Replayed failing one_late true waiting refl (refl, (refl, tt))
