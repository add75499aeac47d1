-- ===== src/AsyncPipeline.antt =====
-- Work kept off the response path, api/src/services/asyncPipeline.ts: backpressure, the buffer of analytics
-- counters, and the fallbacks. The queue is outside: how a call of it ends is an argument.
pub mod Counts
mod Tests
use c_address_onboarding_bri.Prelude.{
  ℕ, suc, String, Bool, true, false, Option, none, some, ◌+◌, ◌-◌, ◌||◌, not, if◌then◌else◌, ltb,
  List, [], ◌∷◌, ◌++◌, map,
}
use c_address_onboarding_bri.Json.{◌+++◌}
use c_address_onboarding_bri.JsMap.{JsMap, get, set, size}

abbrev pub Labels : Type 0
Labels = List (String × String)

pub record BufferEntry : Type 0 where
  pub event : String
  pub labels : Labels
  pub value : ℕ

-- The state of the module; whether the flush timer is set; the batches given to the queue and accepted.
pub record Pipeline : Type 0 where
  pub backpressured : Bool
  pub last_backpressure_check : ℕ
  pub analytics_buffer : JsMap BufferEntry
  pub flush_timer : Bool
  pub batches : List (List BufferEntry)

unfoldable pub backpressure_check_interval_ms : ℕ
backpressure_check_interval_ms = 1000

-- `refreshBackpressure` up to its `await`, and whether it asks for the depth.
unfoldable pub begin_refresh : ℕ → Pipeline → Pipeline × Bool
begin_refresh now s =
    if ltb (now - s.last_backpressure_check) backpressure_check_interval_ms
    then (s, false)
    else (record s { last_backpressure_check = now }, true)

-- The rest of it, with the depth, or nothing where the queue does not answer.
unfoldable pub depth_known : ℕ → Option ℕ → Pipeline → Pipeline
depth_known threshold none s = s
depth_known threshold (some depth) s = record s { backpressured = ltb threshold depth }

unfoldable pub is_backpressured : ℕ → Pipeline → Pipeline × Bool
is_backpressured now s = ((begin_refresh now s).0, s.backpressured)

unfoldable pub schedule_flush : Pipeline → Pipeline
schedule_flush s = record s { flush_timer = true }

unfoldable pub flush_entries : Bool → JsMap BufferEntry → Pipeline → Pipeline
flush_entries accepted [] s = s
flush_entries accepted (e ∷ es) s = record s {
  analytics_buffer = [];
  batches = if accepted then s.batches ++ map (λ b. b.1) (e ∷ es) ∷ [] else s.batches;
}

-- `flushAnalyticsBuffer`; `accepted` is whether the queue takes the batch.
unfoldable pub flush_analytics_buffer : Bool → Pipeline → Pipeline
flush_analytics_buffer accepted s = flush_entries accepted s.analytics_buffer s

-- The timer runs out.
unfoldable pub flush_timer_fires : Bool → Pipeline → Pipeline
flush_timer_fires accepted s = flush_analytics_buffer accepted (record s { flush_timer = false })

unfoldable pub drain_analytics_buffer : Bool → Pipeline → Pipeline
drain_analytics_buffer accepted s =
    flush_analytics_buffer accepted (record s { flush_timer = false })

-- What becomes of a piece of work: given to the queue or the buffer, done by the caller's fallback, or dropped.
pub data Fate : Type 0 where
  queued fell_back dropped : Fate

unfoldable pub enqueue_audit : Bool → Bool → Fate
enqueue_audit enabled accepted =
    if not enabled then fell_back else if accepted then queued else fell_back

unfoldable pub enqueue_funding_metrics : Bool → ℕ → Bool → Pipeline → Pipeline × Fate
enqueue_funding_metrics enabled now accepted s =
    if not enabled
    then (s, fell_back)
    else let (s', busy) = is_backpressured now s in
      if busy then (s', fell_back) else if accepted then (s', queued) else (s', fell_back)

-- One more of an event in the buffer.
unfoldable pub count_up : String → String → Labels → JsMap BufferEntry → JsMap BufferEntry
count_up key event labels buffer = elim (get key buffer) [
  | some e ↦ set key (record e { value = e.value + 1 }) buffer
  | none ↦ set key (record { event = event; labels = labels; value = 1 }) buffer
]

module _ (show_labels : Labels → String) where
  unfoldable pub buffer_key : String → Labels → String
  buffer_key event labels = event +++ ":" +++ show_labels labels

  unfoldable pub buffer_analytics : Bool → ℕ → String → Labels → Pipeline → Pipeline × Fate
  buffer_analytics enabled now event labels s =
      if not enabled
      then (s, fell_back)
      else let (s', busy) = is_backpressured now s in
        if busy then (s', dropped) else (
          schedule_flush (record s' {
            analytics_buffer = count_up (buffer_key event labels) event labels s'.analytics_buffer;
          }),
          queued,
        )

  abbrev pub enqueue_counter_increment : Bool → ℕ → String → Labels → Pipeline → Pipeline × Fate
  enqueue_counter_increment = buffer_analytics
