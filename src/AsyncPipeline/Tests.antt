-- ===== src/AsyncPipeline/Tests.antt =====
-- A few calls on an empty buffer, and a flush.
use c_address_onboarding_bri.Prelude.{ℕ, String, true, false, List, [], ◌∷◌, ◌≡◌, refl}
use c_address_onboarding_bri.JsMap.{get, set}
use c_address_onboarding_bri.AsyncPipeline.{
  Labels, Pipeline, begin_refresh, is_backpressured, schedule_flush, count_up, buffer_key,
  buffer_analytics, flush_analytics_buffer, flush_entries, backpressure_check_interval_ms,
}
use c_address_onboarding_bri.AsyncPipeline.Counts.{buffer_all}

abbrev show : Labels → String
show l = "{}"

abbrev idle : Pipeline
idle = record {
  backpressured = false;
  last_backpressure_check = 0;
  analytics_buffer = [];
  flush_timer = false;
  batches = [];
}

abbrev calls : List (ℕ × String × Labels)
calls = (5, "a", []) ∷ (6, "b", []) ∷ (7, "a", []) ∷ []

flush-calls :
    (flush_analytics_buffer true (buffer_all show calls idle)).batches
    ≡ (record { event = "a"; labels = []; value = 2 }
        ∷ record { event = "b"; labels = []; value = 1 }
        ∷ [])
      ∷ []
unfolding flush_analytics_buffer flush_entries buffer_all buffer_analytics is_backpressured
    schedule_flush begin_refresh count_up buffer_key get set backpressure_check_interval_ms
flush-calls = refl
