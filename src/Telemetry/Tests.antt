-- ===== src/Telemetry/Tests.antt =====
-- Telemetry at concrete events.
use c_address_onboarding_bri.Prelude.{String, true, none, some, ◌≡◌, refl, List, [], ◌∷◌}
use c_address_onboarding_bri.Telemetry.{
  Measurement, Runtime, TelemetryOptions, construct, event_of, record_event, flush, destroy,
}
use c_address_onboarding_bri.Telemetry.Delivered.{
  Op, measure, flush_now, end_now, run, due, construct-sends,
}

abbrev runtime : Runtime
runtime = record { version_of_sdk = "1"; version = some "v20"; platform_name = some "" }

abbrev options : TelemetryOptions
options = record { endpoint = some "/telemetry"; enabled_option = none; max_queue_option = some 2 }

abbrev timed : String → Measurement
timed method = record { method = method; response_time_ms = 12; error_type = none }

abbrev ops : List Op
ops =
    measure (timed "a")
    ∷ measure (timed "b")
    ∷ measure (timed "c")
    ∷ flush_now
    ∷ flush_now
    ∷ measure (timed "d")
    ∷ end_now
    ∷ measure (timed "e")
    ∷ flush_now
    ∷ []

two_batches_run :
    (run runtime ops (construct options none)).sent
    ≡ (event_of runtime (timed "b") ∷ event_of runtime (timed "c") ∷ [])
      ∷ (event_of runtime (timed "d") ∷ [])
      ∷ []
unfolding construct record_event flush destroy
two_batches_run = refl

is_switched_on : (construct options none).enabled ≡ true
unfolding construct
is_switched_on = refl

construct-sends_example :
    (run runtime ops (construct options none)).sent
    ≡ due runtime (construct options none).max_queue_size [] ops
construct-sends_example = construct-sends runtime ops options none is_switched_on
