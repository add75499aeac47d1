-- ===== src/Telemetry.antt =====
-- Telemetry of the SDK, sdk/src/telemetry.ts, the class TelemetryClient: the bounded queue, its flushes
-- and the end. The texts of the environment are arguments; the transport is the list of what was sent.
pub mod Delivered
mod Tests
use c_address_onboarding_bri.Prelude.{
  ℕ, String, Bool, true, false, not, Option, none, some, ◌-◌, ◌&&◌, ◌||◌, if◌then◌else◌, ltb, ◌===◌,
  List, [], ◌∷◌, ◌++◌, length, drop,
}

-- What a caller of `record` gives.
pub record Measurement : Type 0 where
  pub method : String
  pub response_time_ms : ℕ
  pub error_type : Option String

-- What the client knows of the runtime: `SDK_VERSION`, `process.version` and `process.platform`.
pub record Runtime : Type 0 where
  pub version_of_sdk : String
  pub version : Option String
  pub platform_name : Option String

pub record TelemetryEvent : Type 0 where
  pub sdk_version : String
  pub node_version : String
  pub platform : String
  pub measurement : Measurement

-- `text || 'unknown'`
abbrev pub or_unknown : Option String → String
or_unknown none = "unknown"
or_unknown (some s) = if s === "" then "unknown" else s

abbrev pub event_of : Runtime → Measurement → TelemetryEvent
event_of rt m = record {
  sdk_version = rt.version_of_sdk;
  node_version = or_unknown rt.version;
  platform = or_unknown rt.platform_name;
  measurement = m;
}

-- The client; the batches that were sent stand in their order.
pub record TelemetryClient : Type 0 where
  pub enabled : Bool
  pub max_queue_size : ℕ
  pub queue : List TelemetryEvent
  pub has_timer : Bool
  pub destroyed : Bool
  pub sent : List (List TelemetryEvent)

pub record TelemetryOptions : Type 0 where
  pub endpoint : Option String
  pub enabled_option : Option Bool
  pub max_queue_option : Option ℕ

abbrev pub is_enabled : Option Bool → Option String → Bool
is_enabled (some b) env = b
is_enabled none none = true
is_enabled none (some s) = not (s === "false")

abbrev pub is_given : Option String → Bool
is_given none = false
is_given (some s) = not (s === "")

abbrev pub size_or_default : Option ℕ → ℕ
size_or_default none = 1000
size_or_default (some n) = n

-- `start` is called once, from the constructor, when there is no timer.
unfoldable pub construct : TelemetryOptions → Option String → TelemetryClient
construct o env = record {
  enabled = is_enabled o.enabled_option env;
  max_queue_size = size_or_default o.max_queue_option;
  queue = [];
  has_timer = is_enabled o.enabled_option env && is_given o.endpoint;
  destroyed = false;
  sent = [];
}

-- `splice` of what is more than the size.
abbrev pub trimmed : ℕ → List TelemetryEvent → List TelemetryEvent
trimmed size queue = if ltb size (length queue) then drop (length queue - size) queue else queue

unfoldable pub record_event : Runtime → Measurement → TelemetryClient → TelemetryClient
record_event rt m c =
    if not c.enabled || c.destroyed
    then c
    else record c { queue = trimmed c.max_queue_size (c.queue ++ event_of rt m ∷ []) }

abbrev pub send_batch : List TelemetryEvent → TelemetryClient → TelemetryClient
send_batch [] c = c
send_batch (e ∷ es) c = record c { queue = []; sent = c.sent ++ (e ∷ es) ∷ [] }

-- `flush`, which the timer calls too.
unfoldable pub flush : TelemetryClient → TelemetryClient
flush c = send_batch c.queue c

unfoldable pub destroy : TelemetryClient → TelemetryClient
destroy c = if c.destroyed then c else flush (record c { destroyed = true; has_timer = false })
