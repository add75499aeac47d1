-- ===== src/Telemetry/Delivered.antt =====
-- What the telemetry client sends, over any sequence of its operations.
use mathlib.Core.List.{append_assoc, append-nil}
use c_address_onboarding_bri.Prelude.{
  ℕ, Bool, true, false, ◌≡◌, refl, sym, ap, ◌∙◌, List, [], ◌∷◌, ◌++◌, length, ltb, if◌then◌else◌,
  arith, Bool-cases, inl, inr, Option, String,
}
use c_address_onboarding_bri.LastEntries.{last, last-last, last_all}
use c_address_onboarding_bri.Telemetry.{
  Measurement, Runtime, TelemetryEvent, TelemetryClient, event_of, trimmed, record_event, flush,
  destroy, construct, size_or_default, TelemetryOptions,
}

pub data Op : Type 0 where
  measure : Measurement → Op
  flush_now end_now : Op

abbrev apply : Runtime → Op → TelemetryClient → TelemetryClient
apply rt (measure m) c = record_event rt m c
apply rt flush_now c = flush c
apply rt end_now c = destroy c

abbrev pub run : Runtime → List Op → TelemetryClient → TelemetryClient
run rt [] c = c
run rt (op ∷ ops) c = run rt ops (apply rt op c)

-- The batches that are due: at a flush and at the end, the last of the events since the flush before.
abbrev batch_then : List TelemetryEvent → List (List TelemetryEvent) → List (List TelemetryEvent)
batch_then [] rest = rest
batch_then (e ∷ es) rest = (e ∷ es) ∷ rest

abbrev pub due : Runtime → ℕ → List TelemetryEvent → List Op → List (List TelemetryEvent)
due rt size since [] = []
due rt size since (measure m ∷ ops) = due rt size (since ++ event_of rt m ∷ []) ops
due rt size since (flush_now ∷ ops) = batch_then (last size since) (due rt size [] ops)
due rt size since (end_now ∷ ops) = batch_then (last size since) []

trimmed_lem : (size : ℕ) (es : List TelemetryEvent) → trimmed size es ≡ last size es
trimmed_lem size es = elim (Bool-cases (ltb size (length es))) [
  | inl t ↦ ap (λ b. if b then last size es else es) t
  | inr f ↦ ap (λ b. if b then last size es else es) f ∙ sym (last_all size es (ground (arith, f)))
]

-- A client that is at work, and one that has ended.
abbrev pub working : ℕ → List TelemetryEvent → Bool → List (List TelemetryEvent) → TelemetryClient
working size queue timer sent = record {
  enabled = true;
  max_queue_size = size;
  queue = queue;
  has_timer = timer;
  destroyed = false;
  sent = sent;
}

abbrev ended : ℕ → List (List TelemetryEvent) → TelemetryClient
ended size sent = record {
  enabled = true;
  max_queue_size = size;
  queue = [];
  has_timer = false;
  destroyed = true;
  sent = sent;
}

run-ended :
    (rt : Runtime) (ops : List Op) (size : ℕ) (sent : List (List TelemetryEvent))
    → (run rt ops (ended size sent)).sent ≡ sent
unfolding record_event flush destroy
run-ended rt [] size sent = refl
run-ended rt (measure m ∷ ops) size sent = run-ended rt ops size sent
run-ended rt (flush_now ∷ ops) size sent = run-ended rt ops size sent
run-ended rt (end_now ∷ ops) size sent = run-ended rt ops size sent

flush-batch_then :
    (rt : Runtime) (ops : List Op) (size : ℕ) (timer : Bool) (queue : List TelemetryEvent)
    (sent rest : List (List TelemetryEvent))
    → ((s : List (List TelemetryEvent)) → (run rt ops (working size [] timer s)).sent ≡ s ++ rest)
    → (run rt ops (flush (working size queue timer sent))).sent ≡ sent ++ batch_then queue rest
unfolding flush
flush-batch_then rt ops size timer [] sent rest h = h sent
flush-batch_then rt ops size timer (e ∷ es) sent rest h =
    h (sent ++ (e ∷ es) ∷ []) ∙ append_assoc sent ((e ∷ es) ∷ []) rest

destroy-batch_then :
    (rt : Runtime) (ops : List Op) (size : ℕ) (timer : Bool) (queue : List TelemetryEvent)
    (sent : List (List TelemetryEvent))
    → (run rt ops (destroy (working size queue timer sent))).sent ≡ sent ++ batch_then queue []
unfolding flush destroy
destroy-batch_then rt ops size timer [] sent = run-ended rt ops size sent ∙ sym (append-nil sent)
destroy-batch_then rt ops size timer (e ∷ es) sent = run-ended rt ops size (sent ++ (e ∷ es) ∷ [])

record_event-last :
    (rt : Runtime) (m : Measurement) (size : ℕ) (timer : Bool) (since : List TelemetryEvent)
    (sent : List (List TelemetryEvent))
    → record_event rt m (working size (last size since) timer sent)
      ≡ working size (last size (since ++ event_of rt m ∷ [])) timer sent
unfolding record_event
record_event-last rt m size timer since sent =
    ap (λ q. working size q timer sent)
      (trimmed_lem size (last size since ++ event_of rt m ∷ [])
        ∙ last-last size since (event_of rt m ∷ []))

run-working :
    (rt : Runtime) (ops : List Op) (size : ℕ) (timer : Bool) (since : List TelemetryEvent)
    (sent : List (List TelemetryEvent))
    → (run rt ops (working size (last size since) timer sent)).sent ≡ sent ++ due rt size since ops
run-working rt [] size timer since sent = sym (append-nil sent)
run-working rt (measure m ∷ ops) size timer since sent =
    ap (λ c. (run rt ops c).sent) (record_event-last rt m size timer since sent)
    ∙ run-working rt ops size timer (since ++ event_of rt m ∷ []) sent
run-working rt (flush_now ∷ ops) size timer since sent =
    flush-batch_then rt ops size timer (last size since) sent (due rt size [] ops) (λ s.
      ap (λ q. (run rt ops (working size q timer s)).sent) (sym (last_all size [] (omega arith)))
      ∙ run-working rt ops size timer [] s)
run-working rt (end_now ∷ ops) size timer since sent =
    destroy-batch_then rt ops size timer (last size since) sent

-- A new client that telemetry is switched on for sends, over any sequence of events, flushes and ends,
-- at each flush and at the first end one batch of the last events since the flush before, in their order
-- and at most the size of its queue, and no batch if there are none; after the first end it sends nothing.
pub construct-sends :
    (rt : Runtime) (ops : List Op) (options : TelemetryOptions) (env : Option String)
    → (construct options env).enabled ≡ true
    → (run rt ops (construct options env)).sent
      ≡ due rt (construct options env).max_queue_size [] ops
unfolding construct
construct-sends rt ops options env e =
    ap (λ b. (run rt ops (record (working size [] timer []) { enabled = b })).sent) e
    ∙ ap (λ q. (run rt ops (working size q timer [])).sent) (sym (last_all size [] (omega arith)))
    ∙ run-working rt ops size timer [] []
  where
    size : ℕ
    size = size_or_default options.max_queue_option

    timer : Bool
    timer = (construct options env).has_timer
