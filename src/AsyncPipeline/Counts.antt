-- ===== src/AsyncPipeline/Counts.antt =====
-- The buffered counters of api/src/services/asyncPipeline.ts against the calls made.
use c_address_onboarding_bri.Prelude.{
  ℕ, suc, String, Bool, true, false, Option, none, some, ◌+◌, ◌-◌, ltb, if◌then◌else◌, List, [],
  ◌∷◌, ◌===◌, ◌≡◌, refl, sym, ap, ◌∙◌, ===_iff, ===-cases, Option-cases, inl, inr, arith,
}
use c_address_onboarding_bri.JsMap.{JsMap, get, set}
use c_address_onboarding_bri.JsMap.Laws.{get-set}
use c_address_onboarding_bri.AsyncPipeline.{
  Labels, BufferEntry, Pipeline, begin_refresh, is_backpressured, schedule_flush, count_up,
  buffer_key, buffer_analytics, Fate, queued, dropped, backpressure_check_interval_ms,
}

-- What the buffer holds for a key.
abbrev pub value_of : Option BufferEntry → ℕ
value_of none = 0
value_of (some e) = e.value

abbrev one_more : Bool → ℕ → ℕ
one_more true n = suc n
one_more false n = n

moved :
    (b : Bool) (total held held' more : ℕ)
    → total ≡ held' + more
    → held' ≡ one_more b held
    → total ≡ held + one_more b more
moved true total held held' more h e = omega arith
moved false total held held' more h e = omega arith

value_of-set :
    (key k : String) (e : BufferEntry) (m : JsMap BufferEntry)
    → e.value ≡ suc (value_of (get key m))
    → value_of (get k (set key e m)) ≡ one_more (key === k) (value_of (get k m))
value_of-set key k e m h = ap (λ o. value_of o) (get-set key k e m) ∙ (elim (===-cases key k) [
  | inr ne ↦
      ap (λ b. value_of (if b then some e else get k m)) ne
      ∙ ap (λ b. one_more b (value_of (get k m))) (sym ne)
  | inl same ↦
      let yes : (key === k) ≡ true = (===_iff key k).1 same in
      ap (λ b. value_of (if b then some e else get k m)) yes
      ∙ (h
          ∙ (ap (λ j. suc (value_of (get j m))) same
              ∙ ap (λ b. one_more b (value_of (get k m))) (sym yes)))
])

-- The buffer after a count, by what it held.
abbrev counted :
    String → String → Labels → JsMap BufferEntry → Option BufferEntry → JsMap BufferEntry
counted key event labels m o = elim o [
  | some e ↦ set key (record e { value = e.value + 1 }) m
  | none ↦ set key (record { event = event; labels = labels; value = 1 }) m
]

count_up_lem :
    (key event : String) (labels : Labels) (m : JsMap BufferEntry) (k : String)
    → value_of (get k (count_up key event labels m)) ≡ one_more (key === k) (value_of (get k m))
unfolding count_up
count_up_lem key event labels m k = elim (Option-cases (get key m)) [
  | inl e ↦
      ap (λ o. value_of (get k (counted key event labels m o))) e
      ∙ value_of-set key k (record { event = event; labels = labels; value = 1 }) m
          (ap (λ o. suc (value_of o)) (sym e))
  | inr (x, e) ↦
      ap (λ o. value_of (get k (counted key event labels m o))) e
      ∙ value_of-set key k (record x { value = x.value + 1 }) m
          (let h = ap (λ o. value_of o) e in omega arith)
]

begin_refresh_lem :
    (now : ℕ) (s : Pipeline)
    → (begin_refresh now s).0.analytics_buffer ≡ s.analytics_buffer
      × (begin_refresh now s).0.backpressured ≡ s.backpressured
unfolding begin_refresh
begin_refresh_lem now s =
    elim (ltb (now - s.last_backpressure_check) backpressure_check_interval_ms)
      as (λ b.
        let r : Pipeline × Bool =
          if b then (s, false) else (record s { last_backpressure_check = now }, true) in
        r.0.analytics_buffer ≡ s.analytics_buffer × r.0.backpressured ≡ s.backpressured) [
          | true ↦ (refl, refl)
          | false ↦ (refl, refl)
        ]

module _ (show_labels : Labels → String) where
  -- The calls of `bufferAnalytics`, each with its time, event and labels.
  unfoldable pub buffer_all : List (ℕ × String × Labels) → Pipeline → Pipeline
  buffer_all [] s = s
  buffer_all ((now, event, labels) ∷ calls) s =
      buffer_all calls (buffer_analytics show_labels true now event labels s).0

  abbrev pub occurrences : String → List (ℕ × String × Labels) → ℕ
  occurrences k [] = 0
  occurrences k ((now, event, labels) ∷ calls) =
      one_more (buffer_key show_labels event labels === k) (occurrences k calls)

  buffer_analytics_lem :
      (now : ℕ) (event : String) (labels : Labels) (s : Pipeline)
      → s.backpressured ≡ false
      → (buffer_analytics show_labels true now event labels s).0.backpressured ≡ false
        × (buffer_analytics show_labels true now event labels s).0.analytics_buffer
          ≡ count_up (buffer_key show_labels event labels) event labels s.analytics_buffer
  unfolding buffer_analytics is_backpressured schedule_flush begin_refresh
  buffer_analytics_lem now event labels s e =
      let (buffer, busy) = begin_refresh_lem now s in
      let after = begin_refresh now s in
      let key = buffer_key show_labels event labels in
      let whole : Pipeline × Fate = (
        schedule_flush (record after.0 {
          analytics_buffer = count_up key event labels after.0.analytics_buffer;
        }),
        queued,
      ) in
      let step : buffer_analytics show_labels true now event labels s ≡ whole =
        ap (λ b. if b then (after.0, dropped) else whole) e in
      (
        ap (λ r. r.0.backpressured) step ∙ (busy ∙ e),
        ap (λ r. r.0.analytics_buffer) step ∙ ap (λ m. count_up key event labels m) buffer,
      )

  -- While there is no backpressure, what the buffer holds for a key after any calls of `bufferAnalytics` is
  -- what it held before and the number of these calls whose event and labels have this key.
  pub buffer_all-occurrences :
      (calls : List (ℕ × String × Labels)) (s : Pipeline) (k : String)
      → s.backpressured ≡ false
      → value_of (get k (buffer_all calls s).analytics_buffer)
        ≡ value_of (get k s.analytics_buffer) + occurrences k calls
  unfolding buffer_all
  buffer_all-occurrences [] s k free = omega arith
  buffer_all-occurrences ((now, event, labels) ∷ calls) s k free =
      let s' = (buffer_analytics show_labels true now event labels s).0 in
      let (free', buffer) = buffer_analytics_lem now event labels s free in
      let key = buffer_key show_labels event labels in
      let rest = buffer_all-occurrences calls s' k free' in
      let counts =
        ap (λ m. value_of (get k m)) buffer ∙ count_up_lem key event labels s.analytics_buffer k in
      moved (key === k) _ (value_of (get k s.analytics_buffer))
        (value_of (get k s'.analytics_buffer)) (occurrences k calls) rest counts
