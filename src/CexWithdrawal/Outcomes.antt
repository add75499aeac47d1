-- ===== src/CexWithdrawal/Outcomes.antt =====
-- When a withdrawal is reported as a success, and where a request is routed.
use c_address_onboarding_bri.Prelude.{
  String, Bool, true, false, Option, none, some, ◌≡◌, ◌≢◌, ◌↔◌, refl, sym, subst, ap, ◌∙◌, List, [],
  ◌∷◌, if◌then◌else◌, ◌===◌,
}
use c_address_onboarding_bri.Prelude.Result.{ok}
use c_address_onboarding_bri.JsMap.{JsMap}
use c_address_onboarding_bri.JsMap
use c_address_onboarding_bri.JsMap.Laws.{get-set}
use c_address_onboarding_bri.JsText.{Text}
use c_address_onboarding_bri.CexWithdrawal.{
  pending, Answer, threw, not_ok, answered, KrakenData, kraken, by_refid, by_errors, Entry,
  register_exchange, route_withdrawal, handled,
}

abbrev pub no_errors : Option (List Text) → Bool
no_errors none = true
no_errors (some []) = true
no_errors (some (e ∷ es)) = false

-- The answer is a success without errors that names the withdrawal.
abbrev pub IsNamed : Text → Answer KrakenData → Type 0
IsNamed id a =
    (d : KrakenData) × (a ≡ answered d) × (no_errors d.error ≡ true) × (d.refid ≡ some id)

refid_named :
    (now : Text) (refid : Option Text)
    → (by_refid now refid).success ≡ true
    → (refid ≡ some (by_refid now refid).withdrawal_id)
      × ((by_refid now refid).withdrawal_id ≢ [])
      × ((by_refid now refid).status ≡ pending)
refid_named now none s = absurd cc
refid_named now (some []) s = absurd cc
refid_named now (some (c ∷ cs)) s = (refl, (λ e. cc), refl)

errors_named :
    (now : Text) (error : Option (List Text)) (refid : Option Text)
    → (by_errors now error refid).success ≡ true
    → (no_errors error ≡ true)
      × (refid ≡ some (by_errors now error refid).withdrawal_id)
      × ((by_errors now error refid).withdrawal_id ≢ [])
      × ((by_errors now error refid).status ≡ pending)
errors_named now none refid s = let (r, n, p) = refid_named now refid s in (refl, r, n, p)
errors_named now (some []) refid s = let (r, n, p) = refid_named now refid s in (refl, r, n, p)
errors_named now (some (e ∷ es)) refid s = absurd cc

named_success :
    (now : Text) (error : Option (List Text)) (id : Text)
    → no_errors error ≡ true
    → id ≢ []
    → (by_errors now error (some id)).success ≡ true
named_success now none [] h n = absurd (n refl)
named_success now none (c ∷ cs) h n = refl
named_success now (some []) [] h n = absurd (n refl)
named_success now (some []) (c ∷ cs) h n = refl
named_success now (some (e ∷ es)) id h n = absurd cc

-- A withdrawal from Kraken is reported as a success exactly when the exchange answered without errors
-- and named the withdrawal by a text that is not empty; the reported id is then this name, and the
-- status is pending.
pub kraken_iff :
    (now : Text) (a : Answer KrakenData)
    → (((kraken now a).success ≡ true) ↔ ((id : Text) × (id ≢ []) × IsNamed id a))
      × ((kraken now a).success ≡ true
          → IsNamed (kraken now a).withdrawal_id a × ((kraken now a).status ≡ pending))
unfolding kraken
kraken_iff now (threw why) =
    (((λ s. absurd cc), λ (id, n, (d, e, m, r)). absurd cc), λ s. absurd cc)
kraken_iff now (not_ok body) =
    (((λ s. absurd cc), λ (id, n, (d, e, m, r)). absurd cc), λ s. absurd cc)
kraken_iff now (answered d) = (
  (
    (λ s.
        let (n, r, ne, p) = errors_named now d.error d.refid s in
        ((by_errors now d.error d.refid).withdrawal_id, ne, (d, refl, n, r))),
    λ (id, ne, (f, e, n, r)).
        subst (λ x. (by_errors now x.error x.refid).success ≡ true) (sym (same f e))
          (ap (λ o. (by_errors now f.error o).success) r ∙ named_success now f.error id n ne),
  ),
  λ s. let (n, r, ne, p) = errors_named now d.error d.refid s in ((d, refl, n, r), p),
)
  where
    same : (f : KrakenData) → answered d ≡ answered f → d ≡ f
    same f e = cc

module _ {Config Request Outcome : Type 0} (to_lower_case : String → String) where
  -- After an exchange is registered, a request for it goes to its handler with its configuration,
  -- whatever the case of the name, and one for another exchange goes where it went before.
  pub route-register :
      (name other : String) (config : Config) (handler : Request → Config → Outcome) (req : Request)
      (handlers : JsMap (Entry Config Request Outcome))
      → route_withdrawal to_lower_case other req
          (register_exchange to_lower_case name config handler handlers)
        ≡ (if to_lower_case name === to_lower_case other
            then ok (handler req config)
            else route_withdrawal to_lower_case other req handlers)
  unfolding route_withdrawal register_exchange
  route-register name other config handler req handlers =
      ap (handled to_lower_case req) (
        get-set (to_lower_case name) (to_lower_case other)
          (record { config = config; handler = handler }) handlers)
      ∙ by (to_lower_case name === to_lower_case other)
    where
      by :
          (b : Bool)
          → handled to_lower_case req (
              if b
              then some (record { config = config; handler = handler })
              else JsMap.get (to_lower_case other) handlers)
            ≡ (if b
                then ok (handler req config)
                else handled to_lower_case req (JsMap.get (to_lower_case other) handlers))
      by true = refl
      by false = refl
