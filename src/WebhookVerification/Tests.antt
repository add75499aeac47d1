-- ===== src/WebhookVerification/Tests.antt =====
-- Webhooks at concrete inputs; both keyed hashes give their payload, SHA-256 gives one text.
use c_address_onboarding_bri.Prelude.{String, false, some, none, ◌≡◌, refl, [], ◌∷◌}
use c_address_onboarding_bri.Prelude.Result.{err}
use c_address_onboarding_bri.JsText.{Text, parse_int}
use c_address_onboarding_bri.RedisCache.{RedisServer, connected}
use c_address_onboarding_bri.RedisCache.TableServer.{Store, table_server}
use c_address_onboarding_bri.WebhookVerification.{
  Mark, Secrets, Webhook, transak, marks, verify_webhook, transak_verify, timing_safe_compare,
  look_for_mark, range_error, is_out_of_window,
}
use c_address_onboarding_bri.WebhookVerification.Replay.{deliver}

abbrev server : RedisServer Mark (Store Mark)
server = table_server

abbrev hmac : Text → Text → Text
hmac secret payload = payload

abbrev sha256 : Text → String
sha256 t = "h"

abbrev empty : Store Mark
empty = λ k. none

abbrev secrets : Secrets
secrets = record { moonpay_secret = none; transak_secret = some (120 ∷ []) }

-- `sha256=a`, the signature of the body `a`.
abbrev signature : Text
signature = 115 ∷ 104 ∷ 97 ∷ 50 ∷ 53 ∷ 54 ∷ 61 ∷ 97 ∷ []

abbrev webhook : Webhook
webhook = record { provider = transak; signature = some signature; payload = 97 ∷ [] }

first_is_marked : deliver server hmac hmac sha256 5 secrets webhook (connected empty) ≡ marks
unfolding verify_webhook transak_verify timing_safe_compare look_for_mark
first_is_marked = refl

-- A signature with a character that is not ASCII, of the right length, makes the comparison throw.
throws : timing_safe_compare (97 ∷ []) (233 ∷ []) ≡ err range_error
unfolding timing_safe_compare
throws = refl

-- A timestamp that is no number is not out of the window.
no_number : is_out_of_window 1000000 (parse_int (120 ∷ [])) ≡ false
unfolding is_out_of_window parse_int
no_number = refl
