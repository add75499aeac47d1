-- ===== src/WebhookVerification.antt =====
-- Incoming webhooks, api/src/middleware/webhookVerification.ts. Texts of headers and bodies are lists of
-- UTF-16 units; HMAC and SHA-256 are parameters; Redis is the interface of RedisCache.
pub mod Replay
mod Tests
use c_address_onboarding_bri.Prelude.{
  ℕ, zero, suc, Bool, true, false, not, Option, none, some, String, ◌+◌, ◌*◌, ◌&&◌, ◌||◌,
  if◌then◌else◌, ltb, ◌==◌, List, [], ◌∷◌, ◌++◌, length, drop, find,
}
use c_address_onboarding_bri.Prelude.Result.{Result, ok, err}
use c_address_onboarding_bri.Json.{◌+++◌}
use c_address_onboarding_bri.JsText.{Text, Signed, same_text, split_on, parse_int}
use c_address_onboarding_bri.RedisCache.{RedisServer, Client, no_client, failing, connected}

unfoldable pub replay_window_ms : ℕ
replay_window_ms = 300000

-- The number of bytes of a text in UTF-8.
abbrev pub byte_length : Text → ℕ
byte_length [] = 0
byte_length (c ∷ cs) = (if ltb c 128 then 1 else if ltb c 2048 then 2 else 3) + byte_length cs

-- `timingSafeCompare`: `crypto.timingSafeEqual` throws if the numbers of bytes differ.
pub data Thrown : Type 0 where
  range_error : Thrown

unfoldable pub timing_safe_compare : Text → Text → Result Thrown Bool
timing_safe_compare a b =
    if length a == length b
    then (if byte_length a == byte_length b then ok (same_text a b) else err range_error)
    else ok false

-- `part.startsWith(c + '=')`
abbrev pub starts_with_field : ℕ → Text → Bool
starts_with_field c (a ∷ b ∷ cs) = a == c && b == 61
starts_with_field c (a ∷ []) = false
starts_with_field c [] = false

-- The first part for a letter, without the letter and the sign after it.
abbrev pub field : ℕ → Text → Option Text
field c signature = elim (find (starts_with_field c) (split_on 44 signature)) [
  | none ↦ none
  | some part ↦ some (drop 2 part)
]

-- The age of a timestamp in seconds is out of the window; an age that is NaN is not.
unfoldable pub is_out_of_window : ℕ → Option Signed → Bool
is_out_of_window now none = false
is_out_of_window now (some (true, s)) = ltb replay_window_ms (now + s * 1000)
is_out_of_window now (some (false, s)) =
    ltb (s * 1000 + replay_window_ms) now || ltb (now + 30000) (s * 1000)

-- A verifier: at a time, for a payload, a signature and a secret.
abbrev pub Verifier : Type 0
Verifier = ℕ → Text → Text → Text → Result Thrown Bool

module _ (hmac_base64 hmac_hex : Text → Text → Text) where
  abbrev pub moonpay_fields : ℕ → Text → Text → Option Text → Option Text → Result Thrown Bool
  moonpay_fields now payload secret none t = ok false
  moonpay_fields now payload secret (some s) none = ok false
  moonpay_fields now payload secret (some s) (some t) =
      if is_out_of_window now (parse_int t)
      then ok false
      else timing_safe_compare (hmac_base64 secret (t ++ 46 ∷ payload)) s

  unfoldable pub moonpay_verify : Verifier
  moonpay_verify now payload signature secret =
      moonpay_fields now payload secret (field 115 signature) (field 116 signature)

  -- `sha256=` before the hexadecimal text.
  unfoldable pub transak_verify : Verifier
  transak_verify now payload signature secret =
      timing_safe_compare (115 ∷ 104 ∷ 97 ∷ 50 ∷ 53 ∷ 54 ∷ 61 ∷ hmac_hex secret payload) signature

pub data Provider : Type 0 where
  moonpay transak : Provider

abbrev pub name_of : Provider → String
name_of moonpay = "moonpay"
name_of transak = "transak"

-- `VERIFIERS`: the secret of each provider that is registered; the empty secret takes it out.
pub record Secrets : Type 0 where
  pub moonpay_secret : Option Text
  pub transak_secret : Option Text

abbrev pub if_truthy : Text → Option Text
if_truthy [] = none
if_truthy (c ∷ cs) = some (c ∷ cs)

unfoldable pub register_webhook_verifier : Provider → Text → Secrets → Secrets
register_webhook_verifier moonpay secret s = record s { moonpay_secret = if_truthy secret }
register_webhook_verifier transak secret s = record s { transak_secret = if_truthy secret }

abbrev pub secret_of : Provider → Secrets → Option Text
secret_of moonpay s = s.moonpay_secret
secret_of transak s = s.transak_secret

pub data Verdict : Type 0 where
  provider_not_configured missing_signature invalid_signature already_processed : Verdict
  crashed : Thrown → Verdict
  -- The signature is to be marked, and then the request goes on; or it goes on unchecked.
  marks goes_on : Verdict

-- The status codes of the refusals.
unfoldable pub status_of : Verdict → Option ℕ
status_of provider_not_configured = some 503
status_of missing_signature = some 401
status_of invalid_signature = some 401
status_of already_processed = some 401
status_of (crashed thrown) = none
status_of marks = none
status_of goes_on = none

-- What the GET of the replay check finds: a mark, none, or that it cannot be asked.
pub data Seen : Type 0 where
  seen unseen unchecked : Seen

-- The value `'1'` that marks a signature.
pub data Mark : Type 0 where
  mark : Mark

-- A request: the header of the signature, and the text of the body.
pub record Webhook : Type 0 where
  pub provider : Provider
  pub signature : Option Text
  pub payload : Text

module _ {R : Type 0} (server : RedisServer Mark R) (hmac_base64 hmac_hex : Text → Text → Text)
    (sha256 : Text → String) where
  unfoldable pub replay_key : Provider → Text → String
  replay_key provider signature =
      "webhook:replay:" +++ name_of provider +++ ":" +++ sha256 signature

  abbrev pub seen_if : Option Mark → Seen
  seen_if (some m) = seen
  seen_if none = unseen

  -- `checkReplaySignature` up to its first command, `await redis.get(key)`.
  unfoldable pub look_for_mark : ℕ → Provider → Text → Client R → Seen
  look_for_mark now provider signature no_client = unchecked
  look_for_mark now provider signature (failing r) = unchecked
  look_for_mark now provider signature (connected r) =
      seen_if (server.get now (replay_key provider signature) r)

  -- Its second command, `await redis.setex(key, ttlSeconds, '1')`, at a later time.
  unfoldable pub mark_signature : ℕ → Provider → Text → Client R → Client R
  mark_signature now provider signature no_client = no_client
  mark_signature now provider signature (failing r) = failing r
  mark_signature now provider signature (connected r) =
      connected (server.set now (replay_key provider signature) mark 300 r)

  abbrev pub verifier_of : Provider → Verifier
  verifier_of moonpay = moonpay_verify hmac_base64 hmac_hex
  verifier_of transak = transak_verify hmac_base64 hmac_hex

  abbrev pub unless_seen : Seen → Verdict
  unless_seen seen = already_processed
  unless_seen unseen = marks
  unless_seen unchecked = goes_on

  abbrev pub when_valid : ℕ → Provider → Text → Client R → Result Thrown Bool → Verdict
  when_valid now provider signature c (err thrown) = crashed thrown
  when_valid now provider signature c (ok false) = invalid_signature
  when_valid now provider signature c (ok true) =
      unless_seen (look_for_mark now provider signature c)

  abbrev pub with_signature : ℕ → Provider → Text → Text → Option Text → Client R → Verdict
  with_signature now provider secret payload none c = missing_signature
  with_signature now provider secret payload (some []) c = missing_signature
  with_signature now provider secret payload (some (h ∷ hs)) c =
      when_valid now provider (h ∷ hs) c (verifier_of provider now payload (h ∷ hs) secret)

  abbrev pub with_secret : ℕ → Webhook → Option Text → Client R → Verdict
  with_secret now w none c = provider_not_configured
  with_secret now w (some secret) c = with_signature now w.provider secret w.payload w.signature c

  -- `verifyWebhook` up to the GET of the replay check, which leaves the store as it is.
  unfoldable pub verify_webhook : ℕ → Secrets → Webhook → Client R → Verdict
  verify_webhook now secrets w c = with_secret now w (secret_of w.provider secrets) c
