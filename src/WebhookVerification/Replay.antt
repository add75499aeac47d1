-- ===== src/WebhookVerification/Replay.antt =====
-- A signature that is marked is not let through again while its mark lasts.
use c_address_onboarding_bri.Prelude.{ℕ, String, some, ◌≡◌, ◌≢◌, ◌≤◌, ◌<◌, List, [], ◌∷◌, arith}
use c_address_onboarding_bri.Prelude.Result.{Result}
use c_address_onboarding_bri.JsText.{Text}
use c_address_onboarding_bri.RedisCache.{RedisServer, Client}
use c_address_onboarding_bri.WebhookVerification.{
  Provider, Secrets, Verdict, marks, goes_on, Mark, mark, Webhook, replay_key, mark_signature,
  verify_webhook,
}

-- A SETEX that is answered: for a provider and a signature.
pub record Marking : Type 0 where
  pub at : ℕ
  pub provider : Provider
  pub signature : Text

-- Markings at times that do not decrease, from one time to another.
abbrev pub AreInOrder : ℕ → ℕ → List Marking → Type 0
AreInOrder from later [] = from ≤ later
AreInOrder from later (d ∷ ds) = (from ≤ d.at) × AreInOrder d.at later ds

module _ {R : Type 0} (server : RedisServer Mark R) (hmac_base64 hmac_hex : Text → Text → Text)
    (sha256 : Text → String) where
  abbrev pub deliver : ℕ → Secrets → Webhook → Client R → Verdict
  deliver = verify_webhook server hmac_base64 hmac_hex sha256

  abbrev pub mark_one : ℕ → Provider → Text → Client R → Client R
  mark_one = mark_signature server hmac_base64 hmac_hex sha256

  abbrev pub mark_all : List Marking → Client R → Client R
  mark_all [] c = c
  mark_all (d ∷ ds) c = mark_all ds (mark_one d.at d.provider d.signature c)

  abbrev key_of : Provider → Text → String
  key_of = replay_key server hmac_base64 hmac_hex sha256

  -- The mark of a key is read until a time.
  abbrev Marked : String → ℕ → ℕ → R → Type 0
  Marked key from until r = (t : ℕ) → from ≤ t → t < until → server.get t key r ≡ some mark

  AreInOrder-le : (from later : ℕ) (ds : List Marking) → AreInOrder from later ds → from ≤ later
  AreInOrder-le from later [] h = h
  AreInOrder-le from later (d ∷ ds) (a, h) = omega (arith, a, AreInOrder-le d.at later ds h)

  -- A verdict that keeps a request from its handler.
  abbrev pub IsRefusal : Verdict → Type 0
  IsRefusal v = (v ≢ goes_on) × (v ≢ marks)
