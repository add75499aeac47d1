-- ===== src/JsMap.antt =====
-- JavaScript's `Map` with string keys, as the language defines it: entries in insertion order,
-- `set` overwrites in place or appends at the end, `delete` removes the entry.
pub mod Laws
pub mod Distinct
use c_address_onboarding_bri.Prelude.{
  ℕ, String, Bool, true, false, Option, none, some, List, [], ◌∷◌, if◌then◌else◌, ◌===◌, length,
  map,
}

abbrev pub JsMap {ℓ} : Type ℓ → Type ℓ
JsMap V = List (String × V)

module _ {ℓ} {V : Type ℓ} where
  unfoldable pub get : String → JsMap V → Option V
  get k [] = none
  get k ((j, v) ∷ m) = if j === k then some v else get k m

  unfoldable pub has : String → JsMap V → Bool
  has k [] = false
  has k ((j, v) ∷ m) = if j === k then true else has k m

  unfoldable pub set : String → V → JsMap V → JsMap V
  set k v [] = (k, v) ∷ []
  set k v ((j, w) ∷ m) = if j === k then (j, v) ∷ m else (j, w) ∷ set k v m

  unfoldable pub delete : String → JsMap V → JsMap V
  delete k [] = []
  delete k ((j, w) ∷ m) = if j === k then delete k m else (j, w) ∷ delete k m

  abbrev pub keys : JsMap V → List String
  keys = map λ e. e.0

  abbrev pub size : JsMap V → ℕ
  size = length
