-- ===== src/JsMap/Laws.antt =====
-- The laws of the map, in the form that rewriting and the tactics use.
use c_address_onboarding_bri.Prelude.{
  String, ◌≡◌, refl, ◌≤◌, suc, false, none, some, [], ◌∷◌, if◌then◌else◌, ◌===◌, ===_iff, ===_refl,
  List, ◌++◌, length, arith,
}
use c_address_onboarding_bri.JsMap.{JsMap, get, has, set, delete, keys, size}

-- The list of keys without one.
abbrev pub without : String → List String → List String
without k [] = []
without k (j ∷ js) = if j === k then without k js else j ∷ without k js

module _ {ℓ} {V : Type ℓ} where
  pub get-set :
      (k j : String) (v : V) (m : JsMap V)
      → get j (set k v m) ≡ (if k === j then some v else get j m)
  unfolding get set
  get-set k j v [] = refl
  get-set k j v ((i, w) ∷ m) =
      ground (arith, ===_iff k j, ===_iff i k, ===_iff i j, get-set k j v m)

  pub get-delete :
      (k j : String) (m : JsMap V) → get j (delete k m) ≡ (if k === j then none else get j m)
  unfolding get delete
  get-delete k j [] = ground arith
  get-delete k j ((i, w) ∷ m) =
      ground (arith, ===_iff k j, ===_iff i k, ===_iff i j, get-delete k j m)

  pub has-get : (k : String) (m : JsMap V) → has k m ≡ false → get k m ≡ none
  unfolding get has
  has-get k [] h = refl
  has-get k ((i, w) ∷ m) h = ground (arith, has-get k m)

  pub size-delete-le : (k : String) (m : JsMap V) → size (delete k m) ≤ size m
  unfolding delete
  size-delete-le k [] = omega arith
  size-delete-le k ((i, w) ∷ m) = ground (arith, size-delete-le k m)

  pub size-set-le : (k : String) (v : V) (m : JsMap V) → size (set k v m) ≤ suc (size m)
  unfolding set
  size-set-le k v [] = omega arith
  size-set-le k v ((i, w) ∷ m) = ground (arith, size-set-le k v m)

  pub has-delete_self : (k : String) (m : JsMap V) → has k (delete k m) ≡ false
  unfolding has delete
  has-delete_self k [] = refl
  has-delete_self k ((i, w) ∷ m) = ground (arith, has-delete_self k m)

  -- A new key goes to the end.
  pub set_new : (k : String) (v : V) (m : JsMap V) → has k m ≡ false → set k v m ≡ m ++ (k, v) ∷ []
  unfolding has set
  set_new k v [] h = refl
  set_new k v ((i, w) ∷ m) h = ground (arith, set_new k v m)

  pub keys-delete : (k : String) (m : JsMap V) → keys (delete k m) ≡ without k (keys m)
  unfolding delete
  keys-delete k [] = refl
  keys-delete k ((i, w) ∷ m) = ground (arith, keys-delete k m)

  pub keys-append : (m : JsMap V) (k : String) (v : V) → keys (m ++ (k, v) ∷ []) ≡ keys m ++ k ∷ []
  keys-append [] k v = refl
  keys-append (e ∷ m) k v = rw (keys-append m k v)

  pub size-keys : (m : JsMap V) → length (keys m) ≡ size m
  size-keys [] = refl
  size-keys (e ∷ m) = omega (arith, size-keys m)

  pub size-delete_head : (k : String) (v : V) (m : JsMap V) → size (delete k ((k, v) ∷ m)) ≤ size m
  unfolding delete
  size-delete_head k v m = rw (===_refl k) (size-delete-le k m)

  pub size-delete_lt :
      (k : String) (v : V) (m : JsMap V) → get k m ≡ some v → suc (size (delete k m)) ≤ size m
  unfolding get delete
  size-delete_lt k v [] h = absurd (ground arith)
  size-delete_lt k v ((i, w) ∷ m) h = ground (arith, size-delete_lt k v m, size-delete-le k m)
