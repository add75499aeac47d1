-- ===== src/JsMap/Distinct.antt =====
-- The keys of a map are distinct, and stay so.
use c_address_onboarding_bri.Prelude.{
  String, ◌≡◌, refl, ◌∙◌, ap, Bool, false, ◌===◌, ===_iff, ===_refl, List, [], ◌∷◌, ◌++◌, arith,
  any,
}
use c_address_onboarding_bri.JsMap.{JsMap, has, set, delete, keys}
use c_address_onboarding_bri.JsMap.Laws.{
  without, keys-delete, set_new, keys-append, has-delete_self,
}

abbrev pub listed : String → List String → Bool
listed k = any λ j. j === k

abbrev pub Distinct : List String → Type 0
Distinct [] = Unit
Distinct (k ∷ ks) = (listed k ks ≡ false) × Distinct ks

pub without_absent : (k : String) (ks : List String) → listed k ks ≡ false → without k ks ≡ ks
without_absent k [] h = refl
without_absent k (j ∷ ks) h = ground (arith, without_absent k ks)

pub without_head : (k : String) (ks : List String) → Distinct (k ∷ ks) → without k (k ∷ ks) ≡ ks
without_head k ks (h, _) = ground (arith, ===_refl k, without_absent k ks h)

pub listed-without_self : (k : String) (ks : List String) → listed k (without k ks) ≡ false
listed-without_self k [] = refl
listed-without_self k (j ∷ ks) = ground (arith, listed-without_self k ks)

listed-without :
    (k i : String) (ks : List String) → listed i ks ≡ false → listed i (without k ks) ≡ false
listed-without k i [] h = refl
listed-without k i (j ∷ ks) h = ground (arith, listed-without k i ks)

pub without-Distinct : (k : String) (ks : List String) → Distinct ks → Distinct (without k ks)
without-Distinct k [] h = tt
without-Distinct k (j ∷ ks) (n, h) =
    ground (arith, without-Distinct k ks h, listed-without k j ks n)

listed-append :
    (i k : String) (ks : List String)
    → listed i ks ≡ false
    → (k === i) ≡ false
    → listed i (ks ++ k ∷ []) ≡ false
listed-append i k [] h n = ground arith
listed-append i k (j ∷ ks) h n = ground (arith, listed-append i k ks)

pub append-Distinct :
    (k : String) (ks : List String) → listed k ks ≡ false → Distinct ks → Distinct (ks ++ k ∷ [])
append-Distinct k [] h d = (refl, tt)
append-Distinct k (j ∷ ks) h (n, d) =
    ground (arith, append-Distinct k ks, listed-append j k ks n, ===_iff j k, ===_iff k j)

module _ {ℓ} {V : Type ℓ} where
  pub has-listed : (k : String) (m : JsMap V) → has k m ≡ listed k (keys m)
  unfolding has
  has-listed k [] = refl
  has-listed k ((j, v) ∷ m) = ground (arith, has-listed k m)

  -- Deleting a key and storing it again moves it to the end.
  pub keys-set-delete :
      (k : String) (v : V) (m : JsMap V)
      → keys (set k v (delete k m)) ≡ without k (keys m) ++ k ∷ []
  keys-set-delete k v m =
      ap keys (set_new k v (delete k m) (has-delete_self k m))
      ∙ keys-append (delete k m) k v
      ∙ ap (λ ks. ks ++ k ∷ []) (keys-delete k m)
