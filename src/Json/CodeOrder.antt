-- ===== src/Json/CodeOrder.antt =====
-- The order of texts by their code points, as an order for `sort`.
use Prim.Native.Char.{Char, code}
use text.Mathlib.TextEquality.{codes_equal}
use text.Mathlib.TextPositions.{compare_self}
use c_address_onboarding_bri.Prelude.{
  String, ◌≡◌, refl, Bool, true, false, if◌then◌else◌, ltb, ◌==◌, arith, subst,
}
use c_address_onboarding_bri.Json.KeyOrder.{IsLinear}

abbrev pub text_le : String → String → Bool
text_le String.[] t = true
text_le (String.◌∷◌ c s) String.[] = false
text_le (String.◌∷◌ c s) (String.◌∷◌ d t) =
    if code c == code d then text_le s t else ltb (code c) (code d)

code-injective : (c d : Char) → code c ≡ code d → c ≡ d
code-injective c d h = codes_equal c d (
    subst (λ n. Prim.Native.Nat.compare (code c) n ≡ Prim.Native.Nat.Ordering.eq) h
      (compare_self (code c)))

total : (a b : String) → text_le a b ≡ false → text_le b a ≡ true
total String.[] b h = cc
total (String.◌∷◌ c s) String.[] h = refl
total (String.◌∷◌ c s) (String.◌∷◌ d t) h = ground (arith, total s t)

antisym : (a b : String) → text_le a b ≡ true → text_le b a ≡ true → a ≡ b
antisym String.[] String.[] h k = refl
antisym String.[] (String.◌∷◌ d t) h k = cc
antisym (String.◌∷◌ c s) String.[] h k = cc
antisym (String.◌∷◌ c s) (String.◌∷◌ d t) h k =
    let e : code c ≡ code d = ground arith in
    let r : s ≡ t = antisym s t (ground arith) (ground arith) in
    λ i. String.◌∷◌ (code-injective c d e i) (r i)

trans : (a b c : String) → text_le a b ≡ true → text_le b c ≡ true → text_le a c ≡ true
trans String.[] b c h k = refl
trans (String.◌∷◌ x s) String.[] c h k = cc
trans (String.◌∷◌ x s) (String.◌∷◌ y t) String.[] h k = cc
trans (String.◌∷◌ x s) (String.◌∷◌ y t) (String.◌∷◌ z u) h k = ground (arith, trans s t u)

pub text_le-IsLinear : IsLinear text_le
text_le-IsLinear = record { total = total; antisym = antisym; trans = trans }
