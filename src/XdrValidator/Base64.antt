-- ===== src/XdrValidator/Base64.antt =====
-- The base64 test of api/src/services/xdrValidator.ts against what its regular expression says.
use c_address_onboarding_bri.Prelude.{
  ℕ, zero, suc, true, ◌≤◌, ◌&&◌, if◌then◌else◌, [], ◌∷◌, ◌++◌, every, ◌≡◌, ◌↔◌, refl, ap, ◌∙◌,
  subst, Bool-cases, inl, inr, arith,
}
use c_address_onboarding_bri.XdrValidator.{Text, is_base64, is_base64_unit, is_padding}

-- The character = a number of times.
abbrev pub pads : ℕ → Text
pads zero = []
pads (suc n) = 61 ∷ pads n

is_padding-pads : (k n : ℕ) → n ≤ k → is_padding k (pads n) ≡ true
unfolding is_padding
is_padding-pads k zero h = refl
is_padding-pads zero (suc n) h = absurd (omega arith)
is_padding-pads (suc k) (suc n) h = is_padding-pads k n (omega arith)

pads-is_padding : (k : ℕ) (cs : Text) → is_padding k cs ≡ true → (n : ℕ) × (n ≤ k) × (cs ≡ pads n)
unfolding is_padding
pads-is_padding k [] h = (0, omega arith, refl)
pads-is_padding zero (c ∷ cs) h = absurd cc
pads-is_padding (suc k) (c ∷ cs) h =
    let (n, le, eq) = pads-is_padding k cs (ground arith) in
    let c≡61 : c ≡ 61 = ground arith in
    (suc n, omega arith, ap (λ d. d ∷ cs) c≡61 ∙ ap (λ ds. 61 ∷ ds) eq)

abbrev IsBase64 : Text → Type 0
IsBase64 cs =
    (body : Text) × (n : ℕ) × (every is_base64_unit body ≡ true) × (n ≤ 2) × (cs ≡ body ++ pads n)

parts : (cs : Text) → is_base64 cs ≡ true → IsBase64 cs
unfolding is_base64
parts [] h = ([], 0, refl, omega arith, refl)
parts (c ∷ cs) h = elim (Bool-cases (is_base64_unit c)) [
  | inl t ↦
      let (body, n, all, le, eq) =
        parts cs (subst (λ b. (if b then is_base64 cs else is_padding 2 (c ∷ cs)) ≡ true) t h) in
      (c ∷ body, n, ap (λ b. b && every is_base64_unit body) t ∙ all, le, ap (λ ds. c ∷ ds) eq)
  | inr f ↦
      let (n, le, eq) =
        pads-is_padding 2 (c ∷ cs)
          (subst (λ b. (if b then is_base64 cs else is_padding 2 (c ∷ cs)) ≡ true) f h) in
      ([], n, refl, le, eq)
]

whole :
    (body : Text) (n : ℕ)
    → every is_base64_unit body ≡ true
    → n ≤ 2
    → is_base64 (body ++ pads n) ≡ true
unfolding is_base64 is_base64_unit
whole [] zero h le = refl
whole [] (suc n) h le = is_padding-pads 2 (suc n) le
whole (c ∷ body) n h le = elim (Bool-cases (is_base64_unit c)) [
  | inl t ↦
      ap (λ b. if b then is_base64 (body ++ pads n) else is_padding 2 (c ∷ (body ++ pads n))) t
      ∙ whole body n (subst (λ b. (b && every is_base64_unit body) ≡ true) t h) le
  | inr f ↦ absurd (ground arith)
]

-- A text passes exactly when it is letters, digits, + and / followed by at most two =.
pub is_base64-pads :
    (cs : Text)
    → (is_base64 cs ≡ true) ↔ (
        (body : Text) × (n : ℕ) × (every is_base64_unit body ≡ true)
        × (n ≤ 2)
        × (cs ≡ body ++ pads n))
is_base64-pads cs =
    (parts cs, λ (body, n, all, le, eq). ap (λ ds. is_base64 ds) eq ∙ whole body n all le)
