-- ===== src/Prelude/Result.antt =====
-- Results of code that throws: a value, or what was thrown.
use mathlib.Core.Bool.{Bool, true, false}
use mathlib.Core.Path.{◌≡◌, refl}
use mathlib.Core.Logic.{◌↔◌}

pub data Result {μ ν} (Thrown : Type μ) (T : Type ν) : Type (μ ⊔ ν) where
  err : Thrown → Result Thrown T
  ok : T → Result Thrown T

-- `if (!holds) throw code`
abbrev pub guard {μ} : {Thrown : Type μ} → Bool → Thrown → Result Thrown (Unit {0})
guard holds code = elim holds [ false ↦ err code | true ↦ ok tt ]

infixl 5 ◌>>=◌ ◌>>◌
abbrev pub ◌>>=◌ {μ ν ξ} :
    {Thrown : Type μ} {T : Type ν} {S : Type ξ}
    → Result Thrown T
    → (T → Result Thrown S)
    → Result Thrown S
err code >>= next = err code
ok value >>= next = next value

abbrev pub ◌>>◌ {μ ξ} :
    {Thrown : Type μ} {S : Type ξ} → Result Thrown (Unit {0}) → Result Thrown S → Result Thrown S
first >> next = first >>= λ u. next

module _ {μ ξ} {Thrown : Type μ} {S : Type ξ} where
  -- A sequence succeeds when its parts do.
  pub >>-eq-ok :
      (first : Result Thrown (Unit {0})) (next : Result Thrown S) (s : S)
      → ((first >> next) ≡ ok s) ↔ ((first ≡ ok tt) × (next ≡ ok s))
  >>-eq-ok (err code) next s = ((λ h. absurd cc), λ (h, e). absurd cc)
  >>-eq-ok (ok tt) next s = ((λ e. (refl, e)), λ (h, e). e)

module _ {μ ν ξ} {Thrown : Type μ} {T : Type ν} {S : Type ξ} where
  pub >>=-eq-ok :
      (first : Result Thrown T) (next : T → Result Thrown S) {s : S} (e : (first >>= next) ≡ ok s)
      → (t : T) × (first ≡ ok t) × (next t ≡ ok s)
  >>=-eq-ok (err code) next e = absurd cc
  >>=-eq-ok (ok value) next e = (value, refl, e)

pub guard_iff {μ} :
    {Thrown : Type μ} (holds : Bool) (code : Thrown) → (guard holds code ≡ ok tt) ↔ (holds ≡ true)
guard_iff false code = ((λ e. absurd cc), λ e. absurd cc)
guard_iff true code = ((λ e. refl), λ e. refl)
