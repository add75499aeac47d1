-- ===== src/IpRange/Masks.antt =====
-- What the masks of address ranges keep: the number without its last binary digits.
use c_address_onboarding_bri.Prelude.{
  ℕ, zero, suc, Bool, true, ◌≡◌, refl, sym, ap, ◌∙◌, subst, ◌≤◌, ◌<◌, ◌+◌, ◌*◌, ◌-◌, ◌/◌, ◌%◌, ◌&&◌,
  ◌==◌, arith, ◌↔◌, ◌⊎◌, inl, inr,
}
use c_address_onboarding_bri.IpRange.{mask_v4, mask_v6, and_bits}

-- The number without its last `k` binary digits.
abbrev pub without_last : ℕ → ℕ → ℕ
without_last zero n = n
without_last (suc k) n = without_last k (n / 2)

-- A number with `k` zeros put after it, and a number of ones.
abbrev pub with_zeros : ℕ → ℕ → ℕ
with_zeros zero n = n
with_zeros (suc k) n = with_zeros k n * 2

abbrev pub ones : ℕ → ℕ
ones zero = 0
ones (suc b) = ones b * 2 + 1

-- Below two to the power of a number.
abbrev pub IsBelow : ℕ → ℕ → Type 0
IsBelow width n = n < with_zeros width 1

half_even : (m : ℕ) → m * 2 / 2 ≡ m
half_even m = omega arith

half_odd : (m : ℕ) → (m * 2 + 1) / 2 ≡ m
half_odd m = omega arith

and_even : (w a m : ℕ) → and_bits (suc w) a (m * 2) ≡ and_bits w (a / 2) m * 2
and_even w a m = omega (arith, ap (and_bits w (a / 2)) (half_even m))

and_odd : (w a m : ℕ) → and_bits (suc w) a (m * 2 + 1) ≡ and_bits w (a / 2) m * 2 + a % 2
and_odd w a m = omega (arith, ap (and_bits w (a / 2)) (half_odd m))

and-ones : (b a : ℕ) → IsBelow b a → and_bits b a (ones b) ≡ a
and-ones zero a h = omega (arith, h)
and-ones (suc b) a h = and_odd b a (ones b) ∙ omega (arith, and-ones b (a / 2) (omega (arith, h)))

-- The mask of `b` ones before `k` zeros.
and-mask :
    (w k b a : ℕ)
    → w ≡ k + b
    → IsBelow w a
    → and_bits w a (with_zeros k (ones b)) ≡ with_zeros k (without_last k a)
and-mask w zero b a e h =
    subst (λ v. and_bits v a (ones b) ≡ a) (sym (e ∙ omega arith))
      (and-ones b a (subst (λ v. IsBelow v a) (e ∙ omega arith) h))
and-mask zero (suc k) b a e h = absurd (omega arith)
and-mask (suc w) (suc k) b a e h =
    and_even w a (with_zeros k (ones b))
    ∙ ap (λ n. n * 2) (and-mask w k b (a / 2) (omega (arith, e)) (omega (arith, h)))

with_zeros-inj : (k a b : ℕ) → with_zeros k a ≡ with_zeros k b → a ≡ b
with_zeros-inj zero a b h = h
with_zeros-inj (suc k) a b h = with_zeros-inj k a b (omega (arith, h))

-- Two numbers have the same masked digits just when they are the same without the last ones.
pub and-mask_iff :
    (w k b a c : ℕ)
    → w ≡ k + b
    → IsBelow w a
    → IsBelow w c
    → (and_bits w a (with_zeros k (ones b)) ≡ and_bits w c (with_zeros k (ones b)))
      ↔ (without_last k a ≡ without_last k c)
and-mask_iff w k b a c e h i = (
  (λ m.
      with_zeros-inj k (without_last k a) (without_last k c)
        (sym (and-mask w k b a e h) ∙ m ∙ and-mask w k b c e i)),
  λ s. and-mask w k b a e h ∙ ap (with_zeros k) s ∙ sym (and-mask w k b c e i),
)

-- By evaluation up to a bound.
abbrev upto : ℕ → (ℕ → Bool) → Bool
upto zero p = p 0
upto (suc n) p = p (suc n) && upto n p

upto-holds : (n b : ℕ) (p : ℕ → Bool) → upto n p ≡ true → b ≤ n → p b ≡ true
upto-holds zero zero p h l = h
upto-holds zero (suc b) p h l = absurd (omega (arith, l))
upto-holds (suc n) b p h l = elim (last_or_less l) [
  | inl e ↦ subst (λ k. p k ≡ true) (sym e) (both (p (suc n)) (upto n p) h).0
  | inr m ↦ upto-holds n b p (both (p (suc n)) (upto n p) h).1 m
]
  where
    last_or_less : b ≤ suc n → (b ≡ suc n) ⊎ (b ≤ n)
    last_or_less l = omega (arith, l)

    both : (x y : Bool) → x && y ≡ true → (x ≡ true) × (y ≡ true)
    both x y h = (ground arith, ground arith)

table_v4 : upto 32 (λ b. mask_v4 b == with_zeros (32 - b) (ones b)) ≡ true
unfolding mask_v4
table_v4 = refl

table_v6 : upto 128 (λ b. mask_v6 b == with_zeros (128 - b) (ones b)) ≡ true
unfolding mask_v6
table_v6 = refl

pub ==-true : (a b : ℕ) → a == b ≡ true → a ≡ b
==-true a b h = ground arith

pub mask_v4_lem : (b : ℕ) → b ≤ 32 → mask_v4 b ≡ with_zeros (32 - b) (ones b)
mask_v4_lem b l =
    ==-true (mask_v4 b) (with_zeros (32 - b) (ones b))
      (upto-holds 32 b (λ c. mask_v4 c == with_zeros (32 - c) (ones c)) table_v4 l)

pub mask_v6_lem : (b : ℕ) → b ≤ 128 → mask_v6 b ≡ with_zeros (128 - b) (ones b)
mask_v6_lem b l =
    ==-true (mask_v6 b) (with_zeros (128 - b) (ones b))
      (upto-holds 128 b (λ c. mask_v6 c == with_zeros (128 - c) (ones c)) table_v6 l)
