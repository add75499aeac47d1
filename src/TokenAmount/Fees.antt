-- ===== src/TokenAmount/Fees.antt =====
-- The fee and what remains make up the amount.
use c_address_onboarding_bri.Prelude.{
  ℕ, zero, suc, false, Option, none, some, ◌≡◌, refl, ap, ◌∙◌, ◌≤◌, ◌<◌, ◌+◌, ◌*◌, ◌-◌, ◌/◌, leb,
  arith, le→leb, lt→leb,
}
use c_address_onboarding_bri.Prelude.Result.{ok, err}
use c_address_onboarding_bri.TokenAmount.{
  bad_fee, ℤ, pos, negsuc, minus, validate_fee_bps, calculate_fee, calculate_receive_amount,
}

part-le : (n bps : ℕ) → bps ≤ 10000 → n * bps ≤ n * 10000
part-le n bps h = grind arith

minus-le : (a b : ℕ) → b ≤ a → minus a b ≡ pos (a - b)
minus-le a zero h = ap pos (omega arith)
minus-le zero (suc b) h = absurd (omega (arith, h))
minus-le (suc a) (suc b) h = minus-le a b (omega (arith, h)) ∙ ap pos (omega arith)

validate_lem : (bps : ℕ) → bps ≤ 10000 → validate_fee_bps (some (pos bps)) ≡ ok bps
unfolding validate_fee_bps
validate_lem bps h = rw (le→leb bps 10000 h) refl

-- For an amount that is not negative and a rate from 0 to 10,000 basis points, the fee is the amount
-- times the rate, divided by 10,000 and rounded down; it is at most the amount; and what remains for
-- the recipient is the amount less the fee.
pub fee-splits :
    (n bps : ℕ)
    → bps ≤ 10000
    → (f : ℕ) × (calculate_fee (pos n) (some (pos bps)) ≡ ok (pos f))
      × (calculate_receive_amount (pos n) (some (pos bps)) ≡ ok (pos (n - f)))
      × (f ≤ n)
      × (f * 10000 ≤ n * bps)
      × (n * bps < f * 10000 + 10000)
unfolding calculate_fee calculate_receive_amount
fee-splits n bps h =
    let f = n * bps / 10000 in
    let small : f ≤ n = omega (arith, part-le n bps h) in
    (
      f,
      rw (validate_lem bps h) refl,
      rw (validate_lem bps h) (ap ok (minus-le n f small)),
      small,
      omega arith,
      omega arith,
    )

-- Another rate is refused, whatever the amount.
pub fee-refuses :
    (amount : ℤ) (rate : Option ℤ)
    → ((bps : ℕ) → rate ≡ some (pos bps) → 10000 < bps)
    → (calculate_fee amount rate ≡ err bad_fee)
      × (calculate_receive_amount amount rate ≡ err bad_fee)
unfolding calculate_fee calculate_receive_amount validate_fee_bps
fee-refuses amount none h = (refl, refl)
fee-refuses amount (some (negsuc n)) h = (refl, refl)
fee-refuses amount (some (pos bps)) h =
    let over : leb bps 10000 ≡ false = lt→leb 10000 bps (h bps refl) in (rw over refl, rw over refl)
