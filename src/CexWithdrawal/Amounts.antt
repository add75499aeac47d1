-- ===== src/CexWithdrawal/Amounts.antt =====
-- The decimal text of an amount means the same amount to the SDK's parser, and memos are read back.
use c_address_onboarding_bri.Prelude.{
  ℕ, suc, Bool, true, false, Option, none, some, ◌≡◌, refl, sym, ap, ◌∙◌, ◌≤◌, ◌<◌, ◌+◌, ◌-◌, ◌&&◌,
  if◌then◌else◌, ltb, ◌==◌, [], ◌∷◌, ◌++◌, length, take, drop, every, arith, Bool-cases, inl, inr,
  length-take, length-drop,
}
use c_address_onboarding_bri.Prelude.Result.{ok}
use c_address_onboarding_bri.JsText.{Text, split_on, is_digit, includes}
use c_address_onboarding_bri.TokenAmount.{
  are_digits, unsigned, with_sign, strip, zeros, pad_start, pad_end, parse_token_amount,
  combined_text,
}
use c_address_onboarding_bri.TokenAmount.RoundTrip.{
  canonical, parse-fraction, parse-whole, take-drop, every-take, every-drop, every-zeros,
  are_digits-every, digits-every, strip-pad_start, length-pad_start-le,
}
use c_address_onboarding_bri.CexWithdrawal.{
  drop_zero, trim_zeros, joined, stroops_to_decimal, last_eight, bridge_text,
  create_cex_withdrawal_memo, memo_parts, parse_cex_withdrawal_memo,
}

==-true : (a b : ℕ) → a == b ≡ true → a ≡ b
==-true a b h = ground arith

and_parts : (a b : Bool) → a && b ≡ true → (a ≡ true) × (b ≡ true)
and_parts a b h = (ground arith, ground arith)

-- What is trimmed is zeros.
drop_zero-zeros :
    (c : ℕ) (ds cs : Text)
    → ds ++ zeros (length cs - length ds) ≡ cs
    → length ds ≤ length cs
    → drop_zero c ds ++ zeros (length (c ∷ cs) - length (drop_zero c ds)) ≡ c ∷ cs
drop_zero-zeros c (d ∷ ds) cs h l =
    let less : suc (length cs) - suc (suc (length ds)) ≡ length cs - suc (length ds) =
      omega arith in
    ap (λ t. c ∷ t) (ap (λ k. (d ∷ ds) ++ zeros k) less ∙ h)
drop_zero-zeros c [] cs h l = elim (Bool-cases (c == 48)) [
  | inl e ↦ rw e (
      none_off (length cs)
      ∙ ap (λ k. k ∷ zeros (length cs)) (sym (==-true c 48 e))
      ∙ ap (λ t. c ∷ t) (whole cs h))
  | inr e ↦ rw e (ap (λ t. c ∷ t) (one_less (length cs) ∙ whole cs h))
]
  where
    whole : (cs : Text) → zeros (length cs - 0) ≡ cs → zeros (length cs) ≡ cs
    whole cs h = let same : length cs ≡ length cs - 0 = omega arith in ap zeros same ∙ h

    none_off : (n : ℕ) → zeros (suc n - 0) ≡ zeros (suc n)
    none_off n = let same : suc n - 0 ≡ suc n = omega arith in ap zeros same

    one_less : (n : ℕ) → zeros (suc n - 1) ≡ zeros n
    one_less n = let same : suc n - 1 ≡ n = omega arith in ap zeros same

length-drop_zero-le : (c n : ℕ) (ds : Text) → length ds ≤ n → length (drop_zero c ds) ≤ suc n
length-drop_zero-le c n (d ∷ ds) h = omega (arith, h)
length-drop_zero-le c n [] h = ground arith

trim_zeros-le : (t : Text) → length (trim_zeros t) ≤ length t
unfolding trim_zeros
trim_zeros-le [] = omega arith
trim_zeros-le (c ∷ cs) = length-drop_zero-le c (length cs) (trim_zeros cs) (trim_zeros-le cs)

trim_zeros-zeros : (t : Text) → trim_zeros t ++ zeros (length t - length (trim_zeros t)) ≡ t
unfolding trim_zeros
trim_zeros-zeros [] = refl
trim_zeros-zeros (c ∷ cs) =
    drop_zero-zeros c (trim_zeros cs) cs (trim_zeros-zeros cs) (trim_zeros-le cs)

every-drop_zero :
    (c : ℕ) (ds : Text)
    → is_digit c ≡ true
    → every is_digit ds ≡ true
    → every is_digit (drop_zero c ds) ≡ true
every-drop_zero c (d ∷ ds) h k = rw h k
every-drop_zero c [] h k = ground arith

every-trim_zeros : (t : Text) → every is_digit t ≡ true → every is_digit (trim_zeros t) ≡ true
unfolding trim_zeros
every-trim_zeros [] h = refl
every-trim_zeros (c ∷ cs) h =
    let (d, ds) = and_parts (is_digit c) (every is_digit cs) h in
    every-drop_zero c (trim_zeros cs) d (every-trim_zeros cs ds)

-- A text with a trimmed fraction is parsed as one with the whole fraction.
parse-joined :
    (negative : Bool) (d : ℕ) (a b digits : Text)
    → are_digits a ≡ true
    → every is_digit b ≡ true
    → length b ≡ d
    → strip (a ++ b) ≡ digits
    → parse_token_amount (with_sign negative (joined a (trim_zeros b))) d
      ≡ ok (combined_text negative digits)
unfolding pad_end
parse-joined negative d a b digits h k l e =
    by (trim_zeros b) (trim_zeros-zeros b) (trim_zeros-le b) (every-trim_zeros b k)
  where
    padded : (t : Text) → t ++ zeros (length b - length t) ≡ b → strip (a ++ pad_end d t) ≡ digits
    padded t z = ap (λ u. strip (a ++ u)) (ap (λ n. t ++ zeros (n - length t)) (sym l) ∙ z) ∙ e

    by :
        (t : Text)
        → t ++ zeros (length b - length t) ≡ b
        → length t ≤ length b
        → every is_digit t ≡ true
        → parse_token_amount (with_sign negative (joined a t)) d
          ≡ ok (combined_text negative digits)
    by [] z le v = parse-whole negative d a digits h (padded [] z)
    by (c ∷ cs) z le v =
        parse-fraction negative d a (c ∷ cs) digits h v (omega (arith, le, l)) (padded (c ∷ cs) z)

-- The decimal text that the exchanges are given for an amount with some decimals is, to the parser of
-- the SDK, the same amount with as many decimals, without leading zeros and without a sign if it is zero.
pub parse-stroops_to_decimal :
    (stroops : Text) (decimals : ℕ)
    → are_digits (unsigned stroops).1 ≡ true
    → parse_token_amount (stroops_to_decimal stroops decimals) decimals ≡ ok (canonical stroops)
unfolding stroops_to_decimal pad_start
parse-stroops_to_decimal stroops decimals h =
    let (negative, raw) = unsigned stroops in
    let digits = pad_start (decimals + 1) raw in
    let n = length digits - decimals in
    let long = length-pad_start-le (decimals + 1) raw in
    let all = every-zeros (decimals + 1 - length raw) raw (digits-every raw h).0 in
    ap
      (λ c.
        parse_token_amount
          (if c
            then with_sign negative (joined (take n digits) (trim_zeros (drop n digits)))
            else stroops)
          decimals)
      h
    ∙ parse-joined negative decimals (take n digits) (drop n digits) (strip raw)
        (are_digits-every (take n digits) (omega (arith, length-take n digits, long))
          (every-take n digits all))
        (every-drop n digits all) (omega (arith, length-drop n digits, long))
        (ap strip (take-drop n digits) ∙ strip-pad_start (decimals + 1) raw h)

-- Memos.
split_on-append :
    (xs ys : Text) → includes 58 xs ≡ false → split_on 58 (xs ++ 58 ∷ ys) ≡ xs ∷ split_on 58 ys
split_on-append [] ys h = ground arith
split_on-append (x ∷ xs) ys h = ground (arith, split_on-append xs ys)

split_on_whole : (xs : Text) → includes 58 xs ≡ false → split_on 58 xs ≡ xs ∷ []
split_on_whole [] h = refl
split_on_whole (x ∷ xs) h = ground (arith, split_on_whole xs)

-- A memo that was made for an exchange and an address is read back as the exchange and the last eight
-- characters of the address, if neither has a colon and both are not empty.
pub parse-create_memo :
    (target exchange : Text)
    → includes 58 exchange ≡ false
    → includes 58 (last_eight target) ≡ false
    → 0 < length exchange
    → 0 < length (last_eight target)
    → parse_cex_withdrawal_memo (create_cex_withdrawal_memo target exchange)
      ≡ some (exchange, last_eight target)
unfolding parse_cex_withdrawal_memo create_cex_withdrawal_memo
parse-create_memo target exchange h k p q =
    ap memo_parts (
      split_on-append bridge_text (exchange ++ 58 ∷ last_eight target) refl
      ∙ ap (λ l. bridge_text ∷ l)
          (split_on-append exchange (last_eight target) h
            ∙ ap (λ l. exchange ∷ l) (split_on_whole (last_eight target) k)))
    ∙ accepted (length exchange) (length (last_eight target)) p q
  where
    accepted :
        (m n : ℕ)
        → 0 < m
        → 0 < n
        → if◌then◌else◌ {A = Option (Text × Text)}
            (ltb 0 m && ltb 0 n)
            (some (exchange, last_eight target))
            none
          ≡ some (exchange, last_eight target)
    accepted m n p q = ground arith
