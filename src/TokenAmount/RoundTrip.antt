-- ===== src/TokenAmount/RoundTrip.antt =====
-- Parsing a formatted amount gives the amount back, in its usual form.
use mathlib.Core.List.{append-nil}
use c_address_onboarding_bri.Prelude.{
  ℕ, zero, suc, Bool, true, false, some, ◌≡◌, refl, sym, ap, ◌∙◌, subst, ◌≤◌, ◌<◌, ◌+◌, ◌-◌,
  if◌then◌else◌, ltb, List, [], ◌∷◌, ◌++◌, length, take, drop, every, arith, length-append,
  length-take, length-drop,
}
use c_address_onboarding_bri.Prelude.Result.{ok, err}
use c_address_onboarding_bri.JsText.{Text, split_on, is_digit}
use c_address_onboarding_bri.TokenAmount.{
  Invalid, not_integer_text, too_many_decimals, are_digits, unsigned, with_sign, strip, zeros,
  pad_start, pad_end, with_point, format_token_amount, decimal_parts, combined_text, combine,
  parse_token_amount,
}

-- The usual form of an integer text: no leading zeros, and no sign on zero.
abbrev pub canonical : Text → Text
canonical t = let (negative, digits) = unsigned t in combined_text negative (strip digits)

strip-zeros : (n c : ℕ) (cs : Text) → strip (zeros n ++ c ∷ cs) ≡ strip (c ∷ cs)
unfolding strip
strip-zeros zero c cs = refl
strip-zeros (suc zero) c cs = refl
strip-zeros (suc (suc n)) c cs = strip-zeros (suc n) c cs

strip-digits : (t : Text) → are_digits t ≡ true → are_digits (strip t) ≡ true
unfolding strip
strip-digits [] h = absurd cc
strip-digits (c ∷ []) h = h
strip-digits (c ∷ d ∷ ds) h = ground (arith, strip-digits (d ∷ ds))

strip_idem : (t : Text) → strip (strip t) ≡ strip t
unfolding strip
strip_idem [] = refl
strip_idem (c ∷ []) = refl
strip_idem (c ∷ d ∷ ds) = ground (arith, strip_idem (d ∷ ds))

pub take-drop : {A : Type 0} (n : ℕ) (xs : List A) → take n xs ++ drop n xs ≡ xs
take-drop zero xs = refl
take-drop (suc n) [] = refl
take-drop (suc n) (x ∷ xs) = ap (λ l. x ∷ l) (take-drop n xs)

pub every-take : (n : ℕ) (xs : Text) → every is_digit xs ≡ true → every is_digit (take n xs) ≡ true
every-take zero xs h = refl
every-take (suc n) [] h = refl
every-take (suc n) (x ∷ xs) h = ground (arith, every-take n xs)

pub every-drop : (n : ℕ) (xs : Text) → every is_digit xs ≡ true → every is_digit (drop n xs) ≡ true
every-drop zero xs h = h
every-drop (suc n) [] h = refl
every-drop (suc n) (x ∷ xs) h = ground (arith, every-drop n xs)

pub every-zeros :
    (n : ℕ) (xs : Text) → every is_digit xs ≡ true → every is_digit (zeros n ++ xs) ≡ true
every-zeros zero xs h = h
every-zeros (suc n) xs h = every-zeros n xs h

pub are_digits-every : (t : Text) → 0 < length t → every is_digit t ≡ true → are_digits t ≡ true
are_digits-every [] p h = absurd (omega (arith, p))
are_digits-every (c ∷ cs) p h = h

-- A text of digits has no point and no sign.
split_on-digits : (t : Text) → every is_digit t ≡ true → split_on 46 t ≡ t ∷ []
split_on-digits [] h = refl
split_on-digits (c ∷ cs) h = ground (arith, split_on-digits cs)

split_on-point :
    (a b : Text)
    → every is_digit a ≡ true
    → every is_digit b ≡ true
    → split_on 46 (a ++ 46 ∷ b) ≡ a ∷ b ∷ []
split_on-point [] b h k = rw (split_on-digits b k) refl
split_on-point (c ∷ cs) b h k = ground (arith, split_on-point cs b)

-- A text that starts with a digit.
abbrev StartsWithDigit : Text → Type 0
StartsWithDigit [] = ⊥
StartsWithDigit (c ∷ cs) = is_digit c ≡ true

unsigned-with_sign :
    (negative : Bool) (t : Text)
    → StartsWithDigit t
    → unsigned (with_sign negative t) ≡ (negative, t)
unsigned-with_sign negative [] h = elim h [ ]
unsigned-with_sign true (c ∷ cs) h = refl
unsigned-with_sign false (c ∷ cs) h = ground arith

digits-start : (t r : Text) → are_digits t ≡ true → StartsWithDigit (t ++ r)
digits-start [] r h = absurd cc
digits-start (c ∷ cs) r h = ground arith

pub digits-every : (t : Text) → are_digits t ≡ true → (every is_digit t ≡ true) × (0 < length t)
digits-every [] h = absurd cc
digits-every (c ∷ cs) h = (h, omega arith)

pub strip-pad_start : (n : ℕ) (t : Text) → are_digits t ≡ true → strip (pad_start n t) ≡ strip t
unfolding pad_start
strip-pad_start n [] h = absurd cc
strip-pad_start n (c ∷ cs) h = strip-zeros (n - length (c ∷ cs)) c cs

length-zeros : (n : ℕ) → length (zeros n) ≡ n
length-zeros zero = refl
length-zeros (suc n) = omega (arith, length-zeros n)

pub length-pad_start-le : (n : ℕ) (t : Text) → n ≤ length (pad_start n t)
unfolding pad_start
length-pad_start-le n t =
    omega (arith, length-append (zeros (n - length t)) t, length-zeros (n - length t))

-- A fraction that is long enough is not padded.
pad_end_none : (n : ℕ) (t : Text) → length t ≡ n → pad_end n t ≡ t
unfolding pad_end
pad_end_none n t h =
    let none_missing : n - length t ≡ 0 = omega (arith, h) in
    ap (λ k. t ++ zeros k) none_missing ∙ append-nil t

parse_parts :
    (negative : Bool) (decimals : ℕ) (t a b : Text)
    → StartsWithDigit t
    → decimal_parts t ≡ some (a, b)
    → parse_token_amount (with_sign negative t) decimals ≡ combine negative decimals (some (a, b))
unfolding parse_token_amount
parse_parts negative decimals t a b h e =
    ap (λ u. combine u.0 decimals (decimal_parts u.1)) (unsigned-with_sign negative t h)
    ∙ ap (combine negative decimals) e

-- A fraction that is not too long, and none.
pub parse-fraction :
    (negative : Bool) (d : ℕ) (a b digits : Text)
    → are_digits a ≡ true
    → are_digits b ≡ true
    → length b ≤ d
    → strip (a ++ pad_end d b) ≡ digits
    → parse_token_amount (with_sign negative (a ++ 46 ∷ b)) d ≡ ok (combined_text negative digits)
unfolding decimal_parts
parse-fraction negative d a b digits h k l e =
    parse_parts negative d (a ++ 46 ∷ b) a b (digits-start a (46 ∷ b) h)
      (rw (split_on-point a b (digits-every a h).0 (digits-every b k).0, h, k) refl)
    ∙ ap
        (λ c.
          if c
          then err too_many_decimals
          else ok (combined_text negative (strip (a ++ pad_end d b))))
        (lt_false d (length b) l)
    ∙ ap (λ t. ok (combined_text negative t)) e
  where
    lt_false : (d n : ℕ) → n ≤ d → ltb d n ≡ false
    lt_false d n h = ground arith

pub parse-whole :
    (negative : Bool) (d : ℕ) (a digits : Text)
    → are_digits a ≡ true
    → strip (a ++ pad_end d []) ≡ digits
    → parse_token_amount (with_sign negative a) d ≡ ok (combined_text negative digits)
unfolding decimal_parts
parse-whole negative d a digits h e =
    parse_parts negative d a a [] (subst StartsWithDigit (append-nil a) (digits-start a [] h))
      (rw (split_on-digits a (digits-every a h).0, h) refl)
    ∙ ap
        (λ c.
          if c
          then err too_many_decimals
          else ok (combined_text negative (strip (a ++ pad_end d []))))
        (not_below d)
    ∙ ap (λ t. ok (combined_text negative t)) e
  where
    not_below : (d : ℕ) → ltb d 0 ≡ false
    not_below d = ground arith

parse-with_point :
    (negative : Bool) (d : ℕ) (digits : Text)
    → are_digits digits ≡ true
    → strip digits ≡ digits
    → parse_token_amount (with_sign negative (with_point d digits)) d
      ≡ ok (combined_text negative digits)
unfolding with_point pad_start
parse-with_point negative zero digits h s =
    parse-whole negative 0 digits digits h
      (ap (λ t. strip (digits ++ t)) (pad_end_none 0 [] refl) ∙ ap strip (append-nil digits) ∙ s)
parse-with_point negative (suc d) digits h s =
    let padded = pad_start (suc d + 1) digits in
    let n = length padded - suc d in
    let long = length-pad_start-le (suc d + 1) digits in
    let every_one = every-zeros (suc d + 1 - length digits) digits (digits-every digits h).0 in
    parse-fraction negative (suc d) (take n padded) (drop n padded) digits
      (are_digits-every (take n padded) (omega (arith, length-take n padded, long))
        (every-take n padded every_one))
      (are_digits-every (drop n padded) (omega (arith, length-drop n padded, long))
        (every-drop n padded every_one))
      (omega (arith, length-drop n padded, long))
      (ap (λ t. strip (take n padded ++ t))
          (pad_end_none (suc d) (drop n padded) (omega (arith, length-drop n padded, long)))
        ∙ ap strip (take-drop n padded)
        ∙ strip-pad_start (suc d + 1) digits h
        ∙ s)

when-ok :
    (c : Bool) (t s : Text) (x : Invalid)
    → (if c then ok t else err x) ≡ ok s
    → (c ≡ true) × (t ≡ s)
when-ok false t s x h = absurd cc
when-ok true t s x h = (refl, cc)

-- If an amount is formatted with a number of decimals, parsing the result with as many gives the amount
-- back, without leading zeros, and without a sign if it is zero.
pub parse-format :
    (amount : Text) (decimals : ℕ) (formatted : Text)
    → format_token_amount amount decimals ≡ ok formatted
    → parse_token_amount formatted decimals ≡ ok (canonical amount)
unfolding format_token_amount
parse-format amount decimals formatted h =
    let (negative, digits) = unsigned amount in
    let (d, e) =
      when-ok (are_digits digits) (with_sign negative (with_point decimals (strip digits)))
        formatted not_integer_text h in
    ap (λ t. parse_token_amount t decimals) (sym e)
    ∙ parse-with_point negative decimals (strip digits) (strip-digits digits d) (strip_idem digits)
