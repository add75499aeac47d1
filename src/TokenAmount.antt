-- ===== src/TokenAmount.antt =====
-- Tokens and amounts of the SDK: sdk/src/token.ts, and the addresses and fees of sdk/src/utils.ts. Texts
-- are lists of UTF-16 units. The check of a StrKey is a parameter.
pub mod RoundTrip
pub mod Fees
mod Tests
use c_address_onboarding_bri.Prelude.{
  ℕ, zero, suc, Bool, true, false, not, Option, none, some, ◌+◌, ◌*◌, ◌-◌, ◌/◌, ◌%◌, ◌&&◌, ◌||◌,
  if◌then◌else◌, ltb, leb, ◌==◌, List, [], ◌∷◌, ◌++◌, length, take, drop, every,
}
use c_address_onboarding_bri.Prelude.Result.{Result, ok, err, ◌>>=◌, ◌>>◌, guard}
use c_address_onboarding_bri.JsText.{Text, same_text, split_on, is_digit, to_base}

pub data Token : Type 0 where
  native : Token
  sac : Text → Token

-- What is thrown: a `TypeError`, or a `ValidationError`.
pub data Invalid : Type 0 where
  not_integer_text bad_format too_many_decimals bad_address bad_fee : Invalid

abbrev pub native_text : Text
native_text = 110 ∷ 97 ∷ 116 ∷ 105 ∷ 118 ∷ 101 ∷ []

unfoldable pub is_native_token : Token → Bool
is_native_token native = true
is_native_token (sac id) = false

unfoldable pub token_to_source_asset : Token → Text
token_to_source_asset native = native_text
token_to_source_asset (sac id) = id

-- `tokenAddress || sourceAsset`
abbrev pub or_other : Option Text → Option Text → Option Text
or_other none b = b
or_other (some []) b = b
or_other (some (c ∷ cs)) b = some (c ∷ cs)

module _ (is_valid_contract : Text → Bool) where
  unfoldable pub is_valid_token_identifier : Text → Bool
  is_valid_token_identifier id = same_text id native_text || is_valid_contract id

  abbrev pub token_of : Option Text → Result Invalid Token
  token_of none = ok native
  token_of (some []) = ok native
  token_of (some (c ∷ cs)) =
      if same_text (c ∷ cs) native_text
      then ok native
      else guard (is_valid_contract (c ∷ cs)) bad_address >> ok (sac (c ∷ cs))

  unfoldable pub token_from_legacy : Option Text → Option Text → Result Invalid Token
  token_from_legacy token_address source_asset = token_of (or_other token_address source_asset)

unfoldable pub get_default_decimals : Token → ℕ
get_default_decimals native = 7
get_default_decimals (sac id) = 6

-- `\d+`
abbrev pub are_digits : Text → Bool
are_digits [] = false
are_digits (c ∷ cs) = is_digit c && every is_digit cs

-- Whether a text starts with `-`, and the text without it.
abbrev pub unsigned : Text → Bool × Text
unsigned [] = (false, [])
unsigned (c ∷ cs) = if c == 45 then (true, cs) else (false, c ∷ cs)

abbrev pub with_sign : Bool → Text → Text
with_sign negative t = if negative then 45 ∷ t else t

-- Without leading zeros, but for the last character: `replace(/^0+(?=\d)/, '')`.
unfoldable pub strip : Text → Text
strip [] = []
strip (c ∷ []) = c ∷ []
strip (c ∷ d ∷ ds) = let rest = strip (d ∷ ds) in if c == 48 then rest else c ∷ d ∷ ds

abbrev pub zeros : ℕ → Text
zeros zero = []
zeros (suc n) = 48 ∷ zeros n

-- `padStart(n, '0')` and `padEnd(n, '0')`
unfoldable pub pad_start : ℕ → Text → Text
pad_start n t = zeros (n - length t) ++ t

unfoldable pub pad_end : ℕ → Text → Text
pad_end n t = t ++ zeros (n - length t)

-- The digits with a point before the last ones.
unfoldable pub with_point : ℕ → Text → Text
with_point zero digits = digits
with_point (suc d) digits =
    let padded = pad_start (suc d + 1) digits in
    take (length padded - suc d) padded ++ 46 ∷ drop (length padded - suc d) padded

unfoldable pub format_token_amount : Text → ℕ → Result Invalid Text
format_token_amount amount decimals =
    let (negative, digits) = unsigned amount in
    if are_digits digits
    then ok (with_sign negative (with_point decimals (strip digits)))
    else err not_integer_text

-- The parts of a text of the form `\d+(\.\d+)?`, without the sign.
unfoldable pub decimal_parts : Text → Option (Text × Text)
decimal_parts t = by_parts (split_on 46 t)
  where
    by_parts : List Text → Option (Text × Text)
    by_parts [] = none
    by_parts (a ∷ []) = if are_digits a then some (a, []) else none
    by_parts (a ∷ b ∷ []) = if are_digits a && are_digits b then some (a, b) else none
    by_parts (a ∷ b ∷ c ∷ cs) = none

abbrev pub combined_text : Bool → Text → Text
combined_text negative [] = 48 ∷ []
combined_text negative (c ∷ cs) =
    if same_text (c ∷ cs) (48 ∷ []) then 48 ∷ [] else with_sign negative (c ∷ cs)

abbrev pub combine : Bool → ℕ → Option (Text × Text) → Result Invalid Text
combine negative decimals none = err bad_format
combine negative decimals (some (integer_part, fractional_part)) =
    if ltb decimals (length fractional_part)
    then err too_many_decimals
    else ok (combined_text negative (strip (integer_part ++ pad_end decimals fractional_part)))

unfoldable pub parse_token_amount : Text → ℕ → Result Invalid Text
parse_token_amount amount decimals =
    let (negative, clean_amount) = unsigned amount in
    combine negative decimals (decimal_parts clean_amount)

-- `isValidStellarAddress`: 56 characters of base 32 that start with G or C.
abbrev pub is_base32 : ℕ → Bool
is_base32 c = leb 65 c && leb c 90 || leb 50 c && leb c 55

abbrev pub starts_with : ℕ → Text → Bool
starts_with c [] = false
starts_with c (d ∷ ds) = d == c

unfoldable pub is_valid_stellar_address : Text → Bool
is_valid_stellar_address a =
    length a == 56 && (starts_with 71 a || starts_with 67 a) && every is_base32 a

unfoldable pub is_c_address : Text → Bool
is_c_address a = is_valid_stellar_address a && starts_with 67 a

unfoldable pub is_g_address : Text → Bool
is_g_address a = is_valid_stellar_address a && starts_with 71 a

-- Whole numbers, and the quotient that a `bigint` division by a positive number has.
pub data ℤ : Type 0 where
  pos : ℕ → ℤ
  negsuc : ℕ → ℤ

abbrev pub neg : ℕ → ℤ
neg zero = pos 0
neg (suc n) = negsuc n

abbrev pub divided : ℤ → ℕ → ℤ
divided (pos n) d = pos (n / d)
divided (negsuc n) d = neg (suc n / d)

abbrev pub scaled : ℤ → ℕ → ℤ
scaled (pos n) k = pos (n * k)
scaled (negsuc n) k = neg (suc n * k)

abbrev pub minus : ℕ → ℕ → ℤ
minus a zero = pos a
minus zero (suc b) = negsuc b
minus (suc a) (suc b) = minus a b

infix 60 ◌-ℤ◌
abbrev pub ◌-ℤ◌ : ℤ → ℤ → ℤ
pos a -ℤ pos b = minus a b
pos a -ℤ negsuc b = pos (a + suc b)
negsuc a -ℤ pos b = negsuc (a + b)
negsuc a -ℤ negsuc b = minus (suc b) (suc a)

-- A rate as a number of the language: none if it is not an integer.
unfoldable pub validate_fee_bps : Option ℤ → Result Invalid ℕ
validate_fee_bps none = err bad_fee
validate_fee_bps (some (negsuc n)) = err bad_fee
validate_fee_bps (some (pos n)) = guard (leb n 10000) bad_fee >> ok n

unfoldable pub calculate_fee : ℤ → Option ℤ → Result Invalid ℤ
calculate_fee amount fee_bps =
    validate_fee_bps fee_bps >>= λ bps. ok (divided (scaled amount bps) 10000)

unfoldable pub calculate_receive_amount : ℤ → Option ℤ → Result Invalid ℤ
calculate_receive_amount amount fee_bps = calculate_fee amount fee_bps >>= λ fee. ok (amount -ℤ fee)
