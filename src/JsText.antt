-- ===== src/JsText.antt =====
-- Operations of the language on texts, as lists of UTF-16 units: `includes`, `split`, `parseInt(text, 10)`,
-- `toString`.
use Prim.Native.Char.{code}
use c_address_onboarding_bri.Prelude.{
  ℕ, zero, String, suc, Bool, true, false, Option, none, some, ◌+◌, ◌*◌, ◌-◌, ◌/◌, ◌%◌, ◌&&◌, ◌||◌,
  if◌then◌else◌, leb, ltb, ◌==◌, List, [], ◌∷◌, any,
}

abbrev pub Text : Type 0
Text = List ℕ

abbrev pub same_text : Text → Text → Bool
same_text [] [] = true
same_text [] (d ∷ ds) = false
same_text (c ∷ cs) [] = false
same_text (c ∷ cs) (d ∷ ds) = c == d && same_text cs ds

abbrev pub includes : ℕ → Text → Bool
includes c = any (λ d. d == c)

-- `text.split(c)` for a single character.
abbrev pub push : ℕ → List Text → List Text
push c [] = (c ∷ []) ∷ []
push c (part ∷ parts) = (c ∷ part) ∷ parts

abbrev pub split_on : ℕ → Text → List Text
split_on c [] = [] ∷ []
split_on c (d ∷ ds) = let rest = split_on c ds in if d == c then [] ∷ rest else push d rest

-- `text.includes('::')` and `text.split('::')`, for a character twice.
abbrev pub includes_double : ℕ → Text → Bool
includes_double c [] = false
includes_double c (d ∷ []) = false
includes_double c (d ∷ e ∷ ds) = d == c && e == c || includes_double c (e ∷ ds)

abbrev pub split_double : ℕ → Text → List Text
split_double c [] = [] ∷ []
split_double c (d ∷ []) = (d ∷ []) ∷ []
split_double c (d ∷ e ∷ ds) = elim (d == c && e == c) [
  | true ↦ [] ∷ split_double c ds
  | false ↦ push d (split_double c (e ∷ ds))
]

abbrev pub is_digit : ℕ → Bool
is_digit c = leb 48 c && leb c 57

-- The white space that `parseInt` passes over.
abbrev pub is_white : ℕ → Bool
is_white c =
    leb 9 c && leb c 13
    || c == 32
    || c == 160
    || c == 5760
    || leb 8192 c && leb c 8202
    || c == 8232
    || c == 8233
    || c == 8239
    || c == 8287
    || c == 12288
    || c == 65279

-- The leading digits, as a number, if there is one at least.
abbrev pub digits_from : Option ℕ → Text → Option ℕ
digits_from seen [] = seen
digits_from none (c ∷ cs) = if is_digit c then digits_from (some (c - 48)) cs else none
digits_from (some n) (c ∷ cs) =
    if is_digit c then digits_from (some (n * 10 + (c - 48))) cs else some n

-- The result of `parseInt(text, 10)`: none for NaN, or a sign (true if negative) and a magnitude.
abbrev pub Signed : Type 0
Signed = Bool × ℕ

abbrev pub signed_by : Bool → Option ℕ → Option Signed
signed_by negative none = none
signed_by negative (some n) = some (negative, n)

abbrev pub signed : Text → Option Signed
signed [] = none
signed (c ∷ cs) =
    if c == 45
    then signed_by true (digits_from none cs)
    else if c == 43
    then signed_by false (digits_from none cs)
    else signed_by false (digits_from none (c ∷ cs))

unfoldable pub parse_int : Text → Option Signed
parse_int [] = none
parse_int (c ∷ cs) = let rest = parse_int cs in if is_white c then rest else signed (c ∷ cs)

-- `n.toString(base)`, on fuel for the digits.
abbrev pub digit_char : ℕ → ℕ
digit_char d = if ltb d 10 then 48 + d else 87 + d

abbrev pub to_base : ℕ → ℕ → ℕ → Text → Text
to_base zero base n acc = acc
to_base (suc fuel) base n acc =
    let more = to_base fuel base (n / base) (digit_char (n % base) ∷ acc) in
    if ltb n base then digit_char n ∷ acc else more

-- On native strings: only white space, and `trim`.
abbrev pub is_blank : String → Bool
is_blank String.[] = true
is_blank (String.◌∷◌ c s) = is_white (code c) && is_blank s

abbrev pub trim_start : String → String
trim_start String.[] = String.[]
trim_start (String.◌∷◌ c s) =
    let rest = trim_start s in if is_white (code c) then rest else String.◌∷◌ c s

abbrev pub trim_end : String → String
trim_end String.[] = String.[]
trim_end (String.◌∷◌ c s) =
    let rest = trim_end s in
    if is_white (code c) && is_blank s then String.[] else String.◌∷◌ c rest

abbrev pub trim : String → String
trim s = trim_end (trim_start s)
