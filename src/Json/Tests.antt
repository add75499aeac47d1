-- ===== src/Json/Tests.antt =====
-- The printer at concrete values.
use c_address_onboarding_bri.Prelude.{String, ◌≡◌, ◌≢◌, refl, true, false, if◌then◌else◌, ===_iff}
use c_address_onboarding_bri.Json.{
  Json, null, text, object, end, field, Printer, stable_stringify, insert_field, sort_fields, ◌+++◌,
}
use c_address_onboarding_bri.Json.KeyOrder.{objects, swap, stable_stringify-Same}
use c_address_onboarding_bri.Json.CodeOrder.{text_le, text_le-IsLinear}

-- Numbers and texts as a few letters, in quotes where they are texts.
abbrev printer : Printer
printer = record {
  show_null = "null";
  show_boolean = λ b. if b then "true" else "false";
  show_number = λ n. "0";
  show_text = λ s. "'" +++ s +++ "'";
  le = text_le;
}

abbrev forwards : Json
forwards = object (field "b" null (field "a" (text "x") end))

abbrev backwards : Json
backwards = object (field "a" (text "x") (field "b" null end))

stringify-forwards : stable_stringify printer forwards ≡ "{'a':'x','b':null}"
unfolding stable_stringify insert_field sort_fields
stringify-forwards = refl

b-≢-a : ◌≢◌ {A = String} "b" "a"
b-≢-a e = let h : false ≡ true = (===_iff "b" "a").1 e in cc

stable_stringify-Same_example :
    stable_stringify printer forwards ≡ stable_stringify printer backwards
stable_stringify-Same_example =
    stable_stringify-Same printer text_le-IsLinear forwards backwards (objects (swap b-≢-a))
