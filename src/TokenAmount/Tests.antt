-- ===== src/TokenAmount/Tests.antt =====
-- Amounts at concrete texts.
use Prim.Native.Char.{code}
use c_address_onboarding_bri.Prelude.{
  ℕ, String, false, some, ◌≡◌, refl, ◌≤◌, ◌<◌, ◌+◌, ◌*◌, ◌-◌, [], ◌∷◌, arith,
}
use c_address_onboarding_bri.Prelude.Result.{ok, err}
use c_address_onboarding_bri.JsText.{Text}
use c_address_onboarding_bri.TokenAmount.{
  format_token_amount, parse_token_amount, with_point, strip, pad_start, pad_end, decimal_parts,
  pos, calculate_fee, calculate_receive_amount, too_many_decimals, token_from_legacy, native,
}
use c_address_onboarding_bri.TokenAmount.RoundTrip.{canonical, parse-format}
use c_address_onboarding_bri.TokenAmount.Fees.{fee-splits}

abbrev codes : String → Text
codes String.[] = []
codes (String.◌∷◌ c s) = code c ∷ codes s

formats : format_token_amount (codes "-001500") 6 ≡ ok (codes "-0.001500")
unfolding format_token_amount with_point strip pad_start
formats = refl

parses : parse_token_amount (codes "1.5") 6 ≡ ok (codes "1500000")
unfolding parse_token_amount decimal_parts strip pad_end
parses = refl

parses_too_many : parse_token_amount (codes "1.55") 1 ≡ err too_many_decimals
unfolding parse_token_amount decimal_parts strip pad_end
parses_too_many = refl

legacy_native : token_from_legacy (λ t. false) (some []) (some (codes "native")) ≡ ok native
unfolding token_from_legacy
legacy_native = refl

parse-format_example : parse_token_amount (codes "-0.001500") 6 ≡ ok (canonical (codes "-001500"))
parse-format_example = parse-format (codes "-001500") 6 (codes "-0.001500") formats

fee-splits_example :
    (f : ℕ) × (calculate_fee (pos 12345) (some (pos 30)) ≡ ok (pos f))
    × (calculate_receive_amount (pos 12345) (some (pos 30)) ≡ ok (pos (12345 - f)))
    × (f ≤ 12345)
    × (f * 10000 ≤ 12345 * 30)
    × (12345 * 30 < f * 10000 + 10000)
fee-splits_example = fee-splits 12345 30 (omega arith)
