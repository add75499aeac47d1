-- ===== src/CexWithdrawal/Tests.antt =====
-- Withdrawals at concrete inputs.
use Prim.Native.Char.{code}
use c_address_onboarding_bri.Prelude.{String, true, some, ◌≡◌, ◌≢◌, ◌↔◌, refl, [], ◌∷◌}
use c_address_onboarding_bri.Prelude.Result.{ok}
use c_address_onboarding_bri.JsText.{Text}
use c_address_onboarding_bri.TokenAmount.{pad_start, parse_token_amount}
use c_address_onboarding_bri.TokenAmount.RoundTrip.{canonical}
use c_address_onboarding_bri.CexWithdrawal.{
  stroops_to_decimal, trim_zeros, parse_cex_withdrawal_memo, kraken, answered, Answer, KrakenData,
  pending,
}
use c_address_onboarding_bri.CexWithdrawal.Amounts.{parse-stroops_to_decimal}
use c_address_onboarding_bri.CexWithdrawal.Outcomes.{IsNamed, kraken_iff}

abbrev codes : String → Text
codes String.[] = []
codes (String.◌∷◌ c s) = code c ∷ codes s

one_and_a_half : stroops_to_decimal (codes "15000000") 7 ≡ codes "1.5"
unfolding stroops_to_decimal pad_start trim_zeros
one_and_a_half = refl

one : stroops_to_decimal (codes "10000000") 7 ≡ codes "1"
unfolding stroops_to_decimal pad_start trim_zeros
one = refl

memo :
    parse_cex_withdrawal_memo (codes "bridge:kraken:ABCDEFGH")
    ≡ some (codes "kraken", codes "ABCDEFGH")
unfolding parse_cex_withdrawal_memo
memo = refl

parse-stroops_to_decimal_example :
    parse_token_amount (stroops_to_decimal (codes "15000000") 7) 7
    ≡ ok (canonical (codes "15000000"))
parse-stroops_to_decimal_example = parse-stroops_to_decimal (codes "15000000") 7 refl

abbrev answer : Answer KrakenData
answer = answered (record { error = some []; refid = some (codes "R1") })

kraken_iff_example :
    (((kraken (codes "5") answer).success ≡ true) ↔ ((id : Text) × (id ≢ []) × IsNamed id answer))
    × ((kraken (codes "5") answer).success ≡ true
        → IsNamed (kraken (codes "5") answer).withdrawal_id answer
          × ((kraken (codes "5") answer).status ≡ pending))
kraken_iff_example = kraken_iff (codes "5") answer
