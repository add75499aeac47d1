-- ===== src/CexWithdrawal.antt =====
-- Withdrawals from exchanges, cex/withdrawal-router.ts: the texts of amounts and memos, the router, and what
-- the handlers make of the answers of the exchanges. The requests themselves are not modelled: how a
-- call ends is an argument. Of the two declarations of `stroopsToDecimal`, the second is modelled.

pub mod Amounts
pub mod Outcomes
mod Tests
use c_address_onboarding_bri.Prelude.{
  ℕ, zero, suc, Bool, true, false, not, Option, none, some, ◌+◌, ◌-◌, ◌&&◌, if◌then◌else◌, leb, ltb,
  ◌==◌, or_else, List, [], ◌∷◌, ◌++◌, length, take, drop, every, map, String,
}
use c_address_onboarding_bri.Prelude.Result.{Result, ok, err}
use c_address_onboarding_bri.JsMap.{JsMap, keys}
use c_address_onboarding_bri.JsMap
use c_address_onboarding_bri.JsText.{Text, same_text, split_on}
use c_address_onboarding_bri.TokenAmount.{are_digits, unsigned, with_sign, pad_start}

-- `replace(/0+$/, '')`
abbrev pub drop_zero : ℕ → Text → Text
drop_zero c (d ∷ ds) = c ∷ d ∷ ds
drop_zero c [] = if c == 48 then [] else c ∷ []

unfoldable pub trim_zeros : Text → Text
trim_zeros [] = []
trim_zeros (c ∷ cs) = drop_zero c (trim_zeros cs)

abbrev pub joined : Text → Text → Text
joined whole [] = whole
joined whole (c ∷ cs) = whole ++ 46 ∷ c ∷ cs

unfoldable pub stroops_to_decimal : Text → ℕ → Text
stroops_to_decimal stroops decimals =
    let (negative, raw) = unsigned stroops in
    let digits = pad_start (decimals + 1) raw in
    let whole = take (length digits - decimals) digits in
    let fraction = trim_zeros (drop (length digits - decimals) digits) in
    if are_digits raw then with_sign negative (joined whole fraction) else stroops

-- `targetCAddress.slice(-8)`
abbrev pub last_eight : Text → Text
last_eight t = drop (length t - 8) t

-- `bridge:`
abbrev pub bridge_text : Text
bridge_text = 98 ∷ 114 ∷ 105 ∷ 100 ∷ 103 ∷ 101 ∷ []

unfoldable pub create_cex_withdrawal_memo : Text → Text → Text
create_cex_withdrawal_memo target_c_address exchange_name =
    bridge_text ++ 58 ∷ exchange_name ++ 58 ∷ last_eight target_c_address

-- `^bridge:([^:]+):([^:]+)$`: three parts around colons, the first as given, the others not empty.
abbrev pub memo_parts : List Text → Option (Text × Text)
memo_parts [] = none
memo_parts (p ∷ []) = none
memo_parts (p ∷ e ∷ []) = none
memo_parts (p ∷ e ∷ s ∷ []) =
    if same_text p bridge_text && ltb 0 (length e) && ltb 0 (length s) then some (e, s) else none
memo_parts (p ∷ e ∷ s ∷ t ∷ ts) = none

unfoldable pub parse_cex_withdrawal_memo : Text → Option (Text × Text)
parse_cex_withdrawal_memo memo = memo_parts (split_on 58 memo)

pub data Status : Type 0 where
  pending processing completed failed : Status

pub record WithdrawalResult : Type 0 where
  pub success : Bool
  pub withdrawal_id : Text
  pub tx_hash : Option Text
  pub status : Status
  pub error : Option Text

-- How the call of an exchange ends: it throws (or its body is no JSON), the status is no success, with the
-- text of the body, or it is, with what is read of the JSON.
pub data Answer (D : Type 0) : Type 0 where
  threw : Text → Answer D
  not_ok : Text → Answer D
  answered : D → Answer D

pub record BinanceData : Type 0 where
  pub id : Option Text
  pub tx_id : Option Text

pub record CoinbaseData : Type 0 where
  pub id : Option Text
  pub data_id : Option Text

pub record KrakenData : Type 0 where
  pub error : Option (List Text)
  pub refid : Option Text

abbrev pub failure : Text → Option Text → WithdrawalResult
failure id why = record {
  success = false;
  withdrawal_id = id;
  tx_hash = none;
  status = failed;
  error = why;
}

abbrev pub accepted : Text → Option Text → WithdrawalResult
accepted id tx = record {
  success = true;
  withdrawal_id = id;
  tx_hash = tx;
  status = pending;
  error = none;
}

-- `bin-`, `cb-` and `kr-` before a text; `now` is the text of the clock.
abbrev pub with_bin : Text → Text
with_bin t = 98 ∷ 105 ∷ 110 ∷ 45 ∷ t

abbrev pub with_cb : Text → Text
with_cb t = 99 ∷ 98 ∷ 45 ∷ t

abbrev pub with_kr : Text → Text
with_kr t = 107 ∷ 114 ∷ 45 ∷ t

unfoldable pub binance : Text → Answer BinanceData → WithdrawalResult
binance now (threw why) = failure (with_bin now) none
binance now (not_ok body) = failure (with_bin now) none
binance now (answered d) = accepted (with_bin (or_else d.id now)) d.tx_id

unfoldable pub coinbase : Text → Answer CoinbaseData → WithdrawalResult
coinbase now (threw why) = failure (with_cb now) none
coinbase now (not_ok body) = failure (with_cb now) none
coinbase now (answered d) = accepted (with_cb (or_else d.id (or_else d.data_id now))) none

-- `errors.join(', ')`
abbrev pub join : List Text → Text
join [] = []
join (e ∷ []) = e
join (e ∷ f ∷ es) = e ++ 44 ∷ 32 ∷ join (f ∷ es)

-- `Missing withdrawal refid`
abbrev pub missing_refid : Text
missing_refid =
    77 ∷ 105 ∷ 115 ∷ 115 ∷ 105 ∷ 110 ∷ 103 ∷ 32 ∷ 119 ∷ 105 ∷ 116 ∷ 104 ∷ 100 ∷ 114 ∷ 97 ∷ 119 ∷ 97
    ∷ 108 ∷ 32 ∷ 114 ∷ 101 ∷ 102 ∷ 105 ∷ 100 ∷ []

abbrev pub by_refid : Text → Option Text → WithdrawalResult
by_refid now none = failure (with_kr now) (some missing_refid)
by_refid now (some []) = failure (with_kr now) (some missing_refid)
by_refid now (some (c ∷ cs)) = accepted (c ∷ cs) none

abbrev pub by_errors : Text → Option (List Text) → Option Text → WithdrawalResult
by_errors now none refid = by_refid now refid
by_errors now (some []) refid = by_refid now refid
by_errors now (some (e ∷ es)) refid = failure (with_kr now) (some (join (e ∷ es)))

unfoldable pub kraken : Text → Answer KrakenData → WithdrawalResult
kraken now (threw why) = failure (with_kr now) (some why)
kraken now (not_ok body) = failure (with_kr now) (some body)
kraken now (answered d) = by_errors now d.error d.refid

-- The router, over handlers with their configuration; names are in lower case.
pub record Entry (Config Request Outcome : Type 0) : Type 0 where
  pub config : Config
  pub handler : Request → Config → Outcome

module _ {Config Request Outcome : Type 0} (to_lower_case : String → String) where
  unfoldable pub register_exchange :
      String
      → Config
      → (Request → Config → Outcome)
      → JsMap (Entry Config Request Outcome)
      → JsMap (Entry Config Request Outcome)
  register_exchange name config handler handlers =
      JsMap.set (to_lower_case name) (record { config = config; handler = handler }) handlers

  abbrev pub handled : Request → Option (Entry Config Request Outcome) → Result String Outcome
  handled req none = err "unsupported exchange"
  handled req (some e) = ok (e.handler req e.config)

  unfoldable pub route_withdrawal :
      String → Request → JsMap (Entry Config Request Outcome) → Result String Outcome
  route_withdrawal exchange req handlers = handled req (JsMap.get (to_lower_case exchange) handlers)

  unfoldable pub get_supported_exchanges : JsMap (Entry Config Request Outcome) → List String
  get_supported_exchanges handlers = keys handlers
