-- ===== src/IpRange.antt =====
-- The addresses and address ranges of API keys, api/src/middleware/rbacAuth.ts: `matchesCidr`, `ipToNum`,
-- `ipv6ToBigInt`, `isIpAllowed`, `validateIpOrCidr`. Texts are lists of UTF-16 units; Node's `net.isIP`
-- is a parameter.
pub mod Masks
pub mod Bounds
pub mod Ranges
pub mod Dotted
mod Tests
use Prim.Native.Nat.{min}
use c_address_onboarding_bri.Prelude.{
  ℕ, zero, suc, Bool, true, false, not, Option, none, some, ◌+◌, ◌*◌, ◌-◌, ◌/◌, ◌%◌, ◌^◌, ◌&&◌,
  ◌||◌, if◌then◌else◌, leb, ltb, ◌==◌, List, [], ◌∷◌, ◌++◌, length, any,
}
use c_address_onboarding_bri.JsText.{
  Text, same_text, includes, split_on, includes_double, split_double, is_digit, Signed, parse_int,
  to_base,
}

-- `(acc << 8) + parseInt(p, 10)`, kept modulo 2^32 as `>>> 0` has it at the end; NaN counts as 0.
abbrev pub add_octet : ℕ → Option Signed → ℕ
add_octet acc none = 0
add_octet acc (some (false, n)) = (acc * 256 + n) % 2 ^ 32
add_octet acc (some (true, n)) = (acc * 256 + (2 ^ 32 - n % 2 ^ 32)) % 2 ^ 32

abbrev pub add_octets : ℕ → List Text → ℕ
add_octets acc [] = acc
add_octets acc (p ∷ ps) = add_octets (add_octet acc (parse_int p)) ps

abbrev pub hex_value : ℕ → Option ℕ
hex_value c =
    if is_digit c
    then some (c - 48)
    else if leb 97 c && leb c 102
    then some (c - 87)
    else if leb 65 c && leb c 70
    then some (c - 55)
    else none

abbrev pub add_digit : ℕ → Option ℕ → Option ℕ
add_digit acc none = none
add_digit acc (some d) = some (acc * 16 + d)

-- `parseInt(g, 16)` of a group that the regular expression `[0-9a-fA-F]{1,4}` takes.
abbrev pub hex_digits : Option ℕ → Text → Option ℕ
hex_digits none cs = none
hex_digits (some acc) [] = some acc
hex_digits (some acc) (c ∷ cs) = hex_digits (add_digit acc (hex_value c)) cs

unfoldable pub group_value : Text → Option ℕ
group_value g = if ltb 0 (length g) && leb (length g) 4 then hex_digits (some 0) g else none

-- `(result << 16n) | group`: a group has 16 bits.
abbrev pub add_group : ℕ → Option ℕ → Option ℕ
add_group acc none = none
add_group acc (some g) = some (acc * 65536 + g)

abbrev pub add_groups : Option ℕ → List Text → Option ℕ
add_groups none gs = none
add_groups (some acc) [] = some acc
add_groups (some acc) (g ∷ gs) = add_groups (add_group acc (group_value g)) gs

abbrev pub zeros : ℕ → List Text
zeros zero = []
zeros (suc n) = (48 ∷ []) ∷ zeros n

-- `text ? text.split(':') : []`
abbrev pub parts_of : Text → List Text
parts_of [] = []
parts_of (c ∷ cs) = split_on 58 (c ∷ cs)

unfoldable pub mask_v6 : ℕ → ℕ
mask_v6 bits = (2 ^ bits - 1) * 2 ^ (128 - bits)

-- `bits === 0 ? 0 : (0xffffffff << (32 - bits)) >>> 0`
unfoldable pub mask_v4 : ℕ → ℕ
mask_v4 zero = 0
mask_v4 (suc b) = 4294967295 * 2 ^ (32 - suc b) % 2 ^ 32

-- `a & b` on numbers of `width` bits.
abbrev pub and_bits : ℕ → ℕ → ℕ → ℕ
and_bits zero a b = 0
and_bits (suc width) a b = and_bits width (a / 2) (b / 2) * 2 + min (a % 2) (b % 2)

abbrev pub both_masked : ℕ → ℕ → Option ℕ → Option ℕ → Bool
both_masked width mask (some n) (some m) = and_bits width n mask == and_bits width m mask
both_masked width mask (some n) none = false
both_masked width mask none m = false

-- A prefix length that is a number and not below 0; −0 is not.
abbrev pub not_negative : Option Signed → Option ℕ
not_negative none = none
not_negative (some (false, n)) = some n
not_negative (some (true, zero)) = some 0
not_negative (some (true, suc n)) = none

module _ (is_ip : Text → ℕ) where
  unfoldable pub ip_to_num : Text → Option ℕ
  ip_to_num ip =
      if is_ip ip == 4
      then (let parts = split_on 46 ip in
          if length parts == 4 then some (add_octets 0 parts) else none)
      else none

  -- A last group that is an IPv4 address stands for two groups.
  abbrev pub two_groups : Option ℕ → Option (List Text)
  two_groups none = none
  two_groups (some n) =
      some (to_base 4 16 (n / 65536 % 65536) [] ∷ to_base 4 16 (n % 65536) [] ∷ [])

  abbrev pub before : Text → Option (List Text) → Option (List Text)
  before g none = none
  before g (some gs) = some (g ∷ gs)

  abbrev pub with_ipv4 : List Text → Option (List Text)
  with_ipv4 [] = some []
  with_ipv4 (g ∷ []) = if includes 46 g then two_groups (ip_to_num g) else some (g ∷ [])
  with_ipv4 (g ∷ h ∷ gs) = before g (with_ipv4 (h ∷ gs))

  abbrev pub filled : List Text → List Text → Option (List Text)
  filled left right =
      if ltb 8 (length left + length right)
      then none
      else some (left ++ zeros (8 - (length left + length right)) ++ right)

  -- The groups around the first `::`; what stands after a second one is not read.
  abbrev pub around : List Text → Option (List Text)
  around [] = none
  around (left ∷ []) = none
  around (left ∷ right ∷ others) =
      if includes_double 58 left || includes_double 58 right
      then none
      else filled (parts_of left) (parts_of right)

  unfoldable pub groups_of : Text → Option (List Text)
  groups_of ip =
      if includes_double 58 ip then around (split_double 58 ip) else some (split_on 58 ip)

  abbrev pub eight : Option (List Text) → Option ℕ
  eight none = none
  eight (some gs) = if length gs == 8 then add_groups (some 0) gs else none

  abbrev pub all_groups : Option (List Text) → Option ℕ
  all_groups none = none
  all_groups (some gs) = eight (with_ipv4 gs)

  unfoldable pub ipv6_to_big_int : Text → Option ℕ
  ipv6_to_big_int ip = if includes 58 ip then all_groups (groups_of ip) else none

  abbrev pub in_network : Text → Text → Option ℕ → Bool
  in_network ip network none = false
  in_network ip network (some bits) =
      if includes 58 ip || includes 58 network
      then (if ltb 128 bits
          then false
          else both_masked 128 (mask_v6 bits) (ipv6_to_big_int ip) (ipv6_to_big_int network))
      else (if ltb 32 bits
          then false
          else both_masked 32 (mask_v4 bits) (ip_to_num ip) (ip_to_num network))

  abbrev pub in_range : Text → List Text → Bool
  in_range ip [] = false
  in_range ip (network ∷ []) = false
  in_range ip (network ∷ bits_str ∷ others) =
      in_network ip network (not_negative (parse_int bits_str))

  unfoldable pub matches_cidr : Text → Text → Bool
  matches_cidr ip cidr =
      if includes 47 cidr then in_range ip (split_on 47 cidr) else same_text ip cidr

  unfoldable pub is_ip_allowed : Text → List Text → Bool
  is_ip_allowed ip [] = true
  is_ip_allowed ip (c ∷ cs) = any (matches_cidr ip) (c ∷ cs)

  -- `entry.slice(0, entry.lastIndexOf('/'))` and what follows the last slash.
  abbrev pub at_last : ℕ → Text → Text × Text
  at_last c [] = ([], [])
  at_last c (d ∷ ds) =
      let (host, rest) = at_last c ds in
      if d == c && not (includes c ds) then ([], ds) else (d ∷ host, rest)

  -- `String(prefix)`; −0 prints as 0.
  abbrev pub to_text : Signed → Text
  to_text (false, n) = to_base (suc n) 10 n []
  to_text (true, zero) = 48 ∷ []
  to_text (true, suc n) = 45 ∷ to_base (suc (suc n)) 10 (suc n) []

  abbrev pub fits : ℕ → Signed → Bool
  fits version (true, zero) = version == 4 || version == 6
  fits version (true, suc n) = false
  fits version (false, n) = if version == 4 then leb n 32 else version == 6 && leb n 128

  abbrev pub valid_prefix : Text → Text → Option Signed → Bool
  valid_prefix host prefix_str none = false
  valid_prefix host prefix_str (some prefix) =
      same_text (to_text prefix) prefix_str && fits (is_ip host) prefix

  unfoldable pub validate_ip_or_cidr : Text → Bool
  validate_ip_or_cidr [] = false
  validate_ip_or_cidr (c ∷ cs) =
      let (host, prefix_str) = at_last 47 (c ∷ cs) in
      if includes 47 (c ∷ cs)
      then valid_prefix host prefix_str (parse_int prefix_str)
      else not (is_ip (c ∷ cs) == 0)
