-- ===== src/IpRange/Tests.antt =====
-- Addresses and ranges at concrete texts.
use Prim.Native.Char.{code}
use c_address_onboarding_bri.Prelude.{
  ℕ, String, true, false, some, none, ◌≡◌, refl, ◌≤◌, ◌-◌, ◌++◌, ◌↔◌, [], ◌∷◌, if◌then◌else◌, ◌==◌,
  length, arith,
}
use c_address_onboarding_bri.JsText.{Text, split_on, includes, parse_int}
use c_address_onboarding_bri.IpRange.{
  ip_to_num, ipv6_to_big_int, groups_of, group_value, mask_v4, mask_v6, matches_cidr,
  validate_ip_or_cidr, not_negative,
}
use c_address_onboarding_bri.IpRange.Masks.{without_last}
use c_address_onboarding_bri.IpRange.Dotted.{decimal_text, dotted, value, matches_cidr-dotted}
use c_address_onboarding_bri.IpRange.Ranges.{matches_cidr_iff, is_v6, width, AgreeIn}

abbrev codes : String → Text
codes String.[] = []
codes (String.◌∷◌ c s) = code c ∷ codes s

-- A stand-in for `net.isIP` at the addresses below: by the colons and dots.
abbrev is_ip : Text → ℕ
is_ip t = if includes 58 t then 6 else if length (split_on 46 t) == 4 then 4 else 0

in_ten : matches_cidr is_ip (codes "10.1.2.3") (codes "10.0.0.0/8") ≡ true
unfolding matches_cidr ip_to_num mask_v4 parse_int
in_ten = refl

not_in_ten : matches_cidr is_ip (codes "11.1.2.3") (codes "10.0.0.0/8") ≡ false
unfolding matches_cidr ip_to_num mask_v4 parse_int
not_in_ten = refl

in_documentation : matches_cidr is_ip (codes "2001:db8::1") (codes "2001:db8::/32") ≡ true
unfolding matches_cidr ipv6_to_big_int groups_of group_value mask_v6 parse_int
in_documentation = refl

-- The zeros are filled in before the IPv4 part is counted as two groups, so that there are nine.
mapped_ipv4 : ipv6_to_big_int is_ip (codes "::ffff:1.2.3.4") ≡ none
unfolding ipv6_to_big_int groups_of group_value ip_to_num parse_int
mapped_ipv4 = refl

-- What follows a second `::` is not read.
second_gap : ipv6_to_big_int is_ip (codes "1::2::3") ≡ ipv6_to_big_int is_ip (codes "1::2")
unfolding ipv6_to_big_int groups_of group_value
second_gap = refl

valid_range : validate_ip_or_cidr is_ip (codes "10.0.0.0/8") ≡ true
unfolding validate_ip_or_cidr parse_int
valid_range = refl

invalid_range : validate_ip_or_cidr is_ip (codes "10.0.0.0/33") ≡ false
unfolding validate_ip_or_cidr parse_int
invalid_range = refl

matches_cidr_iff_example : (matches_cidr is_ip (codes "10.1.2.3") (codes "10.0.0.0/8") ≡ true) ↔ (
    (bits : ℕ) × (not_negative (parse_int (codes "8")) ≡ some bits)
    × (bits ≤ width is_ip (is_v6 is_ip (codes "10.1.2.3") (codes "10.0.0.0")))
    × AgreeIn is_ip
        (is_v6 is_ip (codes "10.1.2.3") (codes "10.0.0.0"))
        (codes "10.1.2.3")
        (codes "10.0.0.0")
        bits)
matches_cidr_iff_example =
    matches_cidr_iff is_ip (codes "10.1.2.3") (codes "10.0.0.0") (codes "8") refl refl

matches_cidr-dotted_example :
    (matches_cidr is_ip (dotted 10 1 2 3) (dotted 10 0 0 0 ++ 47 ∷ decimal_text 8) ≡ true)
    ↔ (8 ≤ 32 × (without_last (32 - 8) (value 10 1 2 3) ≡ without_last (32 - 8) (value 10 0 0 0)))
matches_cidr-dotted_example =
    matches_cidr-dotted is_ip 10 1 2 3 10 0 0 0 8
      (omega arith, omega arith, omega arith, omega arith)
      (omega arith, omega arith, omega arith, omega arith) (omega arith) refl refl
