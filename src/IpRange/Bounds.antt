-- ===== src/IpRange/Bounds.antt =====
-- The numbers of addresses have 32 and 128 binary digits.
use c_address_onboarding_bri.Prelude.{
  ℕ, zero, suc, Bool, true, false, Option, none, some, ◌≡◌, refl, subst, ◌≤◌, ◌<◌, ◌+◌, ◌*◌, ◌&&◌,
  ◌==◌, ltb, arith, List, [], ◌∷◌, length, if◌then◌else◌, inl, inr, Option-cases, leb, leb→le,
}
use c_address_onboarding_bri.JsText.{Text, includes, parse_int, split_on}
use c_address_onboarding_bri.IpRange.{
  add_octet, add_octets, add_group, add_groups, group_value, hex_digits, hex_value, add_digit,
  eight, all_groups, with_ipv4, groups_of, ip_to_num, ipv6_to_big_int,
}
use c_address_onboarding_bri.IpRange.Masks.{IsBelow, ==-true}

add_octet-lt : (acc : ℕ) (o : Option (Bool × ℕ)) → add_octet acc o < 4294967296
add_octet-lt acc none = omega arith
add_octet-lt acc (some (false, n)) = omega arith
add_octet-lt acc (some (true, n)) = omega arith

add_octets-lt : (acc : ℕ) (ps : List Text) → acc < 4294967296 → add_octets acc ps < 4294967296
add_octets-lt acc [] h = h
add_octets-lt acc (p ∷ ps) h =
    add_octets-lt (add_octet acc (parse_int p)) ps (add_octet-lt acc (parse_int p))

-- Numbers of hexadecimal digits and of groups.
hex_value-lt : (c d : ℕ) → hex_value c ≡ some d → d < 16
hex_value-lt c d h = ground arith

none_is_not : {n : ℕ} → none ≡ some n → ⊥
none_is_not h = cc

when-some :
    (c : Bool) (o : Option ℕ) (n : ℕ) → (if c then o else none) ≡ some n → (c ≡ true) × (o ≡ some n)
when-some false o n h = absurd cc
when-some true o n h = (refl, h)

both_true : (a b : Bool) → a && b ≡ true → (a ≡ true) × (b ≡ true)
both_true false b h = absurd cc
both_true true b h = (refl, h)

-- A bound, that many times the base.
abbrev grown : ℕ → ℕ → ℕ → ℕ
grown base zero b = b
grown base (suc n) b = grown base n (b * base)

hex_digits-lt :
    (cs : Text) (acc b n : ℕ)
    → acc < b
    → hex_digits (some acc) cs ≡ some n
    → n < grown 16 (length cs) b
hex_digits-lt [] acc b n l h = ground arith
hex_digits-lt (c ∷ cs) acc b n l h = elim (Option-cases (hex_value c)) [
  | inl e ↦ absurd (none_is_not (subst (λ o. hex_digits (add_digit acc o) cs ≡ some n) e h))
  | inr (d, e) ↦
      hex_digits-lt cs (acc * 16 + d) (b * 16) n (omega (arith, l, hex_value-lt c d e))
        (subst (λ o. hex_digits (add_digit acc o) cs ≡ some n) e h)
]

group_value-lt : (g : Text) (n : ℕ) → group_value g ≡ some n → n < 65536
unfolding group_value
group_value-lt g n h =
    let (c, v) = when-some (ltb 0 (length g) && leb (length g) 4) (hex_digits (some 0) g) n h in
    few (length g) (leb→le (length g) 4 (both_true (ltb 0 (length g)) (leb (length g) 4) c).1)
      (hex_digits-lt g 0 1 n (omega arith) v)
  where
    few : (k : ℕ) → k ≤ 4 → n < grown 16 k 1 → n < 65536
    few zero l p = omega (arith, p)
    few (suc zero) l p = omega (arith, p)
    few (suc (suc zero)) l p = omega (arith, p)
    few (suc (suc (suc zero))) l p = omega (arith, p)
    few (suc (suc (suc (suc zero)))) l p = omega (arith, p)
    few (suc (suc (suc (suc (suc k))))) l p = absurd (omega (arith, l))

add_groups-lt :
    (gs : List Text) (acc b n : ℕ)
    → acc < b
    → add_groups (some acc) gs ≡ some n
    → n < grown 65536 (length gs) b
add_groups-lt [] acc b n l h = ground arith
add_groups-lt (g ∷ gs) acc b n l h = elim (Option-cases (group_value g)) [
  | inl e ↦ absurd (none_is_not (subst (λ o. add_groups (add_group acc o) gs ≡ some n) e h))
  | inr (d, e) ↦
      add_groups-lt gs (acc * 65536 + d) (b * 65536) n (omega (arith, l, group_value-lt g d e))
        (subst (λ o. add_groups (add_group acc o) gs ≡ some n) e h)
]

module _ (is_ip : Text → ℕ) where
  pub ip_to_num-IsBelow : (ip : Text) (n : ℕ) → ip_to_num is_ip ip ≡ some n → IsBelow 32 n
  unfolding ip_to_num
  ip_to_num-IsBelow ip n h = ground (arith, add_octets-lt 0 (split_on 46 ip))

  eight-IsBelow : (o : Option (List Text)) (n : ℕ) → eight is_ip o ≡ some n → IsBelow 128 n
  eight-IsBelow none n h = absurd cc
  eight-IsBelow (some gs) n h =
      let (e, v) = when-some (length gs == 8) (add_groups (some 0) gs) n h in
      subst (λ k. n < grown 65536 k 1) (==-true (length gs) 8 e)
        (add_groups-lt gs 0 1 n (omega arith) v)

  all_groups-IsBelow :
      (o : Option (List Text)) (n : ℕ) → all_groups is_ip o ≡ some n → IsBelow 128 n
  all_groups-IsBelow none n h = absurd cc
  all_groups-IsBelow (some gs) n h = eight-IsBelow (with_ipv4 is_ip gs) n h

  pub ipv6_to_big_int-IsBelow :
      (ip : Text) (n : ℕ) → ipv6_to_big_int is_ip ip ≡ some n → IsBelow 128 n
  unfolding ipv6_to_big_int
  ipv6_to_big_int-IsBelow ip n h =
      let (c, v) = when-some (includes 58 ip) (all_groups is_ip (groups_of is_ip ip)) n h in
      all_groups-IsBelow (groups_of is_ip ip) n v
