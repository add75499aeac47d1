-- ===== src/IpRange/Dotted.antt =====
-- Ranges of IPv4 addresses as people write them: four numbers below 256 with dots, and a prefix length.
use c_address_onboarding_bri.Prelude.{
  ℕ, true, false, Option, none, some, ◌≡◌, refl, sym, ap, ◌∙◌, subst, ◌≤◌, ◌<◌, ◌+◌, ◌*◌, ◌/◌, ◌%◌,
  ◌-◌, ◌++◌, ◌||◌, ◌==◌, ltb, arith, ◌↔◌, List, [], ◌∷◌, if◌then◌else◌, length, Bool-cases, inl,
  inr,
}
use c_address_onboarding_bri.JsText.{
  Text, includes, parse_int, split_on, is_white, is_digit, signed, signed_by, digits_from,
}
use c_address_onboarding_bri.IpRange.{not_negative, ip_to_num, add_octet, add_octets, matches_cidr}
use c_address_onboarding_bri.IpRange.Masks.{without_last}
use c_address_onboarding_bri.IpRange.Ranges.{
  split_on-append, split_on_whole, is_v6, width, AgreeIn, matches_cidr_iff,
}

-- The decimal text of a number of up to three digits.
abbrev pub decimal_text : ℕ → Text
decimal_text n =
    if ltb n 10
    then (48 + n) ∷ []
    else if ltb n 100
    then (48 + n / 10) ∷ (48 + n % 10) ∷ []
    else (48 + n / 100) ∷ (48 + n / 10 % 10) ∷ (48 + n % 10) ∷ []

abbrev pub dotted : ℕ → ℕ → ℕ → ℕ → Text
dotted a b c d =
    decimal_text a ++ 46 ∷ (decimal_text b ++ 46 ∷ (decimal_text c ++ 46 ∷ decimal_text d))

abbrev pub value : ℕ → ℕ → ℕ → ℕ → ℕ
value a b c d = ((a * 256 + b) * 256 + c) * 256 + d

is_white-digit : (d : ℕ) → d < 10 → is_white (48 + d) ≡ false
is_white-digit d h = ground arith

is_digit-digit : (d : ℕ) → d < 10 → is_digit (48 + d) ≡ true
is_digit-digit d h = ground arith

signed-digit :
    (d : ℕ) (cs : Text)
    → d < 10
    → signed ((48 + d) ∷ cs) ≡ signed_by false (digits_from (some d) cs)
signed-digit d cs h = ground arith

parse_int-digit :
    (d : ℕ) (cs : Text)
    → d < 10
    → parse_int ((48 + d) ∷ cs) ≡ signed_by false (digits_from (some d) cs)
unfolding parse_int
parse_int-digit d cs h =
    ap (λ b. if b then parse_int cs else signed ((48 + d) ∷ cs)) (is_white-digit d h)
    ∙ signed-digit d cs h

digits_from-digit :
    (n d : ℕ) (cs : Text)
    → d < 10
    → digits_from (some n) ((48 + d) ∷ cs) ≡ digits_from (some (n * 10 + d)) cs
digits_from-digit n d cs h = ground (arith, is_digit-digit d h)

parse_int_one : (n : ℕ) → n < 10 → parse_int ((48 + n) ∷ []) ≡ some (false, n)
parse_int_one n h = parse_int-digit n [] h

parse_int_two :
    (a b : ℕ) → a < 10 → b < 10 → parse_int ((48 + a) ∷ (48 + b) ∷ []) ≡ some (false, a * 10 + b)
parse_int_two a b h k =
    parse_int-digit a ((48 + b) ∷ []) h ∙ ap (signed_by false) (digits_from-digit a b [] k)

parse_int_three :
    (a b c : ℕ)
    → a < 10
    → b < 10
    → c < 10
    → parse_int ((48 + a) ∷ (48 + b) ∷ (48 + c) ∷ []) ≡ some (false, (a * 10 + b) * 10 + c)
parse_int_three a b c h k l =
    parse_int-digit a ((48 + b) ∷ (48 + c) ∷ []) h
    ∙ ap (signed_by false)
        (digits_from-digit a b ((48 + c) ∷ []) k ∙ digits_from-digit (a * 10 + b) c [] l)

parse_int-decimal_text : (n : ℕ) → n < 1000 → parse_int (decimal_text n) ≡ some (false, n)
parse_int-decimal_text n h = elim (Bool-cases (ltb n 10)) [
  | inl one ↦
      ap (λ b. parse_int (if b then (48 + n) ∷ [] else long n)) one ∙ parse_int_one n (ground arith)
  | inr more ↦
      ap (λ b. parse_int (if b then (48 + n) ∷ [] else long n)) more
      ∙ (elim (Bool-cases (ltb n 100)) [
        | inl two ↦
            ap (λ b. parse_int (if b then two_digits n else three_digits n)) two
            ∙ parse_int_two (n / 10) (n % 10) (ground arith) (omega arith)
            ∙ ap (λ k. some (false, k)) (omega arith)
        | inr three ↦
            ap (λ b. parse_int (if b then two_digits n else three_digits n)) three
            ∙ parse_int_three (n / 100) (n / 10 % 10) (n % 10) (omega (arith, h)) (omega arith)
                (omega arith)
            ∙ ap (λ k. some (false, k)) (omega arith)
      ])
]
  where
    two_digits : ℕ → Text
    two_digits n = (48 + n / 10) ∷ (48 + n % 10) ∷ []

    three_digits : ℕ → Text
    three_digits n = (48 + n / 100) ∷ (48 + n / 10 % 10) ∷ (48 + n % 10) ∷ []

    long : ℕ → Text
    long n = if ltb n 100 then two_digits n else three_digits n

-- No digit is a dot, a slash or a colon.
abbrev IsNoDigit : ℕ → Type 0
IsNoDigit c = is_digit c ≡ false

includes-decimal_text : (c n : ℕ) → n < 1000 → IsNoDigit c → includes c (decimal_text n) ≡ false
includes-decimal_text c n l h = ground (arith, l, h)

includes_both :
    (c d : ℕ) (xs ys : Text)
    → includes c xs ≡ false
    → d == c ≡ false
    → includes c ys ≡ false
    → includes c (xs ++ d ∷ ys) ≡ false
includes_both c d [] ys h e k = ground arith
includes_both c d (x ∷ xs) ys h e k = let rest = includes_both c d xs ys in ground arith

abbrev IsOctet : ℕ → Type 0
IsOctet n = n < 256

abbrev pub AreOctets : ℕ → ℕ → ℕ → ℕ → Type 0
AreOctets a b c d = IsOctet a × IsOctet b × IsOctet c × IsOctet d

includes-dotted :
    (k a b c d : ℕ)
    → AreOctets a b c d
    → IsNoDigit k
    → 46 == k ≡ false
    → includes k (dotted a b c d) ≡ false
includes-dotted k a b c d (oa, ob, oc, od) h e =
    includes_both k 46 (decimal_text a) _ (includes-decimal_text k a (omega (arith, oa)) h) e (
      includes_both k 46 (decimal_text b) _ (includes-decimal_text k b (omega (arith, ob)) h) e (
        includes_both k 46 (decimal_text c) _ (includes-decimal_text k c (omega (arith, oc)) h) e
          (includes-decimal_text k d (omega (arith, od)) h)))

split_on-dotted :
    (a b c d : ℕ)
    → AreOctets a b c d
    → split_on 46 (dotted a b c d)
      ≡ decimal_text a ∷ decimal_text b ∷ decimal_text c ∷ decimal_text d ∷ []
split_on-dotted a b c d (oa, ob, oc, od) =
    split_on-append 46 (decimal_text a) _ (plain a oa)
    ∙ ap (λ l. decimal_text a ∷ l)
        (split_on-append 46 (decimal_text b) _ (plain b ob)
          ∙ ap (λ l. decimal_text b ∷ l)
              (split_on-append 46 (decimal_text c) _ (plain c oc)
                ∙ ap (λ l. decimal_text c ∷ l) (split_on_whole 46 (decimal_text d) (plain d od))))
  where
    plain : (n : ℕ) → n < 256 → includes 46 (decimal_text n) ≡ false
    plain n h = includes-decimal_text 46 n (omega (arith, h)) refl

add_octets-decimal_text :
    (acc n : ℕ) (ps : List Text)
    → IsOctet n
    → acc < 16777216
    → add_octets acc (decimal_text n ∷ ps) ≡ add_octets (acc * 256 + n) ps
add_octets-decimal_text acc n ps h l =
    ap (λ o. add_octets (add_octet acc o) ps) (parse_int-decimal_text n (omega (arith, h)))
    ∙ ap (λ k. add_octets k ps) (omega (arith, h, l))

module _ (is_ip : Text → ℕ) where
  ip_to_num-dotted :
      (a b c d : ℕ)
      → AreOctets a b c d
      → is_ip (dotted a b c d) ≡ 4
      → ip_to_num is_ip (dotted a b c d) ≡ some (value a b c d)
  unfolding ip_to_num
  ip_to_num-dotted a b c d (oa, ob, oc, od) h =
      ap (λ k. if k == 4 then by_parts (split_on 46 (dotted a b c d)) else none) h
      ∙ ap by_parts (split_on-dotted a b c d (oa, ob, oc, od))
      ∙ ap some (
          add_octets-decimal_text 0 a (decimal_text b ∷ decimal_text c ∷ decimal_text d ∷ []) oa
            (omega arith)
          ∙ add_octets-decimal_text (0 * 256 + a) b (decimal_text c ∷ decimal_text d ∷ []) ob
              (omega (arith, oa))
          ∙ add_octets-decimal_text ((0 * 256 + a) * 256 + b) c (decimal_text d ∷ []) oc
              (omega (arith, oa, ob))
          ∙ add_octets-decimal_text (((0 * 256 + a) * 256 + b) * 256 + c) d [] od
              (omega (arith, oa, ob, oc))
          ∙ ap (λ k. ((k * 256 + b) * 256 + c) * 256 + d) (omega arith))
    where
      by_parts : List Text → Option ℕ
      by_parts parts = if length parts == 4 then some (add_octets 0 parts) else none

  known_iff :
      (o p q : Option ℕ) (bits x y : ℕ)
      → o ≡ some bits
      → p ≡ some x
      → q ≡ some y
      → ((k : ℕ) × (o ≡ some k)
          × (k ≤ 32)
          × ((n : ℕ) × (m : ℕ) × (p ≡ some n)
              × (q ≡ some m)
              × (without_last (32 - k) n ≡ without_last (32 - k) m)))
        ↔ (bits ≤ 32 × (without_last (32 - bits) x ≡ without_last (32 - bits) y))
  known_iff o p q bits x y eo ep eq = (
    λ (k, e, l, (n, m, en, em, w)).
        let b = inside k bits (sym e ∙ eo) in
        let f = inside n x (sym en ∙ ep) in
        let g = inside m y (sym em ∙ eq) in (subst (λ j. j ≤ 32) b l, cc),
    λ (l, w). (bits, eo, l, (x, y, ep, eq, w)),
  )
    where
      inside : (i j : ℕ) → some i ≡ some j → i ≡ j
      inside i j e = cc

  -- If `net.isIP` takes both for IPv4 addresses, an address of four octets with dots matches a range of such
  -- a network and a prefix length, written with digits, exactly when the length is at most 32 and the two
  -- addresses are the same number without their last binary digits, as many as the prefix leaves.
  pub matches_cidr-dotted :
      (a b c d e f g h bits : ℕ)
      → AreOctets a b c d
      → AreOctets e f g h
      → bits < 1000
      → is_ip (dotted a b c d) ≡ 4
      → is_ip (dotted e f g h) ≡ 4
      → (matches_cidr is_ip (dotted a b c d) (dotted e f g h ++ 47 ∷ decimal_text bits) ≡ true) ↔ (
          bits ≤ 32
          × (without_last (32 - bits) (value a b c d) ≡ without_last (32 - bits) (value e f g h)))
  matches_cidr-dotted a b c d e f g h bits oi on l vi vn =
      let ip = dotted a b c d in
      let network = dotted e f g h in
      let is_v4 : is_v6 is_ip ip network ≡ false =
        ap (λ t. t || includes 58 network) (includes-dotted 58 a b c d oi refl refl)
        ∙ includes-dotted 58 e f g h on refl refl in
      let whole =
        subst
          (λ v. (matches_cidr is_ip ip (network ++ 47 ∷ decimal_text bits) ≡ true) ↔ (
            (k : ℕ) × (not_negative (parse_int (decimal_text bits)) ≡ some k)
            × (k ≤ width is_ip v)
            × AgreeIn is_ip v ip network k))
          is_v4
          (matches_cidr_iff is_ip ip network (decimal_text bits)
            (includes-dotted 47 e f g h on refl refl) (includes-decimal_text 47 bits l refl)) in
      let known =
        known_iff (not_negative (parse_int (decimal_text bits))) (ip_to_num is_ip ip)
          (ip_to_num is_ip network) bits (value a b c d) (value e f g h)
          (ap not_negative (parse_int-decimal_text bits l)) (ip_to_num-dotted a b c d oi vi)
          (ip_to_num-dotted e f g h on vn) in
      ((λ m. known.0 (whole.0 m)), λ k. whole.1 (known.1 k))
