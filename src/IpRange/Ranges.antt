-- ===== src/IpRange/Ranges.antt =====
-- An address is in a range just when both agree but for the last binary digits.
use c_address_onboarding_bri.Prelude.{
  ℕ, Bool, true, false, Option, none, some, ◌≡◌, refl, sym, ap, ◌∙◌, subst, ◌≤◌, ◌++◌, ◌-◌, ◌||◌,
  ◌==◌, ltb, arith, ◌↔◌, [], ◌∷◌, if◌then◌else◌,
}
use c_address_onboarding_bri.JsText.{Text, includes, parse_int, split_on, same_text}
use c_address_onboarding_bri.IpRange.{
  not_negative, ip_to_num, ipv6_to_big_int, mask_v4, mask_v6, and_bits, both_masked, in_network,
  in_range, matches_cidr,
}
use c_address_onboarding_bri.IpRange.Masks.{
  without_last, with_zeros, ones, IsBelow, and-mask_iff, mask_v4_lem, mask_v6_lem, ==-true,
}
use c_address_onboarding_bri.IpRange.Bounds.{ip_to_num-IsBelow, ipv6_to_big_int-IsBelow}

-- The parts around a character that the first does not have.
pub split_on-append :
    (c : ℕ) (xs ys : Text) → includes c xs ≡ false → split_on c (xs ++ c ∷ ys) ≡ xs ∷ split_on c ys
split_on-append c [] ys h = ground arith
split_on-append c (x ∷ xs) ys h = ground (arith, split_on-append c xs ys)

pub split_on_whole : (c : ℕ) (xs : Text) → includes c xs ≡ false → split_on c xs ≡ xs ∷ []
split_on_whole c [] h = refl
split_on_whole c (x ∷ xs) h = ground (arith, split_on_whole c xs)

includes-append : (c : ℕ) (xs ys : Text) → includes c (xs ++ c ∷ ys) ≡ true
includes-append c [] ys = ground arith
includes-append c (x ∷ xs) ys = ground (arith, includes-append c xs ys)

==-of : (a b : ℕ) → a ≡ b → a == b ≡ true
==-of a b h = ground arith

module _ (is_ip : Text → ℕ) where
  abbrev pub is_v6 : Text → Text → Bool
  is_v6 ip network = includes 58 ip || includes 58 network

  abbrev pub number : Bool → Text → Option ℕ
  number true = ipv6_to_big_int is_ip
  number false = ip_to_num is_ip

  abbrev pub width : Bool → ℕ
  width true = 128
  width false = 32

  abbrev mask : Bool → ℕ → ℕ
  mask true = mask_v6
  mask false = mask_v4

  -- Both texts are numbers, the same but for the last digits.
  abbrev pub AgreeIn : Bool → Text → Text → ℕ → Type 0
  AgreeIn v6 ip network bits =
      (n : ℕ) × (m : ℕ) × (number v6 ip ≡ some n)
      × (number v6 network ≡ some m)
      × (without_last (width v6 - bits) n ≡ without_last (width v6 - bits) m)

  number-IsBelow : (v6 : Bool) (t : Text) (n : ℕ) → number v6 t ≡ some n → IsBelow (width v6) n
  number-IsBelow true t n h = ipv6_to_big_int-IsBelow is_ip t n h
  number-IsBelow false t n h = ip_to_num-IsBelow is_ip t n h

  mask_lem : (v6 : Bool) (b : ℕ) → b ≤ width v6 → mask v6 b ≡ with_zeros (width v6 - b) (ones b)
  mask_lem true b l = mask_v6_lem b l
  mask_lem false b l = mask_v4_lem b l

  masked_iff :
      (v6 : Bool) (bits n m : ℕ)
      → bits ≤ width v6
      → IsBelow (width v6) n
      → IsBelow (width v6) m
      → (both_masked (width v6) (mask v6 bits) (some n) (some m) ≡ true)
        ↔ (without_last (width v6 - bits) n ≡ without_last (width v6 - bits) m)
  masked_iff v6 bits n m l a b =
      let same = and-mask_iff (width v6) (width v6 - bits) bits n m (omega (arith, l)) a b in
      let kept = mask_lem v6 bits l in
      (
        λ e. same.0 (
            subst (λ k. and_bits (width v6) n k ≡ and_bits (width v6) m k) kept
              (==-true (and_bits (width v6) n (mask v6 bits)) (and_bits (width v6) m (mask v6 bits))
                e)),
        λ e.
            ==-of (and_bits (width v6) n (mask v6 bits)) (and_bits (width v6) m (mask v6 bits)) (
              subst (λ k. and_bits (width v6) n k ≡ and_bits (width v6) m k) (sym kept) (same.1 e)),
      )

  agree_iff :
      (v6 : Bool) (ip network : Text) (bits : ℕ)
      → bits ≤ width v6
      → (both_masked (width v6) (mask v6 bits) (number v6 ip) (number v6 network) ≡ true)
        ↔ AgreeIn v6 ip network bits
  agree_iff v6 ip network bits l =
      on (number v6 ip) (number v6 network) (number-IsBelow v6 ip) (number-IsBelow v6 network)
    where
      on :
          (o p : Option ℕ)
          → ((n : ℕ) → o ≡ some n → IsBelow (width v6) n)
          → ((n : ℕ) → p ≡ some n → IsBelow (width v6) n)
          → (both_masked (width v6) (mask v6 bits) o p ≡ true) ↔ (
              (n : ℕ) × (m : ℕ) × (o ≡ some n)
              × (p ≡ some m)
              × (without_last (width v6 - bits) n ≡ without_last (width v6 - bits) m))
      on none p f g = ((λ e. absurd cc), λ (n, m, e, h, w). absurd cc)
      on (some n) none f g = ((λ e. absurd cc), λ (k, m, e, h, w). absurd cc)
      on (some n) (some m) f g =
          let q = masked_iff v6 bits n m l (f n refl) (g m refl) in
          ((λ e. (n, m, refl, refl, q.0 e)), λ (k, j, e, h, w). q.1 (cc (e, h, w)))

  in_network_lem :
      (ip network : Text) (bits : ℕ)
      → in_network is_ip ip network (some bits) ≡ (
          if ltb (width (is_v6 ip network)) bits
          then false
          else both_masked
              (width (is_v6 ip network))
              (mask (is_v6 ip network) bits)
              (number (is_v6 ip network) ip)
              (number (is_v6 ip network) network))
  in_network_lem ip network bits = by (is_v6 ip network)
    where
      by :
          (v6 : Bool)
          → (if v6
              then (if ltb 128 bits
                  then false
                  else both_masked 128
                      (mask_v6 bits)
                      (ipv6_to_big_int is_ip ip)
                      (ipv6_to_big_int is_ip network))
              else (if ltb 32 bits
                  then false
                  else both_masked 32
                      (mask_v4 bits)
                      (ip_to_num is_ip ip)
                      (ip_to_num is_ip network)))
            ≡ (if ltb (width v6) bits
                then false
                else both_masked (width v6) (mask v6 bits) (number v6 ip) (number v6 network))
      by true = refl
      by false = refl

  in_network_back :
      (ip network : Text) (bits : ℕ)
      → bits ≤ width (is_v6 ip network)
      → AgreeIn (is_v6 ip network) ip network bits
      → in_network is_ip ip network (some bits) ≡ true
  in_network_back ip network bits l a =
      in_network_lem ip network bits
      ∙ ap
          (λ b.
            if b
            then false
            else both_masked (width (is_v6 ip network)) (mask (is_v6 ip network) bits)
                (number (is_v6 ip network) ip) (number (is_v6 ip network) network))
          (not_more (width (is_v6 ip network)) bits l)
      ∙ (agree_iff (is_v6 ip network) ip network bits l).1 a
    where
      not_more : (w b : ℕ) → b ≤ w → ltb w b ≡ false
      not_more w b l = ground arith

  in_network_iff :
      (ip network : Text) (o : Option ℕ)
      → (in_network is_ip ip network o ≡ true) ↔ (
          (bits : ℕ) × (o ≡ some bits)
          × (bits ≤ width (is_v6 ip network))
          × AgreeIn (is_v6 ip network) ip network bits)
  in_network_iff ip network none = ((λ e. absurd cc), λ (b, e, l, a). absurd cc)
  in_network_iff ip network (some bits) =
      let w = width (is_v6 ip network) in
      let test =
        both_masked w (mask (is_v6 ip network) bits) (number (is_v6 ip network) ip)
          (number (is_v6 ip network) network) in
      (
        λ e.
            let (l, t) = in_bound w bits test (sym (in_network_lem ip network bits) ∙ e) in
            (bits, refl, l, (agree_iff (is_v6 ip network) ip network bits l).0 t),
        λ (b, e, l, a).
            subst (λ o. in_network is_ip ip network o ≡ true) (sym e)
              (in_network_back ip network b l a),
      )
    where
      in_bound : (w b : ℕ) (t : Bool) → (if ltb w b then false else t) ≡ true → (b ≤ w) × (t ≡ true)
      in_bound w b t e = (ground arith, ground arith)

  -- An address matches a range, a network with a prefix length after a slash, exactly when the length is
  -- read as a number from 0 to the number of digits of an address (128 if one of the two has a colon, else
  -- 32), both are read as addresses of this kind by the parsers of the code, and the numbers read are the
  -- same without their last binary digits, as many as the prefix leaves.
  pub matches_cidr_iff :
      (ip network bits_text : Text)
      → includes 47 network ≡ false
      → includes 47 bits_text ≡ false
      → (matches_cidr is_ip ip (network ++ 47 ∷ bits_text) ≡ true) ↔ (
          (bits : ℕ) × (not_negative (parse_int bits_text) ≡ some bits)
          × (bits ≤ width (is_v6 ip network))
          × AgreeIn (is_v6 ip network) ip network bits)
  unfolding matches_cidr
  matches_cidr_iff ip network bits_text h k =
      subst
        (λ b. (b ≡ true) ↔ (
          (bits : ℕ) × (not_negative (parse_int bits_text) ≡ some bits)
          × (bits ≤ width (is_v6 ip network))
          × AgreeIn (is_v6 ip network) ip network bits))
        (sym read) (in_network_iff ip network (not_negative (parse_int bits_text)))
    where
      read :
          matches_cidr is_ip ip (network ++ 47 ∷ bits_text)
          ≡ in_network is_ip ip network (not_negative (parse_int bits_text))
      read =
          ap
            (λ b.
              if b
              then in_range is_ip ip (split_on 47 (network ++ 47 ∷ bits_text))
              else same_text ip (network ++ 47 ∷ bits_text))
            (includes-append 47 network bits_text)
          ∙ ap (in_range is_ip ip) (
              split_on-append 47 network bits_text h
              ∙ ap (λ l. network ∷ l) (split_on_whole 47 bits_text k))
