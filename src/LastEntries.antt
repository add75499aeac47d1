-- ===== src/LastEntries.antt =====
-- The last entries of a list.
use c_address_onboarding_bri.Prelude.{
  ℕ, zero, suc, ◌≡◌, refl, sym, ap, ◌∙◌, ◌≤◌, ◌+◌, ◌-◌, List, [], ◌∷◌, ◌++◌, length, drop,
  length-append, length-drop, arith,
}

module _ {A : Type 0} where
  abbrev pub last : ℕ → List A → List A
  last n xs = drop (length xs - n) xs

  drop_nil : (n : ℕ) → drop {A = A} n [] ≡ []
  drop_nil zero = refl
  drop_nil (suc n) = refl

  drop-append : (j : ℕ) (xs ys : List A) → j ≤ length xs → drop j xs ++ ys ≡ drop j (xs ++ ys)
  drop-append zero xs ys h = refl
  drop-append (suc j) [] ys h = absurd (omega (arith, h))
  drop-append (suc j) (x ∷ xs) ys h = drop-append j xs ys (omega (arith, h))

  drop-drop : (j k : ℕ) (xs : List A) → drop k (drop j xs) ≡ drop (j + k) xs
  drop-drop zero k xs = ap (λ n. drop n xs) (omega arith)
  drop-drop (suc j) k [] = drop_nil k ∙ sym (drop_nil (suc j + k))
  drop-drop (suc j) k (x ∷ xs) =
      let shifted : suc (j + k) ≡ suc j + k = omega arith in
      drop-drop j k xs ∙ ap (λ n. drop n (x ∷ xs)) shifted

  pub last-last : (n : ℕ) (xs ys : List A) → last n (last n xs ++ ys) ≡ last n (xs ++ ys)
  last-last n xs ys =
      let j = length xs - n in
      let k = length (drop j xs ++ ys) - n in
      let total : j + k ≡ length (xs ++ ys) - n =
        omega (arith, length-append (drop j xs) ys, length-append xs ys, length-drop j xs) in
      ap (drop k) (drop-append j xs ys (omega arith))
      ∙ drop-drop j k (xs ++ ys)
      ∙ ap (λ m. drop m (xs ++ ys)) total

  pub last_all : (n : ℕ) (xs : List A) → length xs ≤ n → last n xs ≡ xs
  last_all n xs h =
      let none_more : length xs - n ≡ 0 = omega (arith, h) in ap (λ k. drop k xs) none_more

  pub length-last : (n : ℕ) (xs : List A) → length (last n xs) ≤ n
  length-last n xs = omega (arith, length-drop (length xs - n) xs)
