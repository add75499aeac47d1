-- ===== src/Json/KeyOrder.antt =====
-- `stableStringify` does not depend on the order of the keys of an object.
use c_address_onboarding_bri.Prelude.{
  String, ◌≡◌, refl, sym, ◌∙◌, ap, ◌≢◌, Bool, true, false, List, [], ◌∷◌, Bool-cases, inl, inr,
}
use c_address_onboarding_bri.Json.{
  Json, array, object, Items, nil, item, Fields, end, field, Printer, as_item, insert_field,
  sort_fields, stable_stringify, stringify_items, stringify_fields,
}

-- What `sort` relies on: the order on strings is a linear order.
pub record IsLinear (le : String → String → Bool) : Type 0 where
  pub total : (a b : String) → le a b ≡ false → le b a ≡ true
  pub antisym : (a b : String) → le a b ≡ true → le b a ≡ true → a ≡ b
  pub trans : (a b c : String) → le a b ≡ true → le b c ≡ true → le a c ≡ true

-- The same value, up to the order of the keys of objects at any depth; keys that change places are
-- different, as keys of one object are.
mutual
  pub data Same : Json → Json → Type 0 where
    same : (j : Json) → Same j j
    arrays : {xs ys : Items} → SameItems xs ys → Same (array xs) (array ys)
    objects : {fs gs : Fields} → SameFields fs gs → Same (object fs) (object gs)

  pub data SameItems : Items → Items → Type 0 where
    none : SameItems nil nil
    both :
        {x y : Json} {xs ys : Items}
        → Same x y
        → SameItems xs ys
        → SameItems (item x xs) (item y ys)

  pub data SameFields : Fields → Fields → Type 0 where
    over : SameFields end end
    keep :
        {k : String} {v w : Json} {fs gs : Fields}
        → Same v w
        → SameFields fs gs
        → SameFields (field k v fs) (field k w gs)
    swap :
        {k j : String} {v w : Json} {fs : Fields}
        → k ≢ j
        → SameFields (field k v (field j w fs)) (field j w (field k v fs))
    chain : {fs gs hs : Fields} → SameFields fs gs → SameFields gs hs → SameFields fs hs

module _ (p : Printer) (linear : IsLinear p.le) where
  stop :
      (k j v w : String) (l : List (String × String))
      → p.le k j ≡ true
      → insert_field p (k, v) ((j, w) ∷ l) ≡ (k, v) ∷ (j, w) ∷ l
  unfolding insert_field
  stop k j v w l h = rw h

  pass :
      (k j v w : String) (l : List (String × String))
      → p.le k j ≡ false
      → insert_field p (k, v) ((j, w) ∷ l) ≡ (j, w) ∷ insert_field p (k, v) l
  unfolding insert_field
  pass k j v w l h = rw h

  not_le : (a b : String) → a ≢ b → p.le a b ≡ true → p.le b a ≡ false
  not_le a b ne h = elim (Bool-cases (p.le b a)) [
    | inl k ↦ absurd (ne (linear.antisym a b h k))
    | inr k ↦ k
  ]

  insert_before :
      (a b : String) (v w : String) (l : List (String × String))
      → a ≢ b
      → p.le a b ≡ true
      → insert_field p (a, v) (insert_field p (b, w) l)
        ≡ insert_field p (b, w) (insert_field p (a, v) l)
  insert_before a b v w [] ne h =
      unfold insert_field in stop a b v w [] h ∙ sym (pass b a w v [] (not_le a b ne h))
  insert_before a b v w ((c, u) ∷ l) ne h = elim (Bool-cases (p.le b c)) [
    | inl bc ↦
        ap (insert_field p (a, v)) (stop b c w u l bc)
        ∙ stop a b v w ((c, u) ∷ l) h
        ∙ sym (
            ap (insert_field p (b, w)) (stop a c v u l (linear.trans a b c h bc))
            ∙ pass b a w v ((c, u) ∷ l) (not_le a b ne h)
            ∙ ap (λ m. (a, v) ∷ m) (stop b c w u l bc))
    | inr bc ↦ elim (Bool-cases (p.le a c)) [
      | inl ac ↦
          ap (insert_field p (a, v)) (pass b c w u l bc)
          ∙ stop a c v u (insert_field p (b, w) l) ac
          ∙ sym (
              ap (insert_field p (b, w)) (stop a c v u l ac)
              ∙ pass b a w v ((c, u) ∷ l) (not_le a b ne h)
              ∙ ap (λ m. (a, v) ∷ m) (pass b c w u l bc))
      | inr ac ↦
          ap (insert_field p (a, v)) (pass b c w u l bc)
          ∙ pass a c v u (insert_field p (b, w) l) ac
          ∙ ap (λ m. (c, u) ∷ m) (insert_before a b v w l ne h)
          ∙ sym (
              ap (insert_field p (b, w)) (pass a c v u l ac)
              ∙ pass b c w u (insert_field p (a, v) l) bc)
    ]
  ]

  insert_field_comm :
      (a b : String) (v w : String) (l : List (String × String))
      → a ≢ b
      → insert_field p (a, v) (insert_field p (b, w) l)
        ≡ insert_field p (b, w) (insert_field p (a, v) l)
  insert_field_comm a b v w l ne = elim (Bool-cases (p.le a b)) [
    | inl h ↦ insert_before a b v w l ne h
    | inr h ↦ sym (insert_before b a w v l (λ e. ne (sym e)) (linear.total a b h))
  ]

  sort_cons :
      (k : String) (l m : List (String × String)) (v w : String)
      → v ≡ w
      → sort_fields p l ≡ sort_fields p m
      → sort_fields p ((k, v) ∷ l) ≡ sort_fields p ((k, w) ∷ m)
  unfolding sort_fields
  sort_cons k l m v w e h = λ i. insert_field p (k, e i) (h i)

  sort_swap :
      (k j v w : String) (l : List (String × String))
      → k ≢ j
      → sort_fields p ((k, v) ∷ (j, w) ∷ l) ≡ sort_fields p ((j, w) ∷ (k, v) ∷ l)
  unfolding sort_fields
  sort_swap k j v w l ne = insert_field_comm k j v w (sort_fields p l) ne

  as_item-Same : {x y : Json} {s t : String} → Same x y → s ≡ t → as_item x s ≡ as_item y t
  as_item-Same (same j) e = ap (as_item j) e
  as_item-Same (arrays h) e = e
  as_item-Same (objects h) e = e

  mutual
    unfolding stable_stringify stringify_items stringify_fields

    stringify-Same : {i j : Json} → Same i j → stable_stringify p i ≡ stable_stringify p j
    stringify-Same (same j) = refl
    stringify-Same (arrays h) = rw (items-Same h)
    stringify-Same (objects h) = rw (fields-Same h)

    items-Same : {xs ys : Items} → SameItems xs ys → stringify_items p xs ≡ stringify_items p ys
    items-Same none = refl
    items-Same (both h hs) = λ i. as_item-Same h (stringify-Same h) i ∷ items-Same hs i

    fields-Same :
        {fs gs : Fields}
        → SameFields fs gs
        → sort_fields p (stringify_fields p fs) ≡ sort_fields p (stringify_fields p gs)
    fields-Same over = refl
    fields-Same (keep {k} {v} {w} {fs} {gs} h hs) =
        sort_cons k (stringify_fields p fs) (stringify_fields p gs) _ _ (stringify-Same h)
          (fields-Same hs)
    fields-Same (swap {k} {j} {v} {w} {fs} ne) = sort_swap k j _ _ (stringify_fields p fs) ne
    fields-Same (chain h k) = fields-Same h ∙ fields-Same k

  -- Two values that differ only in the order of the keys of their objects, at any depth, have the same
  -- text, if the order that `sort` uses on strings is a linear order; so they have the same hash.
  pub stable_stringify-Same : (i j : Json) → Same i j → stable_stringify p i ≡ stable_stringify p j
  stable_stringify-Same i j h = stringify-Same h
