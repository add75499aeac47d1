-- ===== src/Json.antt =====
-- JSON values, and `stableStringify` of api/src/services/auditLog.ts. The texts of the primitive values
-- (`JSON.stringify` of null, a Boolean, a number, a string) are parameters, and so is the order of
-- `sort` on keys.
pub mod KeyOrder
mod CodeOrder
mod Tests
use Prim.Native.String
use c_address_onboarding_bri.Prelude.{ℕ, String, Bool, true, false, List, [], ◌∷◌, if◌then◌else◌}

mutual
  pub data Json : Type 0 where
    null : Json
    boolean : Bool → Json
    number : ℕ → Json
    -- A number that is negative or not whole, by its text.
    decimal : String → Json
    undefined : Json
    text : String → Json
    array : Items → Json
    object : Fields → Json

  pub data Items : Type 0 where
    nil : Items
    item : Json → Items → Items

  pub data Fields : Type 0 where
    end : Fields
    field : String → Json → Fields → Fields

infixl 65 ◌+++◌
abbrev pub ◌+++◌ : String → String → String
s +++ t = String.◌++◌ s t

-- `join(',')`
abbrev pub join : List String → String
join [] = ""
join (s ∷ []) = s
join (s ∷ t ∷ l) = s +++ "," +++ join (t ∷ l)

-- An item as `join` takes it: the empty text for undefined.
abbrev pub as_item : Json → String → String
as_item undefined s = ""
as_item null s = s
as_item (boolean b) s = s
as_item (number n) s = s
as_item (decimal t) s = s
as_item (text t) s = s
as_item (array xs) s = s
as_item (object fs) s = s

-- What the language gives: the primitive values as texts, and the order on strings.
pub record Printer : Type 0 where
  pub show_null : String
  pub show_boolean : Bool → String
  pub show_number : ℕ → String
  pub show_text : String → String
  pub le : String → String → Bool

module _ (p : Printer) where
  -- The key that `sort` puts first comes first.
  unfoldable pub insert_field : String × String → List (String × String) → List (String × String)
  insert_field e [] = e ∷ []
  insert_field (k, v) ((j, w) ∷ l) =
      if p.le k j then (k, v) ∷ (j, w) ∷ l else (j, w) ∷ insert_field (k, v) l

  unfoldable pub sort_fields : List (String × String) → List (String × String)
  sort_fields [] = []
  sort_fields (e ∷ l) = insert_field e (sort_fields l)

  -- The fields as texts, `key:value`.
  abbrev pub show_fields : List (String × String) → List String
  show_fields [] = []
  show_fields ((k, v) ∷ l) = (p.show_text k +++ ":" +++ v) ∷ show_fields l

  unfoldable mutual
    pub stable_stringify : Json → String
    stable_stringify null = p.show_null
    stable_stringify (boolean b) = p.show_boolean b
    stable_stringify (number n) = p.show_number n
    stable_stringify (decimal s) = s
    stable_stringify undefined = "undefined"
    stable_stringify (text s) = p.show_text s
    stable_stringify (array xs) = "[" +++ join (stringify_items xs) +++ "]"
    stable_stringify (object fs) =
        "{" +++ join (show_fields (sort_fields (stringify_fields fs))) +++ "}"

    pub stringify_items : Items → List String
    stringify_items nil = []
    stringify_items (item x xs) = as_item x (stable_stringify x) ∷ stringify_items xs

    pub stringify_fields : Fields → List (String × String)
    stringify_fields end = []
    stringify_fields (field k v fs) = (k, stable_stringify v) ∷ stringify_fields fs
