-- ===== src/Json.antt =====
-- The values that `JSON.parse` yields, as far as the code reads them. The fields of an object have
-- distinct names, since the last of two equal ones wins in the parser.
pub mod Text
use testnexa.Base.{
  ℕ, String, ◌≡◌, refl, Bool, Option, none, some, ◌==◌, List, [], ◌∷◌, if◌then◌else◌,
}

mutual
  pub data Json : Type 0 where
    null : Json
    bool : Bool → Json
    num : ℕ → Json
    -- A number that is no natural number, by its text.
    other_num : String → Json
    str : String → Json
    arr : Items → Json
    obj : Fields → Json

  pub data Items : Type 0 where
    nil : Items
    cons : Json → Items → Items

  pub data Fields : Type 0 where
    end : Fields
    field : String → Json → Fields → Fields

-- `value.name` on an object; `none` is `undefined`.
unfoldable pub property : String → Fields → Option Json
property name end = none
property name (field n v fs) = if n == name then some v else property name fs

-- An array of texts, as a value.
unfoldable pub text_array : List String → Items
text_array [] = nil
text_array (s ∷ ss) = cons (str s) (text_array ss)

-- `Array.isArray(value) && value.every((entry) => typeof entry === "string")`, with the texts.
unfoldable pub texts_of : Items → Option (List String)
texts_of nil = some []
texts_of (cons (str s) rest) = elim (texts_of rest) [ none ↦ none | some ss ↦ some (s ∷ ss) ]
texts_of (cons _ rest) = none

pub texts_of-text_array : (ss : List String) → texts_of (text_array ss) ≡ some ss
unfolding texts_of text_array
texts_of-text_array [] = refl
texts_of-text_array (s ∷ ss) = rw (texts_of-text_array ss)
