-- ===== src/Json/Text.antt =====
-- What JavaScript makes of a value as a text (`String(value)`), and the tests on texts and values.
use Prim.Native.Char.{Char, code}
use Prim.Native.String.{[] as empty, ◌∷◌ as ◌:>◌}
use Prim.Native.Nat.{◌%◌}
use testnexa.Base.{
  ℕ, zero, suc, ◌/◌, String, Bool, true, false, not, ◌&&◌, ◌||◌, Option, none, some, ◌<>◌, truthy,
  num_eq, leb, ltb, [], ◌∷◌, get_or, get_elem?, if◌then◌else◌,
}
use testnexa.Json.{Json, null, bool, num, other_num, str, arr, obj, Items, nil, cons}

digit : ℕ → String
digit n = get_or (get_elem? ("0" ∷ "1" ∷ "2" ∷ "3" ∷ "4" ∷ "5" ∷ "6" ∷ "7" ∷ "8" ∷ []) n) "9"

-- On fuel: a number has at most as many digits as its successor says.
digits : ℕ → ℕ → String
unfolding digit
digits zero n = ""
digits (suc fuel) n =
    let rest = digits fuel (n / 10) in if ltb n 10 then digit n else rest <> digit (n % 10)

-- An element of a joined array that has this text
element : Json → String → String
element null text = ""
element _ text = text

unfoldable mutual
  unfolding digits element

  -- `String(value)`
  pub string_of : Json → String
  string_of null = "null"
  string_of (bool true) = "true"
  string_of (bool false) = "false"
  string_of (num n) = digits (suc n) n
  string_of (other_num text) = text
  string_of (str s) = s
  string_of (arr items) = joined items
  string_of (obj fields) = "[object Object]"

  -- `items.join(",")`
  pub joined : Items → String
  joined nil = ""
  joined (cons v rest) = element v (string_of v) <> joined_rest rest

  pub joined_rest : Items → String
  joined_rest nil = ""
  joined_rest (cons v rest) = "," <> element v (string_of v) <> joined_rest rest

-- The white space and line ends that `trim` takes off
is_space : Char → Bool
is_space c =
    let n = code c in
    leb 9 n && leb n 13
    || num_eq n 32
    || num_eq n 160
    || num_eq n 5760
    || leb 8192 n && leb n 8202
    || num_eq n 8232
    || num_eq n 8233
    || num_eq n 8239
    || num_eq n 8287
    || num_eq n 12288
    || num_eq n 65279

-- `!text.trim()`
unfoldable pub is_blank : String → Bool
unfolding is_space
is_blank empty = true
is_blank (c :> s) = is_space c && is_blank s

-- `Boolean(value)`
unfoldable pub is_truthy : Json → Bool
is_truthy null = false
is_truthy (bool b) = b
is_truthy (num n) = not (num_eq n 0)
is_truthy (str s) = truthy s
is_truthy _ = true

-- `value ? String(value) : fallback` of a property.
unfoldable pub text_or : Option Json → String → String
unfolding is_truthy
text_or none fallback = fallback
text_or (some v) fallback = if is_truthy v then string_of v else fallback
