-- ===== src/EntityCrud.antt =====
-- lib/api/entityCrud.ts: the paths of the requests, and the two ways to fill in their placeholders.
-- The requests themselves are calls of the API client.
pub mod Path
pub mod Query
use Prim.Native.Char.{Char, code}
use Prim.Native.String.{[], ◌∷◌ as ◌:>◌}
use mathlib.Core.Option.{map}
use testnexa.Base.{
  ℕ, String, Bool, true, false, not, ◌&&◌, ◌||◌, ◌==◌, Option, none, some, ◌<>◌, truthy, get_or,
  num_eq, leb, if◌then◌else◌,
}
use testnexa.Entity.{EntityConfig, LinkCreateAction, LinkDeleteAction, CompoundCreateAction}

-- `[a-zA-Z]`
abbrev pub is_letter : Char → Bool
is_letter c = leb 65 (code c) && leb (code c) 90 || leb 97 (code c) && leb (code c) 122

abbrev pub is_colon : Char → Bool
is_colon c = num_eq (code c) 58

-- The match of `/:([a-zA-Z]+)/` that has the letters `name`: `routeParams[key] ?? match`, where a
-- colon without letters is no match.
abbrev pub replaced : (String → Option String) → String → String
replaced params name = if name == "" then ":" else get_or (params name) (":" <> name)

-- From a place in the template on, behind a colon and letters or not.
scan : (String → Option String) → Option String → String → String
scan params none [] = ""
scan params (some name) [] = replaced params name
scan params none (c :> s) = elim (is_colon c) [
  | true ↦ scan params (some "") s
  | false ↦ (c :> "") <> scan params none s
]
scan params (some name) (c :> s) = elim (is_letter c) [
  | true ↦ scan params (some (name <> (c :> ""))) s
  | false ↦ replaced params name <> elim (is_colon c) [
    | true ↦ scan params (some "") s
    | false ↦ (c :> "") <> scan params none s
  ]
]

unfoldable pub interpolate : String → (String → Option String) → String
unfolding scan
interpolate template params = scan params none template

-- `[a-zA-Z_]`
abbrev pub is_word : Char → Bool
is_word c = is_letter c || num_eq (code c) 95

abbrev pub is_open : Char → Bool
is_open c = num_eq (code c) 123

abbrev pub is_close : Char → Bool
is_close c = num_eq (code c) 125

-- A value that is there and not empty.
abbrev pub filled : Option String → Option String
filled none = none
filled (some s) = if truthy s then some s else none

-- `none` is the `Error` for a missing value. A brace with letters and no closing brace is no match.
scan_link : (String → Option String) → Option String → String → Option String
scan_link values none [] = some ""
scan_link values (some name) [] = some ("{" <> name)
scan_link values none (c :> s) = elim (is_open c) [
  | true ↦ scan_link values (some "") s
  | false ↦ map (◌<>◌ (c :> "")) (scan_link values none s)
]
scan_link values (some name) (c :> s) = elim (is_word c) [
  | true ↦ scan_link values (some (name <> (c :> ""))) s
  | false ↦ elim (is_close c && not (name == "")) [
    | true ↦ elim (filled (values name)) [
      | none ↦ none
      | some value ↦ map (◌<>◌ value) (scan_link values none s)
    ]
    | false ↦ map (◌<>◌ ("{" <> name)) (elim (is_open c) [
      | true ↦ scan_link values (some "") s
      | false ↦ map (◌<>◌ (c :> "")) (scan_link values none s)
    ])
  ]
]

unfoldable pub interpolate_link_path : String → (String → Option String) → Option String
unfolding scan_link
interpolate_link_path template values = scan_link values none template

-- The paths of the requests.
unfoldable pub list_path : EntityConfig → (String → Option String) → String
unfolding interpolate
list_path config params = "/api/v1" <> interpolate (get_or config.list_path config.path) params

unfoldable pub create_path : EntityConfig → (String → Option String) → String
unfolding interpolate
create_path config params = "/api/v1" <> interpolate (get_or config.create_path config.path) params

-- Of `getEntity`, `updateEntity` and `deleteEntity`.
unfoldable pub entity_path : EntityConfig → String → String
entity_path config id = "/api/v1" <> config.path <> "/" <> id

-- Of `createLinkRow`, `createViaCompoundRoute` and `deleteLinkRow`, from the action's template.
unfoldable pub link_path : String → (String → Option String) → Option String
unfolding interpolate_link_path
link_path template values = map (◌<>◌ "/api/v1") (interpolate_link_path template values)
