-- ===== src/Columns.antt =====
-- lib/columnPreferences.ts: per-entity column order and visibility.
pub mod Merge
pub mod Rows
pub mod Reload
pub mod Applied
pub mod Storage
pub mod Move
pub mod Modal
pub mod Editing
use testnexa.Base.{
  ℕ, zero, suc, String, Bool, true, false, not, ◌&&◌, ◌||◌, Option, none, some, List, [], ◌∷◌, ◌++◌,
  map, ◌==◌, truthy, is_empty, filter, find?, length, set, get_elem?, get_or, if◌then◌else◌,
}
use testnexa.Base.Names.{has}
use testnexa.Base.Index.{ℤ, pos, negsuc, pred_ℤ, suc_ℤ, out_of_range}
use testnexa.Entity.{FieldConfig, EntityConfig, names_of}
use mathlib.Core.List.{foldl}

-- `COLUMN_PREFERENCES_VERSION`
abbrev pub column_preferences_version : ℕ
column_preferences_version = 1

pub record ColumnPreferences : Type 0 where
  pub v : ℕ
  pub order : List String
  pub hidden : List String

pub record ColumnPreferenceRow : Type 0 where
  pub field : FieldConfig
  pub visible : Bool
  pub locked : Bool

-- `field.showInTable !== false`
abbrev shown : FieldConfig → Bool
shown f = get_or f.show_in_table true

unfoldable pub default_table_fields : EntityConfig → List FieldConfig
default_table_fields config = filter shown config.fields

abbrev text_or_empty : Option String → String
text_or_empty o = get_or o ""

unfoldable pub locked_field_names : EntityConfig → List String
locked_field_names config =
    if truthy (text_or_empty config.detail_path) && truthy (text_or_empty config.detail_link_field)
    then text_or_empty config.detail_link_field ∷ []
    else []

-- `new Map(fields.map((field) => [field.name, field])).get(name)`: the last entry of a name wins.
abbrev pub by_name : String → List FieldConfig → Option FieldConfig
by_name n [] = none
by_name n (f ∷ fs) = elim (by_name n fs) [
  | some g ↦ some g
  | none ↦ if f.name == n then some f else none
]

-- The two variables that the loops of `toPreferenceRows` fill.
pub record Placing : Type 0 where
  pub ordered : List FieldConfig
  pub placed : List String

pub place_field : Placing → FieldConfig → Placing
place_field acc f =
    if has acc.placed f.name
    then acc
    else record { ordered = acc.ordered ++ f ∷ []; placed = f.name ∷ acc.placed }

pub place_name : List FieldConfig → Placing → String → Placing
place_name fields acc n = elim (by_name n fields) [
  | none ↦ acc
  | some f ↦
      if has acc.placed n
      then acc
      else record { ordered = acc.ordered ++ f ∷ []; placed = n ∷ acc.placed }
]

pub place_names : List FieldConfig → Placing → List String → Placing
place_names fields acc [] = acc
place_names fields acc (n ∷ ns) = place_names fields (place_name fields acc n) ns

pub place_fields : Placing → List FieldConfig → Placing
place_fields acc [] = acc
place_fields acc (f ∷ fs) = place_fields (place_field acc f) fs

abbrev pub order_of : Option ColumnPreferences → List String
order_of none = []
order_of (some p) = p.order

abbrev pub hidden_of : Option ColumnPreferences → List String
hidden_of none = []
hidden_of (some p) = p.hidden

-- `ordered` after both loops.
unfoldable pub ordered_fields : List FieldConfig → List String → List FieldConfig
unfolding place_names place_fields place_name place_field
ordered_fields fields order =
    let start : Placing = record { ordered = []; placed = [] } in
    (place_fields (place_names fields start order) fields).ordered

abbrev pub row_of : List String → List String → FieldConfig → ColumnPreferenceRow
row_of hidden locked f = record {
  field = f;
  locked = has locked f.name;
  visible = has locked f.name || not (has hidden f.name);
}

unfoldable pub to_preference_rows :
    List FieldConfig → Option ColumnPreferences → List String → List ColumnPreferenceRow
to_preference_rows fields preferences locked =
    map (row_of (hidden_of preferences) locked) (ordered_fields fields (order_of preferences))

abbrev pub visible_of : ColumnPreferenceRow → Bool
visible_of row = row.visible

-- `rows.map((row) => row.field)`
abbrev pub fields_of : List ColumnPreferenceRow → List FieldConfig
fields_of [] = []
fields_of (row ∷ rows) = row.field ∷ fields_of rows

unfoldable pub apply_column_preferences :
    List FieldConfig → Option ColumnPreferences → List String → List FieldConfig
apply_column_preferences fields preferences locked =
    let rows = to_preference_rows fields preferences locked in
    let visible = fields_of (filter visible_of rows) in
    if not (is_empty visible) then visible else fields_of rows

unfoldable pub preferences_from_rows : List ColumnPreferenceRow → ColumnPreferences
preferences_from_rows rows = record {
  v = column_preferences_version;
  order = names_of (fields_of rows);
  hidden = names_of (fields_of (filter (λ row. not row.visible) rows));
}

-- `"up" | "down"`
pub data Direction : Type 0 where
  up down : Direction

abbrev pub target_of : ℤ → Direction → ℤ
target_of index up = pred_ℤ index
target_of index down = suc_ℤ index

-- `[next[i], next[j]] = [next[j], next[i]]`, at positions that are in range.
swap : ℤ → ℤ → List ColumnPreferenceRow → List ColumnPreferenceRow
swap (pos i) (pos j) rows = elim (get_elem? rows i) [
  | none ↦ rows
  | some a ↦ elim (get_elem? rows j) [ none ↦ rows | some b ↦ set (set rows i b) j a ]
]
swap _ _ rows = rows

unfoldable pub move_row : List ColumnPreferenceRow → ℤ → Direction → List ColumnPreferenceRow
unfolding swap
move_row rows index direction =
    let target = target_of index direction in
    if out_of_range index rows || out_of_range target rows then rows else swap index target rows
