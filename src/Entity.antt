-- ===== src/Entity.antt =====
-- entityConfigs/types.ts: the field and entity configuration that the admin surface runs on.
use testnexa.Base.{String, Bool, Option, List, [], ◌∷◌}

-- `"string" | "text" | "enum" | "fk" | "date" | "boolean"`
pub data FieldType : Type 0 where
  string text enum fk date boolean : FieldType

pub record FieldConfig : Type 0 where
  pub name : String
  pub label : String
  pub type : FieldType
  pub required : Option Bool
  pub values : Option (List String)
  pub badge_colors : Option (List (String × String))
  pub ref_entity : Option String
  pub label_field : Option String
  pub show_in_table : Option Bool
  pub sortable : Option Bool
  pub filterable : Option Bool
  pub read_only : Option Bool
  pub select : Option Bool

pub record SelectorFields : Type 0 where
  pub ref_entity : String
  pub param_name : String
  pub label : Option String
  pub select : Option Bool
  pub label_field : Option String

-- `via` is the optional preceding picker, an option of the same type.
pub data ScopeSelectorOption : Type 0 where
  direct : SelectorFields → ScopeSelectorOption
  through : SelectorFields → ScopeSelectorOption → ScopeSelectorOption

-- `"orgId" | "projectId"`
pub data RouteParam : Type 0 where
  org_id project_id : RouteParam

pub record ScopeResolution : Type 0 where
  pub from_route_param : RouteParam
  pub via_entity : String
  pub via_field : String

pub data RelationKind : Type 0 where
  one_to_many many_to_many : RelationKind

pub record EntityRelation : Type 0 where
  pub kind : RelationKind
  pub entity : String
  pub scope_field : String
  pub label : String
  pub target_entity : String
  pub target_field : Option String

pub record LinkCreateAction : Type 0 where
  pub path_template : String
  pub permission : String

pub record LinkDeleteAction : Type 0 where
  pub path_template : String
  pub permission : String

pub record CompoundCreateAction : Type 0 where
  pub far_field : String
  pub path_template : String
  pub permission : String
  pub links_automatically : Bool
  pub parent_entity : Option String
  pub parent_label : Option String
  pub parent_label_field : Option String
  pub parent_filters : List (String × String)
  pub parent_select : Option Bool

-- `string | [string, string]`
pub data ScopeField : Type 0 where
  single : String → ScopeField
  branching : String → String → ScopeField

-- `ScopeSelectorOption | ScopeSelectorOption[]`
pub data ScopeSelector : Type 0 where
  one : ScopeSelectorOption → ScopeSelector
  several : List ScopeSelectorOption → ScopeSelector

pub data Method : Type 0 where
  list get create update delete : Method

pub record EntityConfig : Type 0 where
  pub resource : String
  pub path : String
  pub list_path : Option String
  pub create_path : Option String
  pub detail_path : Option String
  pub detail_link_field : Option String
  pub scope_field : Option ScopeField
  pub scope_selector : Option ScopeSelector
  pub scope_resolution : Option ScopeResolution
  pub methods : List Method
  pub fields : List FieldConfig
  pub filter_fields : Option (List String)
  pub search_fields : Option (List String)
  pub relations : Option (List EntityRelation)
  pub link_create : Option LinkCreateAction
  pub link_delete : Option LinkDeleteAction
  pub compound_creates : Option (List CompoundCreateAction)
  pub child_compound_creates : Option (List CompoundCreateAction)

-- `fields.map((field) => field.name)`
abbrev pub names_of : List FieldConfig → List String
names_of [] = []
names_of (f ∷ fs) = f.name ∷ names_of fs
