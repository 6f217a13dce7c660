-- ===== src/EntityForm.antt =====
-- components/organisms/entity-form/entity-form.tsx: the fields of a form, the schema it asks of the
-- validation library, and the payload of a submit. `initialValues` and the rendering are left out.
pub mod Payload
pub mod Validation
use testnexa.Base.{
  ℕ, String, Bool, true, false, not, ◌&&◌, ◌||◌, ◌==◌, Option, none, some, List, [], ◌∷◌, ◌<>◌,
  filter, get_or, is_empty, if◌then◌else◌,
}
use testnexa.Base.Names.{has}
use testnexa.Base.Dict.{insert, lookup, keys}
use testnexa.Json.{Json, null, str}
use testnexa.Entity.{FieldType, FieldConfig}

-- The calls of zod that build a schema.
pub data ZodTypeAny : Type 0 where
  string : ZodTypeAny
  boolean : ZodTypeAny
  enumeration : List String → ZodTypeAny
  literal : String → ZodTypeAny
  trim : ZodTypeAny → ZodTypeAny
  min : ℕ → String → ZodTypeAny → ZodTypeAny
  uuid : String → ZodTypeAny → ZodTypeAny
  union : ZodTypeAny → ZodTypeAny → ZodTypeAny
  optional : ZodTypeAny → ZodTypeAny

-- `"create" | "edit"`
pub data FormMode : Type 0 where
  create edit : FormMode

-- `field.readOnly`
abbrev pub is_read_only : FieldConfig → Bool
is_read_only field = get_or field.read_only false

abbrev pub is_required : FieldConfig → Bool
is_required field = get_or field.required false

unfoldable pub is_locked : Option (List (String × String)) → FieldConfig → Bool
is_locked none field = false
is_locked (some locked) field = has (keys locked) field.name

unfoldable pub editable_fields :
    Option (List (String × String)) → List FieldConfig → List FieldConfig
unfolding is_locked
editable_fields locked = filter (λ f. not (is_read_only f) && not (is_locked locked f))

unfoldable pub display_only_fields :
    Option (List (String × String)) → List FieldConfig → List FieldConfig
unfolding is_locked
display_only_fields locked = filter (λ f. is_read_only f || is_locked locked f)

-- The schema of a field, by its type, the two texts of its messages and its values.
unfoldable pub schema_of : FieldType → Bool → String → List String → ZodTypeAny
schema_of FieldType.enum required label values =
    if is_empty values
    then optional string
    else if required
    then enumeration values
    else optional (union (enumeration values) (literal ""))
schema_of FieldType.fk required label values =
    let id : ZodTypeAny = uuid (label <> " must be a valid selection.") string in
    if required then id else optional (union id (literal ""))
schema_of FieldType.date required label values =
    if required then min 1 (label <> " is required.") string else optional string
schema_of FieldType.boolean required label values = optional boolean
schema_of _ required label values =
    if required then min 1 (label <> " is required.") (trim string) else optional string

unfoldable pub build_field_schema : FieldConfig → ZodTypeAny
unfolding schema_of
build_field_schema field =
    schema_of field.type (is_required field) field.label (get_or field.values [])

unfoldable pub build_schema :
    List FieldConfig → List (String × ZodTypeAny) → List (String × ZodTypeAny)
unfolding build_field_schema
build_schema [] shape = shape
build_schema (field ∷ fields) shape =
    build_schema fields (insert field.name (build_field_schema field) shape)

-- `Object.assign(payload, lockedValues)`
unfoldable pub assign : List (String × Json) → List (String × String) → List (String × Json)
assign payload [] = payload
assign payload ((key, value) ∷ locked) = assign (insert key (str value) payload) locked

-- `value === ""`, of a value that may be undefined
abbrev pub is_blank : Option Json → Bool
is_blank (some (str s)) = s == ""
is_blank _ = false

-- The loop over the editable fields.
unfoldable pub null_blanks : List FieldConfig → List (String × Json) → List (String × Json)
null_blanks [] payload = payload
null_blanks (field ∷ fields) payload =
    null_blanks fields
      (if is_blank (lookup field.name payload) then insert field.name null payload else payload)

unfoldable pub with_locked :
    FormMode → Option (List (String × String)) → List (String × Json) → List (String × Json)
unfolding assign
with_locked create (some locked) values = assign values locked
with_locked _ _ values = values

-- The argument of `onSubmit`.
unfoldable pub handle_form_submit :
    FormMode
    → Option (List (String × String))
    → List FieldConfig
    → List (String × Json)
    → List (String × Json)
unfolding with_locked null_blanks editable_fields
handle_form_submit mode locked fields values =
    null_blanks (editable_fields locked fields) (with_locked mode locked values)
