-- ===== src/Tests/FieldValues.antt =====
-- A table of defects whose owners are users.
use testnexa.Base.{◌≡◌, refl, String, Option, true, none, some, List, [], ◌∷◌, ◌==◌, if◌then◌else◌}
use testnexa.Json.{Fields, property, str, field, end}
use testnexa.Entity.{FieldType, FieldConfig, EntityConfig}
use testnexa.Admin.Registry.{is_admin_entity_key}
use testnexa.Admin.Schema.{resolve_entity_key}
use testnexa.FieldValues.{is_fk_field, ref_config, use_fk_labels, plain, render_entity_field_value}
use testnexa.FieldValues.Labels.{expected_label, render-use_fk_labels}
use testnexa.Tests.Samples.{name_field, field_named, sample_config}

abbrev owner_field : FieldConfig
owner_field = record (field_named "owner_id" FieldType.fk none) {
  ref_entity = some "defect";
  label_field = some "name";
}

abbrev owner_row : String → Fields
owner_row id = field "owner_id" (str id) end

-- One of two rows can be read.
abbrev answer_for : EntityConfig → String → Option Fields
answer_for config id = if id == "u1" then some (field "name" (str "Ada") end) else none

abbrev arrived : List (String × EntityConfig)
arrived = ("defects", sample_config) ∷ []

owner-is_fk_field : is_fk_field owner_field ≡ true
unfolding is_fk_field
owner-is_fk_field = refl

owner-ref_config : ref_config arrived owner_field.ref_entity ≡ some sample_config
unfolding ref_config resolve_entity_key is_admin_entity_key
owner-ref_config = refl

render-use_fk_labels_example :
    render_entity_field_value
      (λ date. none)
      (λ v. "")
      (use_fk_labels arrived answer_for
        (name_field ∷ owner_field ∷ [])
        (owner_row "u2" ∷ owner_row "u1" ∷ []))
      sample_config
      true
      owner_field
      (owner_row "u1")
    ≡ plain (expected_label (some "name") "u1" (answer_for sample_config "u1"))
unfolding property
render-use_fk_labels_example =
    render-use_fk_labels arrived answer_for (owner_row "u2" ∷ owner_row "u1" ∷ []) sample_config
      (λ date. none) (λ v. "") sample_config true (name_field ∷ owner_field ∷ []) 1 1 owner_field
      (owner_row "u1") "u1" (refl, (refl, tt)) refl owner-is_fk_field owner-ref_config refl refl
      refl
