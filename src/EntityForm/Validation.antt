-- ===== src/EntityForm/Validation.antt =====
-- What a form accepts: the schema of a field, as the validation library reads it.
use testnexa.Base.{
  String, ◌≡◌, refl, ap, ◌∙◌, Bool, true, false, not, ◌&&◌, ◌||◌, ◌==◌, Option, none, some, List,
  [], ◌∷◌, is_empty, is_some, get_or, truthy,
}
use testnexa.Base.Names.{has}
use testnexa.Json.{Json, str}
use testnexa.Entity.{FieldType, FieldConfig}
use testnexa.EntityForm.{
  ZodTypeAny, string, boolean, enumeration, literal, trim, min, uuid, union, optional, is_required,
  schema_of, build_field_schema,
}

-- `parse` is `safeParse` of zod: what a value is read as, where it is accepted, with `none` for
-- `undefined`. `trimmed` is what `trim` makes of a text, and `is_uuid` whether a text is a UUID.
module _ (parse : ZodTypeAny → Option Json → Option (Option Json)) (trimmed : String → String)
    (is_uuid : String → Bool) where
  abbrev pub accepts : ZodTypeAny → Option Json → Bool
  accepts schema value = is_some (parse schema value)

  -- What the documentation of zod says of the calls that a form uses, on texts and `undefined`.
  pub record IsZod : Type 0 where
    pub string_text : (s : String) → parse string (some (str s)) ≡ some (some (str s))
    pub string_absent : parse string none ≡ none
    pub boolean_text : (s : String) → accepts boolean (some (str s)) ≡ false
    pub enumeration_text :
        (values : List String) (s : String)
        → accepts (enumeration values) (some (str s)) ≡ has values s
    pub enumeration_absent : (values : List String) → accepts (enumeration values) none ≡ false
    pub literal_text : (l s : String) → accepts (literal l) (some (str s)) ≡ (l == s)
    pub trim_text :
        (z : ZodTypeAny) (v : Option Json) (s : String)
        → parse z v ≡ some (some (str s))
        → parse (trim z) v ≡ some (some (str (trimmed s)))
    pub trim_rejected :
        (z : ZodTypeAny) (v : Option Json) → parse z v ≡ none → parse (trim z) v ≡ none
    pub min_text :
        (message : String) (z : ZodTypeAny) (v : Option Json) (s : String)
        → parse z v ≡ some (some (str s))
        → accepts (min 1 message z) v ≡ truthy s
    pub min_rejected :
        (message : String) (z : ZodTypeAny) (v : Option Json)
        → parse z v ≡ none
        → accepts (min 1 message z) v ≡ false
    pub uuid_text :
        (message : String) (z : ZodTypeAny) (v : Option Json) (s : String)
        → parse z v ≡ some (some (str s))
        → accepts (uuid message z) v ≡ is_uuid s
    pub uuid_rejected :
        (message : String) (z : ZodTypeAny) (v : Option Json)
        → parse z v ≡ none
        → accepts (uuid message z) v ≡ false
    pub union_either :
        (a b : ZodTypeAny) (v : Option Json) → accepts (union a b) v ≡ (accepts a v || accepts b v)
    pub optional_absent : (z : ZodTypeAny) → accepts (optional z) none ≡ true
    pub optional_present :
        (z : ZodTypeAny) (v : Json) → accepts (optional z) (some v) ≡ accepts z (some v)

  -- The texts that a form takes for a field.
  abbrev pub takes_text : FieldType → Bool → List String → String → Bool
  takes_text FieldType.enum required values s =
      is_empty values || has values s || not required && "" == s
  takes_text FieldType.fk required values s = is_uuid s || not required && "" == s
  takes_text FieldType.date required values s = not required || truthy s
  takes_text FieldType.boolean required values s = false
  takes_text _ required values s = not required || truthy (trimmed s)

  -- The fields that a form takes without a value.
  abbrev pub takes_absent : FieldType → Bool → List String → Bool
  takes_absent FieldType.boolean required values = true
  takes_absent FieldType.enum required values = not required || is_empty values
  takes_absent _ required values = not required

  module _ (zod : IsZod) where
    plain_text : (s : String) → accepts (optional string) (some (str s)) ≡ true
    plain_text s = zod.optional_present string (str s) ∙ ap is_some (zod.string_text s)

    or_blank :
        (z : ZodTypeAny) (s : String)
        → accepts (optional (union z (literal ""))) (some (str s))
          ≡ (accepts z (some (str s)) || "" == s)
    or_blank z s =
        zod.optional_present (union z (literal "")) (str s)
        ∙ zod.union_either z (literal "") (some (str s))
        ∙ ap (λ b. accepts z (some (str s)) || b) (zod.literal_text "" s)

    trimmed_text :
        (message s : String)
        → accepts (min 1 message (trim string)) (some (str s)) ≡ truthy (trimmed s)
    trimmed_text message s =
        zod.min_text message (trim string) (some (str s)) (trimmed s)
          (zod.trim_text string (some (str s)) s (zod.string_text s))

    trimmed_absent : (message : String) → accepts (min 1 message (trim string)) none ≡ false
    trimmed_absent message =
        zod.min_rejected message (trim string) none
          (zod.trim_rejected string none zod.string_absent)

    uuid_of_text : (message s : String) → accepts (uuid message string) (some (str s)) ≡ is_uuid s
    uuid_of_text message s = zod.uuid_text message string (some (str s)) s (zod.string_text s)

    or_none : (b : Bool) → b ≡ (b || false)
    or_none true = refl
    or_none false = refl

    text-schema_of :
        (type : FieldType) (required : Bool) (label : String) (values : List String) (s : String)
        → accepts (schema_of type required label values) (some (str s))
          ≡ takes_text type required values s
    unfolding schema_of
    text-schema_of FieldType.string true label values s = trimmed_text _ s
    text-schema_of FieldType.string false label values s = plain_text s
    text-schema_of FieldType.text true label values s = trimmed_text _ s
    text-schema_of FieldType.text false label values s = plain_text s
    text-schema_of FieldType.fk true label values s = uuid_of_text _ s ∙ or_none (is_uuid s)
    text-schema_of FieldType.fk false label values s =
        or_blank _ s ∙ ap (λ b. b || "" == s) (uuid_of_text _ s)
    text-schema_of FieldType.date true label values s =
        zod.min_text _ string (some (str s)) s (zod.string_text s)
    text-schema_of FieldType.date false label values s = plain_text s
    text-schema_of FieldType.boolean required label values s =
        zod.optional_present boolean (str s) ∙ zod.boolean_text s
    text-schema_of FieldType.enum required label [] s = plain_text s
    text-schema_of FieldType.enum true label (v ∷ values) s =
        zod.enumeration_text (v ∷ values) s ∙ or_none (has (v ∷ values) s)
    text-schema_of FieldType.enum false label (v ∷ values) s =
        or_blank (enumeration (v ∷ values)) s
        ∙ ap (λ b. b || "" == s) (zod.enumeration_text (v ∷ values) s)

    absent-schema_of :
        (type : FieldType) (required : Bool) (label : String) (values : List String)
        → accepts (schema_of type required label values) none ≡ takes_absent type required values
    unfolding schema_of
    absent-schema_of FieldType.string true label values = trimmed_absent _
    absent-schema_of FieldType.string false label values = zod.optional_absent _
    absent-schema_of FieldType.text true label values = trimmed_absent _
    absent-schema_of FieldType.text false label values = zod.optional_absent _
    absent-schema_of FieldType.fk true label values =
        zod.uuid_rejected _ string none zod.string_absent
    absent-schema_of FieldType.fk false label values = zod.optional_absent _
    absent-schema_of FieldType.date true label values =
        zod.min_rejected _ string none zod.string_absent
    absent-schema_of FieldType.date false label values = zod.optional_absent _
    absent-schema_of FieldType.boolean required label values = zod.optional_absent _
    absent-schema_of FieldType.enum true label [] = zod.optional_absent _
    absent-schema_of FieldType.enum false label [] = zod.optional_absent _
    absent-schema_of FieldType.enum true label (v ∷ values) = zod.enumeration_absent _
    absent-schema_of FieldType.enum false label (v ∷ values) = zod.optional_absent _

    -- What a form takes for a field. Of the texts: for a required string or text those that are not
    -- blank, for a required date those that are not empty, for a foreign key the UUIDs, for an
    -- enumeration with values its values, and for one without values all; a field that is not
    -- required takes the empty text too, and every text where it is a string, a text or a date; a
    -- boolean takes no text. Without a value it takes the field exactly when that is not required, is
    -- a boolean, or is an enumeration without values.
    pub accepts-build_field_schema :
        (field : FieldConfig) (s : String)
        → (accepts (build_field_schema field) (some (str s))
            ≡ takes_text field.type (is_required field) (get_or field.values []) s)
          × (accepts (build_field_schema field) none
              ≡ takes_absent field.type (is_required field) (get_or field.values []))
    unfolding build_field_schema
    accepts-build_field_schema field s = (
      text-schema_of field.type (is_required field) field.label (get_or field.values []) s,
      absent-schema_of field.type (is_required field) field.label (get_or field.values []),
    )
