-- ===== src/Tests/EntityForm.antt =====
-- A form with a locked scope field.
use testnexa.Base.{
  String, ◌≡◌, refl, Bool, true, false, ◌||◌, ◌==◌, Option, none, some, truthy, is_some,
  if◌then◌else◌, List, [], ◌∷◌, get_or,
}
use testnexa.Base.Dict.{lookup}
use testnexa.Json.{Json, str, null}
use testnexa.EntityForm.{
  ZodTypeAny, string, boolean, enumeration, literal, trim, min, uuid, union, optional, create,
  handle_form_submit, build_field_schema, is_required,
}
use testnexa.EntityForm.Payload.{or_locked, sent, entered, lookup-handle_form_submit}
use testnexa.EntityForm.Validation.{
  accepts, IsZod, takes_text, takes_absent, accepts-build_field_schema,
}
use testnexa.Base.Names.{has}
use testnexa.Tests.Samples.{sample_fields, status_field}

abbrev locked_status : Option (List (String × String))
locked_status = some (("status", "open") ∷ [])

abbrev entered_values : List (String × Json)
entered_values = ("name", str "n") ∷ ("due", str "") ∷ []

lookup-handle_form_submit_example :
    lookup "due" (handle_form_submit create locked_status sample_fields entered_values)
    ≡ or_locked
        (lookup "due" (sent create locked_status))
        (entered locked_status sample_fields entered_values "due")
lookup-handle_form_submit_example =
    lookup-handle_form_submit create locked_status sample_fields entered_values "due" (refl, tt)

payload-handle_form_submit :
    handle_form_submit create locked_status sample_fields entered_values
    ≡ ("name", str "n") ∷ ("due", null) ∷ ("status", str "open") ∷ []
unfolding handle_form_submit
payload-handle_form_submit = refl

-- A validation library that trims one blank, and has one UUID.
abbrev trim_blank : String → String
trim_blank s = if s == " " then "" else s

abbrev only_uuid : String → Bool
only_uuid s = s == "u"

abbrev when_text : (String → Option String) → Option (Option Json) → Option (Option Json)
when_text f (some (some (str s))) = elim (f s) [ none ↦ none | some t ↦ some (some (str t)) ]
when_text f _ = none

abbrev keep_if : Bool → String → Option String
keep_if test s = if test then some s else none

abbrev first_of : Option (Option Json) → Option (Option Json) → Option (Option Json)
first_of none b = b
first_of (some a) b = some a

parse_text : Option Json → Option (Option Json)
parse_text (some (str s)) = some (some (str s))
parse_text _ = none

parse_optional : Option Json → Option (Option Json) → Option (Option Json)
parse_optional none inner = some none
parse_optional (some v) inner = inner

abbrev small_zod : ZodTypeAny → Option Json → Option (Option Json)
unfolding parse_text parse_optional
small_zod string v = parse_text v
small_zod boolean v = none
small_zod (enumeration values) v = when_text (λ s. keep_if (has values s) s) (parse_text v)
small_zod (literal l) v = when_text (λ s. keep_if (l == s) s) (parse_text v)
small_zod (trim z) v = when_text (λ s. some (trim_blank s)) (small_zod z v)
small_zod (min n message z) v = when_text (λ s. keep_if (truthy s) s) (small_zod z v)
small_zod (uuid message z) v = when_text (λ s. keep_if (only_uuid s) s) (small_zod z v)
small_zod (union a b) v = first_of (small_zod a v) (small_zod b v)
small_zod (optional z) v = parse_optional v (small_zod z v)

kept : (b : Bool) (s : String) → is_some (when_text (λ t. keep_if b t) (some (some (str s)))) ≡ b
kept true s = refl
kept false s = refl

either : (a b : Option (Option Json)) → is_some (first_of a b) ≡ (is_some a || is_some b)
either none b = refl
either (some a) b = refl

small_zod-IsZod : IsZod small_zod trim_blank only_uuid
unfolding small_zod parse_text parse_optional
small_zod-IsZod = record {
  string_text = λ s. refl;
  string_absent = refl;
  boolean_text = λ s. refl;
  enumeration_text = λ values s. kept (has values s) s;
  enumeration_absent = λ values. refl;
  literal_text = λ l s. kept (l == s) s;
  trim_text = λ z v s e. rw e refl;
  trim_rejected = λ z v e. rw e refl;
  min_text = λ message z v s e. rw e (kept (truthy s) s);
  min_rejected = λ message z v e. rw e refl;
  uuid_text = λ message z v s e. rw e (kept (only_uuid s) s);
  uuid_rejected = λ message z v e. rw e refl;
  union_either = λ a b v. either (small_zod a v) (small_zod b v);
  optional_absent = λ z. refl;
  optional_present = λ z v. refl;
}

-- A required enumeration without values takes a blank.
accepts-build_field_schema_example :
    (accepts small_zod trim_blank only_uuid (build_field_schema status_field) (some (str ""))
      ≡ takes_text small_zod trim_blank only_uuid status_field.type
          (is_required status_field)
          (get_or status_field.values [])
          "")
    × (accepts small_zod trim_blank only_uuid (build_field_schema status_field) none
        ≡ takes_absent small_zod trim_blank only_uuid status_field.type
            (is_required status_field)
            (get_or status_field.values []))
accepts-build_field_schema_example =
    accepts-build_field_schema small_zod trim_blank only_uuid small_zod-IsZod status_field ""
