-- ===== src/TestPlan/Edit.antt =====
-- pages/workflows/TestPlanDetail/TestPlanDetail.tsx: what an edit of the plan sends.
use testnexa.Base.{
  String, Bool, true, false, not, ◌&&◌, ◌||◌, ◌==◌, ◌≡◌, ◌∙◌, refl, Option, none, some, List, [],
  ◌∷◌, arith, truthy, get_or, if◌then◌else◌, eq_iff, eq_refl, Bool-cases, inl, inr,
}
use testnexa.Base.Dict.{lookup, insert, lookup-insert}
use testnexa.Json.{Json, str}
use testnexa.Entity.{FieldConfig}
use testnexa.TestPlan.{TestPlanStatus, Values}

-- `typeof value === "string" && value && value !== plan.status`
unfoldable pub is_new_status : TestPlanStatus → Json → Bool
is_new_status status (str s) = truthy s && not (s == status)
is_new_status status _ = false

-- `field.readOnly`
unfoldable pub is_read_only : FieldConfig → Bool
is_read_only field = get_or field.read_only false

-- Whether the value of a field that may be written goes into the payload.
unfoldable pub is_sent : TestPlanStatus → String → Json → Bool
unfolding is_new_status
is_sent status name value = if name == "status" then is_new_status status value else true

add_value : TestPlanStatus → String → Option Json → Values → Values
unfolding is_sent
add_value status name none payload = payload
add_value status name (some value) payload =
    if is_sent status name value then insert name value payload else payload

add_field : Values → TestPlanStatus → FieldConfig → Values → Values
unfolding is_read_only add_value
add_field values status field payload =
    if is_read_only field
    then payload
    else add_value status field.name (lookup field.name values) payload

-- The loop over the fields.
add_fields : List FieldConfig → Values → TestPlanStatus → Values → Values
unfolding add_field
add_fields [] values status payload = payload
add_fields (field ∷ fields) values status payload =
    add_fields fields values status (add_field values status field payload)

unfoldable pub edit_payload : List FieldConfig → Values → TestPlanStatus → Values
unfolding add_fields
edit_payload fields values status = add_fields fields values status []

-- A field of this name may be written.
abbrev pub is_writable : List FieldConfig → String → Bool
is_writable [] name = false
is_writable (field ∷ fields) name =
    not (get_or field.read_only false) && field.name == name || is_writable fields name

-- What the status must not be sent as: anything but a text, the empty text, or the plan's own status.
abbrev pub is_left_out : TestPlanStatus → Json → Bool
is_left_out status (str s) = s == "" || s == status
is_left_out status _ = true

-- The value of a form that is sent, of those that it has.
abbrev pub sent_value : TestPlanStatus → String → Option Json → Option Json
sent_value status name none = none
sent_value status name (some value) =
    if name == "status" && is_left_out status value then none else some value

flip_if :
    {A : Type 0} (a b : A) (test : Bool) → (if test then a else b) ≡ (if not test then b else a)
flip_if a b true = refl
flip_if a b false = refl

is_sent-left_out :
    (status : TestPlanStatus) (name : String) (value : Json)
    → is_sent status name value ≡ not (name == "status" && is_left_out status value)
unfolding is_sent is_new_status
is_sent-left_out status name (str s) = ground arith
is_sent-left_out status name _ = ground arith

sent_value-is_sent :
    (status : TestPlanStatus) (name : String) (value : Json)
    → sent_value status name (some value) ≡ (if is_sent status name value then some value else none)
sent_value-is_sent status name value =
    rw (is_sent-left_out status name value)
      (flip_if none (some value) (name == "status" && is_left_out status value))

-- The loop, at one name: a value that may be written and is sent replaces the old one.
at_name : Bool → Option Json → Option Json → Option Json
at_name false o old = old
at_name true none old = old
at_name true (some value) old = some value

at_name-at_name :
    (b c : Bool) (o old : Option Json) → at_name c o (at_name b o old) ≡ at_name (b || c) o old
unfolding at_name
at_name-at_name true true none old = refl
at_name-at_name true true (some value) old = refl
at_name-at_name true false o old = refl
at_name-at_name false c o old = refl

at_name-none : (b : Bool) (o : Option Json) → at_name b o none ≡ (if b then o else none)
unfolding at_name
at_name-none true none = refl
at_name-none true (some value) = refl
at_name-none false o = refl

lookup-add_value :
    (name : String) (status : TestPlanStatus) (o : Option Json) (payload : Values)
    → lookup name (add_value status name o payload)
      ≡ at_name true (sent_value status name o) (lookup name payload)
unfolding add_value at_name
lookup-add_value name status none payload = refl
lookup-add_value name status (some value) payload =
    let sent = sent_value-is_sent status name value in
    elim (Bool-cases (is_sent status name value)) [
      | inl e ↦ simp (sent, e, lookup-insert, eq_refl) refl
      | inr e ↦ simp (sent, e) refl
    ]

lookup-add_value_other :
    (name key : String) (status : TestPlanStatus) (o : Option Json) (payload : Values)
    → (key == name) ≡ false
    → lookup name (add_value status key o payload) ≡ lookup name payload
unfolding add_value
lookup-add_value_other name key status none payload h = refl
lookup-add_value_other name key status (some value) payload h =
    elim (Bool-cases (is_sent status key value)) [
      | inl e ↦ rw (e, lookup-insert, h) refl
      | inr e ↦ rw e refl
    ]

module _ (name : String) (values : Values) (status : TestPlanStatus) where
  -- What is sent under the name, where it may be written.
  abbrev sent_here : Option Json
  sent_here = sent_value status name (lookup name values)

  add_named :
      (b : Bool) (key : String) (payload : Values)
      → (key == name) ≡ b
      → lookup name (add_value status key (lookup key values) payload)
        ≡ at_name b sent_here (lookup name payload)
  unfolding at_name
  add_named true key payload h =
      rw ((eq_iff key name).0 h) (lookup-add_value name status (lookup name values) payload)
  add_named false key payload h =
      lookup-add_value_other name key status (lookup key values) payload h

  add_written :
      (b : Bool) (key : String) (payload : Values)
      → lookup name (if b then payload else add_value status key (lookup key values) payload)
        ≡ at_name (not b && key == name) sent_here (lookup name payload)
  unfolding at_name
  add_written true key payload = refl
  add_written false key payload = add_named (key == name) key payload refl

  lookup-add_fields :
      (fields : List FieldConfig) (payload : Values)
      → lookup name (add_fields fields values status payload)
        ≡ at_name (is_writable fields name) sent_here (lookup name payload)
  unfolding add_fields add_field at_name
  lookup-add_fields [] payload = refl
  lookup-add_fields (field ∷ fields) payload =
      lookup-add_fields fields (add_field values status field payload)
      ∙ rw (add_written (is_read_only field) field.name payload) (
          at_name-at_name (not (is_read_only field) && field.name == name) (is_writable fields name)
            sent_here (lookup name payload))

  -- An edit sends a value of the form under a name exactly when the form has one there and a field
  -- of the name may be written, and under the name of the status only a text that is not empty and
  -- not the status of the plan already; it sends nothing else.
  pub lookup-edit_payload :
      (fields : List FieldConfig)
      → lookup name (edit_payload fields values status)
        ≡ (if is_writable fields name then sent_value status name (lookup name values) else none)
  unfolding edit_payload
  lookup-edit_payload fields =
      lookup-add_fields fields [] ∙ at_name-none (is_writable fields name) sent_here
