-- ===== src/EntityForm/Payload.antt =====
-- What a submit sends for each key.
use testnexa.Base.{
  String, ◌≡◌, refl, sym, ap, ◌∙◌, Bool-cases, inl, inr, Bool, true, false, ◌==◌, Option, none,
  some, List, [], ◌∷◌, if◌then◌else◌, arith, eq_iff,
}
use testnexa.Base.Names.{has, Distinct}
use testnexa.Base.Dict.{insert, lookup, keys, lookup-insert, lookup_of_not_has}
use testnexa.Json.{Json, null, str}
use testnexa.Entity.{FieldConfig, names_of}
use testnexa.EntityForm.{
  FormMode, create, edit, is_locked, editable_fields, assign, is_blank, null_blanks, with_locked,
  handle_form_submit,
}

-- A blank value, as it is sent.
nulled : Option Json → Option Json
nulled o = if is_blank o then some null else o

nulled-nulled : (o : Option Json) → nulled (nulled o) ≡ nulled o
unfolding nulled
nulled-nulled o = elim (Bool-cases (is_blank o)) [ inl e ↦ rw e refl | inr e ↦ rw (e, e) refl ]

null_one :
    (name key : String) (payload : List (String × Json))
    → lookup key (if is_blank (lookup name payload) then insert name null payload else payload)
      ≡ (if name == key then nulled (lookup key payload) else lookup key payload)
unfolding nulled
null_one name key payload = ground (
  arith,
  eq_iff name key,
  lookup-insert name key null payload,
  Bool-cases (is_blank (lookup name payload)),
)

lookup-null_blanks :
    (fields : List FieldConfig) (key : String) (payload : List (String × Json))
    → lookup key (null_blanks fields payload)
      ≡ (if has (names_of fields) key then nulled (lookup key payload) else lookup key payload)
unfolding null_blanks
lookup-null_blanks [] key payload = refl
lookup-null_blanks (f ∷ fields) key payload = ground (
  arith,
  lookup-null_blanks fields key
      (if is_blank (lookup f.name payload) then insert f.name null payload else payload),
  null_one f.name key payload,
  nulled-nulled (lookup key payload),
)

-- A locked value in front of another.
unfoldable pub or_locked : Option String → Option Json → Option Json
or_locked none o = o
or_locked (some v) o = some (str v)

locked_first :
    (k key v : String) (o : Option Json) (l : Option String)
    → (k == key ≡ true → l ≡ none)
    → or_locked l (if k == key then some (str v) else o)
      ≡ or_locked (if k == key then some v else l) o
unfolding or_locked
locked_first k key v o l h = elim (Bool-cases (k == key)) [
  | inl e ↦ rw (e, h e) refl
  | inr e ↦ rw e refl
]

lookup-assign :
    (locked : List (String × String)) (key : String) (payload : List (String × Json))
    → Distinct (keys locked)
    → lookup key (assign payload locked) ≡ or_locked (lookup key locked) (lookup key payload)
unfolding assign or_locked
lookup-assign [] key payload d = refl
lookup-assign ((k, v) ∷ locked) key payload (p, d) =
    lookup-assign locked key (insert k (str v) payload) d
    ∙ ap (or_locked (lookup key locked)) (lookup-insert k key (str v) payload)
    ∙ locked_first k key v (lookup key payload) (lookup key locked) (λ e.
      let same : k ≡ key = (eq_iff k key).0 e in
      lookup_of_not_has key locked (ap (has (keys locked)) (sym same) ∙ p))

-- A locked field is not editable.
has-editable_fields :
    (locked : List (String × String)) (fields : List FieldConfig) (key : String)
    → has (keys locked) key ≡ true
    → has (names_of (editable_fields (some locked) fields)) key ≡ false
unfolding editable_fields is_locked
has-editable_fields locked [] key h = refl
has-editable_fields locked (f ∷ fields) key h =
    ground (arith, eq_iff f.name key, has-editable_fields locked fields key h)

-- The locked values that a submit sends.
abbrev pub sent : FormMode → Option (List (String × String)) → List (String × String)
sent create (some locked) = locked
sent _ _ = []

-- A record has each key once.
abbrev pub IsRecord : Option (List (String × String)) → Type 0
IsRecord none = Unit
IsRecord (some locked) = Distinct (keys locked)

-- What the form sends for a key that is not locked.
unfoldable pub entered :
    Option (List (String × String)) → List FieldConfig → List (String × Json) → String → Option Json
unfolding nulled
entered locked fields values key =
    if has (names_of (editable_fields locked fields)) key
    then nulled (lookup key values)
    else lookup key values

has_of_lookup :
    (locked : List (String × String)) (key v : String)
    → lookup key locked ≡ some v
    → has (keys locked) key ≡ true
has_of_lookup locked key v h = elim (Bool-cases (has (keys locked) key)) [
  | inl e ↦ e
  | inr e ↦ let f : lookup key locked ≡ none = lookup_of_not_has key locked e in cc
]

locked_stays :
    (e : Bool) (l : Option String) (o : Option Json)
    → ((v : String) → l ≡ some v → e ≡ false)
    → (if e then nulled (or_locked l o) else or_locked l o)
      ≡ or_locked l (if e then nulled o else o)
unfolding or_locked
locked_stays true none o h = refl
locked_stays false none o h = refl
locked_stays true (some v) o h = let f : true ≡ false = h v refl in ground arith
locked_stays false (some v) o h = refl

-- On a create each locked value is sent as it is, and no entered value stands in for it. Any other
-- key, and on an edit every key, is sent as it was entered, with `null` for an editable field that
-- is blank. The locked values have one value for a key.
pub lookup-handle_form_submit :
    (mode : FormMode) (locked : Option (List (String × String))) (fields : List FieldConfig)
    (values : List (String × Json)) (key : String)
    → IsRecord locked
    → lookup key (handle_form_submit mode locked fields values)
      ≡ or_locked (lookup key (sent mode locked)) (entered locked fields values key)
unfolding handle_form_submit with_locked entered or_locked
lookup-handle_form_submit create (some locked) fields values key d =
    lookup-null_blanks (editable_fields (some locked) fields) key (assign values locked)
    ∙ rw (lookup-assign locked key values d) (
        locked_stays (has (names_of (editable_fields (some locked) fields)) key) (lookup key locked)
          (lookup key values)
          (λ v e. has-editable_fields locked fields key (has_of_lookup locked key v e)))
lookup-handle_form_submit create none fields values key d =
    lookup-null_blanks (editable_fields none fields) key values
lookup-handle_form_submit edit locked fields values key d =
    lookup-null_blanks (editable_fields locked fields) key values
