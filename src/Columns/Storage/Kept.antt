-- ===== src/Columns/Storage/Kept.antt =====
-- The storage as one choice of columns for each entity: what saving and clearing do to all of them.
use testnexa.Base.{
  String, ◌≡◌, ◌≢◌, refl, true, false, inl, inr, Option, none, some, List, ◌==◌, eq_iff, eq_refl,
  truthy, arith, if◌then◌else◌, Bool-cases,
}
use testnexa.Json.{Json}
use testnexa.Columns.{ColumnPreferences, column_preferences_version}
use testnexa.Columns.Storage.{
  column_preferences_key, to_json, Access, works, throws, load_column_preferences,
  save_column_preferences, clear_column_preferences,
}
use testnexa.Columns.Storage.Stored.{load-save, load_other, lookup-remove_item, keys_apart}

-- A choice of columns for each entity that has one.
abbrev pub Choices : Type 0
Choices = String → Option ColumnPreferences

abbrev pub read : Access → Choices → String → Option ColumnPreferences
read works choices resource = choices resource
read throws choices resource = none

abbrev pub write : Access → String → Option ColumnPreferences → Choices → Choices
write works resource choice choices = λ other. if resource == other then choice else choices other
write throws resource choice choices = choices

differs : (r q : String) → (r == q) ≡ false → r ≢ q
differs r q other same = ground (arith, eq_iff r q)

module _ (parse : String → Option Json) (stringify : Json → String) where
  -- A value that survives being stored.
  pub record IsStorable (p : ColumnPreferences) : Type 0 where
    pub current : p.v ≡ column_preferences_version
    pub full : truthy (stringify (to_json p)) ≡ true
    pub law : parse (stringify (to_json p)) ≡ some (to_json p)

  -- The choices that the storage holds.
  abbrev pub stored : List (String × String) → Choices
  stored storage = load_column_preferences parse stringify works storage

  pub load-read :
      (access : Access) (storage : List (String × String)) (resource : String)
      → load_column_preferences parse stringify access storage resource
        ≡ read access (stored storage) resource
  unfolding load_column_preferences
  load-read works storage resource = refl
  load-read throws storage resource = refl

  pub stored-save :
      (access : Access) (r q : String) (p : ColumnPreferences) (storage : List (String × String))
      → IsStorable p
      → stored (save_column_preferences parse stringify access r p storage) q
        ≡ write access r (some p) (stored storage) q
  stored-save works r q p storage fits = elim (Bool-cases (r == q)) [
    | inl same ↦
        let e : r ≡ q = (eq_iff r q).0 same in
        rw (same, ← e) (load-save parse stringify r p storage fits.current fits.full fits.law)
    | inr other ↦
        rw other (load_other parse stringify r q p works works storage (differs r q other)).0
  ]
  stored-save throws r q p storage fits = unfold save_column_preferences in refl

  pub stored-clear :
      (access : Access) (r q : String) (storage : List (String × String))
      → stored (clear_column_preferences access r storage) q
        ≡ write access r none (stored storage) q
  stored-clear works r q storage = elim (Bool-cases (r == q)) [
    | inl same ↦
        let key = column_preferences_key r in
        let e : r ≡ q = (eq_iff r q).0 same in
        rw (same, ← e)
          (unfold load_column_preferences clear_column_preferences in
            rw (lookup-remove_item key key storage, eq_refl key) refl)
    | inr other ↦
        let key = column_preferences_key r in
        let key' = column_preferences_key q in
        rw other (
          unfold load_column_preferences clear_column_preferences in
          rw (lookup-remove_item key key' storage, keys_apart r q (differs r q other)) refl)
  ]
  stored-clear throws r q storage = unfold clear_column_preferences in refl
