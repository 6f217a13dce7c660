-- ===== src/Admin/Schema/Batch.antt =====
-- The batch of `useEntitySchemas` against the single hook.
use testnexa.Base.{
  String, ◌≡◌, refl, ap, sym, ◌∙◌, Bool-cases, inl, inr, true, ◌<>◌, ◌==◌, Option, none, some, List,
  [], ◌∷◌, map, if◌then◌else◌, arith, eq_iff, truthy,
}
use text.Mathlib.TextLemmas.{append-eq-nil_iff}
use testnexa.Base.Names.{has}
use testnexa.Base.Dedup.{dedup, has-dedup}
use testnexa.Base.Dict.{lookup, insert, lookup-insert}
use testnexa.Entity.{EntityConfig}
use testnexa.Admin.Overrides.{static_entity_configs}
use testnexa.Admin.Schema.{
  EntitySchemaResponse, SchemaQuery, resolve_entity_key, to_entity_config, fetched_config_of,
  static_config_of, key_of, use_entity_schema, fill_one, fill, use_entity_schemas,
}

-- What the two hooks give for a key.
config_at : Option EntityConfig → Option EntitySchemaResponse → String → Option EntityConfig
config_at (some c) response key = some c
config_at none (some response) key = some (to_entity_config key response)
config_at none none key = none

or_else : Option EntityConfig → Option EntityConfig → Option EntityConfig
or_else none o = o
or_else (some c) o = some c

insert_at :
    (s : Option EntityConfig) (r : Option EntitySchemaResponse) (key k : String)
    (out : List (String × EntityConfig))
    → lookup k (elim s [
      | some c ↦ insert key c out
      | none ↦ elim r [
        | some response ↦ insert key (to_entity_config key response) out
        | none ↦ out
      ]
    ])
      ≡ (if key == k then or_else (config_at s r key) (lookup k out) else lookup k out)
unfolding config_at or_else
insert_at (some c) r key k out = lookup-insert key k c out
insert_at none (some response) key k out = lookup-insert key k (to_entity_config key response) out
insert_at none none key k out = elim (Bool-cases (key == k)) [
  | inl e ↦ rw e refl
  | inr e ↦ rw e refl
]

or_else-or_else : (s o : Option EntityConfig) → or_else s (or_else s o) ≡ or_else s o
unfolding or_else
or_else-or_else none o = refl
or_else-or_else (some c) o = refl

-- A text with something behind it is not empty.
truthy-append : (key : String) → truthy key ≡ true → truthy (key <> "s") ≡ true
truthy-append key h = elim (Bool-cases (truthy (key <> "s"))) [
  | inl t ↦ t
  | inr e ↦
      ground (arith, eq_iff key "", eq_iff (key <> "s") "", append-eq-nil_iff {p = key} {q = "s"})
]

resolved-truthy : (key : String) → truthy key ≡ true → truthy (resolve_entity_key key) ≡ true
unfolding resolve_entity_key
resolved-truthy key h = ground (arith, truthy-append key h)

some_or :
    (s : Option EntityConfig) (r : Option EntitySchemaResponse) (key : String)
    → truthy key ≡ true
    → elim s [ some c ↦ some c | none ↦ fetched_config_of (some key) r ] ≡ config_at s r key
unfolding config_at fetched_config_of
some_or (some c) r key h = refl
some_or none none key h = refl
some_or none (some response) key h = rw h refl

key_of-truthy :
    (key : String) → truthy key ≡ true → key_of (some key) ≡ some (resolve_entity_key key)
unfolding key_of
key_of-truthy key h = rw h refl

static-at :
    (key : String) → truthy key ≡ true → static_config_of (some key) ≡ static_entity_configs key
unfolding static_config_of
static-at key h = rw h refl

module _ (queries : Option String → SchemaQuery) where
  at : String → Option EntityConfig
  at key = config_at (static_entity_configs key) (queries (some key)).response key

  lookup-fill_one :
      (key k : String) (out : List (String × EntityConfig))
      → lookup k (fill_one queries key out)
        ≡ (if key == k then or_else (at key) (lookup k out) else lookup k out)
  unfolding fill_one at
  lookup-fill_one key k out =
      insert_at (static_entity_configs key) (queries (some key)).response key k out

  lookup-fill :
      (ks : List String) (k : String) (out : List (String × EntityConfig))
      → lookup k (fill queries ks out)
        ≡ (if has ks k then or_else (at k) (lookup k out) else lookup k out)
  unfolding fill
  lookup-fill [] k out = refl
  lookup-fill (key ∷ ks) k out = ground (
    arith,
    eq_iff key k,
    lookup-fill ks k (fill_one queries key out),
    lookup-fill_one key k out,
    or_else-or_else (at k) (lookup k out),
  )

  config_from : Option String → Option EntityConfig
  config_from key = elim (static_config_of key) [
    | some c ↦ some c
    | none ↦ fetched_config_of key (queries key).response
  ]

  single-at :
      (key : String)
      → truthy key ≡ true
      → (use_entity_schema queries (some key)).config ≡ at (resolve_entity_key key)
  unfolding use_entity_schema at config_from
  single-at key h =
      let k : String = resolve_entity_key key in
      let t : truthy k ≡ true = resolved-truthy key h in
      ap config_from (key_of-truthy key h)
      ∙ rw (config_from, static-at k t)
          (some_or (static_entity_configs k) (queries (some k)).response k t)

has-map_resolve :
    (keys : List String) (key : String)
    → has keys key ≡ true
    → has (map resolve_entity_key keys) (resolve_entity_key key) ≡ true
has-map_resolve [] key h = h
has-map_resolve (k ∷ keys) key h = ground (
  arith,
  eq_iff k key,
  eq_iff (resolve_entity_key k) (resolve_entity_key key),
  has-map_resolve keys key,
)

or_else-none : (o : Option EntityConfig) → or_else o none ≡ o
unfolding or_else
or_else-none none = refl
or_else-none (some c) = refl

-- Whatever the queries hold, the batch has for each name it was asked for, under the slug of the
-- name, the configuration that the single hook gives for the name, and none where that gives none.
pub lookup-use_entity_schemas :
    (queries : Option String → SchemaQuery) (keys : List String) (key : String)
    → has keys key ≡ true
    → truthy key ≡ true
    → lookup (resolve_entity_key key) (use_entity_schemas queries keys)
      ≡ (use_entity_schema queries (some key)).config
unfolding use_entity_schemas
lookup-use_entity_schemas queries keys key h t =
    rw
      (
        lookup-fill queries (dedup (map resolve_entity_key keys)) (resolve_entity_key key) [],
        has-dedup (map resolve_entity_key keys) (resolve_entity_key key),
        has-map_resolve keys key h,
        or_else-none (at queries (resolve_entity_key key)),
      )
      (sym (single-at queries key t))
