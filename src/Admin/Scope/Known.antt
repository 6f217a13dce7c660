-- ===== src/Admin/Scope/Known.antt =====
-- Routes of entities that the registry does not have.
use testnexa.Base.{String, ◌≡◌, refl, false, Option, none, List, [], ◌∷◌, get_or, arith}
use testnexa.Base.Names.{has}
use testnexa.Base.Dict.{lookup, insert, lookup-insert}
use testnexa.Admin.Registry.{
  RegistryEntry, labels_from, keys_of, all_entities, entity_label_by_key, is_admin_entity_key,
}
use testnexa.Admin.Schema.{SchemaQuery, use_entity_schema}
use testnexa.Admin.Scope.{use_admin_route_context}

lookup-labels_from :
    (es : List RegistryEntry) (key : String) (out : List (String × String))
    → has (keys_of es) key ≡ false
    → lookup key (labels_from out es) ≡ lookup key out
unfolding labels_from
lookup-labels_from [] key out h = refl
lookup-labels_from (e ∷ es) key out h = ground (
  arith,
  lookup-labels_from es key (insert e.key e.label out),
  lookup-insert e.key key e.label out,
)

label-entity : (key : String) → is_admin_entity_key key ≡ false → entity_label_by_key key ≡ none
unfolding is_admin_entity_key entity_label_by_key
label-entity key h = lookup-labels_from all_entities key [] h

-- A key in the address that the registry does not have gives the page neither a configuration nor a
-- label, whatever the queries hold, and no schema is loading: a retired page stays unknown even if
-- the backend still serves its schema.
use_admin_route_context-unknown :
    (queries : Option String → SchemaQuery) (entity org_id project_id fetched : Option String)
    → is_admin_entity_key (get_or entity "") ≡ false
    → ((use_admin_route_context queries none entity org_id project_id fetched).config ≡ none)
      × ((use_admin_route_context queries none entity org_id project_id fetched).label ≡ none)
      × ((use_admin_route_context queries none entity org_id project_id fetched).schema_loading
          ≡ false)
unfolding use_admin_route_context use_entity_schema
use_admin_route_context-unknown queries entity org_id project_id fetched h =
    (rw h refl, label-entity (get_or entity "") h, rw h refl)
