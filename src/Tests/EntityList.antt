-- ===== src/Tests/EntityList.antt =====
-- The list page of an entity under a project.
use testnexa.Base.{◌≡◌, refl, true, none, some, List, [], ◌∷◌}
use testnexa.Base.Dict.{lookup}
use testnexa.Json.{Fields, str, field, end}
use testnexa.Entity.{CompoundCreateAction}
use testnexa.EntityCrud.{link_path}
use testnexa.EntityCrud.Query.{build_query}
use testnexa.Session.Permissions.{has as has_permission}
use testnexa.RelationTab.{compound_parent_field, may}
use testnexa.RelationTab.CreateLink.{Request, failed, other, create_compound}
use testnexa.RelationTab.CreateLink.Permitted.{IsPermitted}
use testnexa.EntityList.{Context, has_new_button, create_request}
use testnexa.EntityList.Page.{
  Event, change_page, change_filters, change_sort, delete_row, cancel_delete, confirm, deleted,
  list_query, after,
}
use testnexa.EntityList.Scoped.{lookup-list_query}
use testnexa.EntityList.Permitted.{create_request-IsPermitted}
use testnexa.Tests.Samples.{sample_config}

abbrev defect_action : CompoundCreateAction
defect_action = record {
  far_field = "project_id";
  path_template = "/test-plans/{test_plan_id}/defects";
  permission = "defect.create";
  links_automatically = true;
  parent_entity = some "test-plans";
  parent_label = none;
  parent_label_field = none;
  parent_filters = [];
  parent_select = none;
}

abbrev in_project : Context
in_project = record {
  config = record sample_config { child_compound_creates = some (defect_action ∷ []) };
  scope = some ("project_id", "p");
  permissions = some (record { codes = record { code = "defect.create"; project_id = none } ∷ [] });
  project_id = some "p";
  route_params = λ name. none;
}

-- A filter of the name of the scope does not widen the list.
abbrev wandering : List Event
wandering =
    change_sort "name"
    ∷ change_filters (("project_id", "q") ∷ ("name", "x") ∷ [])
    ∷ change_page 3
    ∷ []

lookup-list_query_example :
    lookup "project_id" (build_query (list_query in_project (after in_project wandering)))
    ≡ some "p"
lookup-list_query_example =
    lookup-list_query in_project "project_id" "p" wandering refl refl ((refl, (refl, tt)), tt)

abbrev new_defect : Request
new_defect = create_compound defect_action "/api/v1/test-plans/t/defects" end

new_defect-create_request : create_request in_project (some "t") end ≡ some new_defect
unfolding create_request link_path compound_parent_field
new_defect-create_request = refl

in_project-has_new_button : has_new_button in_project ≡ true
unfolding has_new_button may has_permission
in_project-has_new_button = refl

create_request-IsPermitted_example :
    IsPermitted in_project.permissions in_project.project_id new_defect
create_request-IsPermitted_example =
    create_request-IsPermitted in_project (some "t") end new_defect in_project-has_new_button
      new_defect-create_request

abbrev row_of : Fields
row_of = field "id" (str "d1") end

abbrev second_try : List Event
second_try =
    confirm
    ∷ delete_row row_of
    ∷ cancel_delete
    ∷ deleted (failed other)
    ∷ confirm
    ∷ delete_row row_of
    ∷ []
