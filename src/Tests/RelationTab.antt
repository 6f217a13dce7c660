-- ===== src/Tests/RelationTab.antt =====
-- A relation tab over a junction whose link request fails.
use testnexa.Base.{◌≡◌, refl, true, not, ◌&&◌, Option, none, some, List, [], ◌∷◌, All, any, length}
use testnexa.Json.{property, obj, str, field, end}
use testnexa.Entity.{EntityRelation, many_to_many, EntityConfig, Method}
use testnexa.Session.Permissions.{MyPermissionsResponse, has}
use testnexa.RelationTab.{active_compound_create}
use testnexa.RelationTab.Sorting.{SortState, desc, IsUnsortedBy, handle_sort_change}
use testnexa.RelationTab.CreateLink.{
  created_not_linked_message, Tab, Request, Reply, ok, failed, create_row, create_compound,
  link_row, api_error, Dialog, create_and_link, settle, created_not_linked,
}
use testnexa.RelationTab.CreateLink.Gate.{links_automatically, can_create_and_link}
use testnexa.RelationTab.CreateLink.Rows.{id_of, far_row_display}
use testnexa.EntityCrud.{create_path, link_path}
use testnexa.RelationTab.CreateLink.Closing.{has_created, shown-create_and_link}
use testnexa.RelationTab.CreateLink.Permitted.{IsPermitted, create_and_link-IsPermitted}
use testnexa.RelationTab.Dialogs.{closed}
use testnexa.RelationTab.Dialogs.Covered.{AreCovered}
use testnexa.RelationTab.Dialogs.Events.{
  Event, open_link, pick, link, settle_link, ask, confirm, settle_unlink, after,
}
use testnexa.RelationTab.Dialogs.Permitted.{after-closed-AreCovered}
use testnexa.Tests.Samples.{sample_config}

abbrev link_relation : EntityRelation
link_relation = record {
  kind = many_to_many;
  entity = "test-case-defects";
  scope_field = "test_case_id";
  label = "Defects (linked)";
  target_entity = "defects";
  target_field = some "defect_id";
}

abbrev link_config : EntityConfig
link_config = record sample_config {
  resource = "test_case_defect";
  link_create = some (record {
    path_template = "/test-cases/{test_case_id}/defects/{defect_id}";
    permission = "test_case_defect.create";
  });
}

abbrev far_config : EntityConfig
far_config = record sample_config { methods = Method.list ∷ Method.create ∷ [] }

abbrev sample_tab : Tab
sample_tab = record {
  relation = link_relation;
  config = link_config;
  far_config = some far_config;
  parent_id = "c1";
  params = λ name. none;
  far_label = "defects";
}

abbrev refusing : Request → Reply
refusing (create_row config path values) = ok (some (obj (field "id" (str "d7") end)))
refusing (create_compound action path values) = failed (api_error "No such route." none)
refusing (link_row action path) = failed (api_error "Another project." none)

abbrev open_dialog : Dialog
open_dialog = record {
  show_create_link_modal = true;
  create_link_error = none;
  create_link_field_errors = none;
  not_linked_notice = none;
  compound_parent_id = none;
  compound_parent_scope = none;
  refetches = 0;
}

half_done : create_and_link sample_tab refusing none end ≡ (
  create_row far_config "/api/v1/defects" end
      ∷ link_row
          (record {
            path_template = "/test-cases/{test_case_id}/defects/{defect_id}";
            permission = "test_case_defect.create";
          })
          "/api/v1/test-cases/c1/defects/d7"
      ∷ [],
  created_not_linked
      "\"d7\" (id d7) was created, but linking it to this record failed: Another project. It was saved and is NOT linked — use \"Link existing defects\" to link it.",
)
unfolding create_and_link active_compound_create links_automatically create_path id_of property
    link_path created_not_linked_message far_row_display
half_done = refl

shown-create_and_link_example :
    (settle (create_and_link sample_tab refusing none end).1 open_dialog).show_create_link_modal
    ≡ (true && not (any (has_created refusing) (create_and_link sample_tab refusing none end).0))
shown-create_and_link_example = shown-create_and_link sample_tab refusing none end open_dialog

abbrev both_codes : Option MyPermissionsResponse
both_codes = some (record {
  codes =
      record { code = "defect.create"; project_id = none }
      ∷ record { code = "test_case_defect.create"; project_id = some "p1" }
      ∷ [];
})

offered :
    can_create_and_link both_codes (some "p1") link_relation link_config (some far_config) ≡ true
unfolding can_create_and_link has
offered = refl

create_and_link-IsPermitted_example :
    All (IsPermitted both_codes (some "p1")) (create_and_link sample_tab refusing none end).0
create_and_link-IsPermitted_example =
    create_and_link-IsPermitted both_codes (some "p1") sample_tab refusing none end offered

abbrev by_status : SortState
by_status = record {
  sort_resource = "defects";
  sort = some ("status", desc);
  filters = ("status", "open") ∷ [];
}

other_field : IsUnsortedBy "name" by_status.sort
unfolding IsUnsortedBy
other_field = refl

abbrev click : SortState → SortState
click s = (handle_sort_change "name" s).0

-- The tab where its links can be removed too.
abbrev removing_tab : Tab
removing_tab = record sample_tab {
  config = record link_config {
    link_delete = some (record {
      path_template = "/test-cases/{test_case_id}/defects/{defect_id}";
      permission = "test_case_defect.create";
    });
  };
}

-- A link is made; a removal is asked for, refused, and confirmed again.
abbrev clicks : List Event
clicks =
    open_link
    ∷ pick (some "d1")
    ∷ link
    ∷ link
    ∷ settle_link (ok none)
    ∷ ask (field "defect_id" (str "d2") end)
    ∷ confirm
    ∷ settle_unlink (failed (api_error "Try again." none))
    ∷ confirm
    ∷ settle_unlink (ok none)
    ∷ []

after-closed-AreCovered_example :
    AreCovered both_codes
      (some "p1")
      removing_tab
      (after both_codes (some "p1") removing_tab clicks closed)
after-closed-AreCovered_example = after-closed-AreCovered both_codes (some "p1") removing_tab clicks

three_requests : length (after both_codes (some "p1") removing_tab clicks closed).calls ≡ 3
unfolding after has property link_path
three_requests = refl
