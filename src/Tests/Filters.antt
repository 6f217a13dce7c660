-- ===== src/Tests/Filters.antt =====
-- The filters on a concrete entity.
use testnexa.Base.{String, ◌≡◌, refl, List, [], ◌∷◌, filter}
use testnexa.Base.Index.{pos}
use testnexa.Filters.{
  next_unused_field, filterable_fields, is_complete, filters_from_conditions,
  conditions_from_filters,
}
use testnexa.Filters.Modal.{
  FilterModal, open_modal, can_add, add_row, set_value, add, value, Reach, here, next,
}
use testnexa.Filters.Draft.{IsDraft}
use testnexa.Filters.Editing.{Reach-IsDraft}
use testnexa.Filters.Wire.{conditions_from_filters-filters_from_conditions}
use testnexa.Tests.Samples.{name_field, status_field, sample_config}

abbrev opened : FilterModal
opened = open_modal sample_config (("name", "a") ∷ ("gone", "b") ∷ [])

abbrev edited : FilterModal
edited = set_value (pos 1) "open" (add_row opened)

edited-Reach : Reach opened edited
unfolding open_modal can_add filterable_fields conditions_from_filters next_unused_field
edited-Reach = next (next here (add refl)) (value (pos 1) "open")

Reach-IsDraft_example : IsDraft (filterable_fields sample_config) edited.draft
Reach-IsDraft_example =
    Reach-IsDraft sample_config (("name", "a") ∷ ("gone", "b") ∷ []) {m = edited} (refl, (refl, tt))
      edited-Reach

abbrev full_draft : FilterModal
full_draft = record {
  fields = name_field ∷ status_field ∷ [];
  draft = record { field = "status"; value = "" } ∷ record { field = "name"; value = "x" } ∷ [];
}

full_draft-IsDraft : IsDraft full_draft.fields full_draft.draft
full_draft-IsDraft = record { distinct = (refl, (refl, tt)); within = (refl, (refl, tt)) }

conditions_from_filters-filters_from_conditions_example :
    conditions_from_filters (filters_from_conditions full_draft.draft) full_draft.fields
    ≡ filter is_complete full_draft.draft
conditions_from_filters-filters_from_conditions_example =
    conditions_from_filters-filters_from_conditions full_draft.fields full_draft.draft
      full_draft-IsDraft

abbrev stored_filters : List (String × String)
stored_filters = ("gone", "b") ∷ ("name", "x") ∷ ("status", "") ∷ []
