-- ===== src/Projects.antt =====
-- lib/api/projects.ts: the loop that lists the projects of an organisation page by page. The answers
-- of the API client are a function of the page; the loop has fuel, since the source has no bound.
pub mod Listing
use testnexa.Base.{ℕ, zero, suc, Bool, true, false, ◌||◌, List, [], ◌++◌, length, leb, ltb}
use testnexa.Session.Client.{ApiError}
use testnexa.Navigation.OrgContext.{ProjectSummary}

pub record ProjectListResponse : Type 0 where
  pub items : List ProjectSummary
  pub total : ℕ
  pub page : ℕ
  pub page_size : ℕ

-- What `apiFetch` does for a page.
pub data Answer : Type 0 where
  answers : ProjectListResponse → Answer
  fails : ApiError → Answer

pub data Listed : Type 0 where
  done : List ProjectSummary → Listed
  failed : ApiError → Listed
  out_of_fuel : Listed

-- `pageSize`
abbrev pub page_size : ℕ
page_size = 100

-- Whether the loop breaks after a response, with the items so far.
abbrev pub is_last : List ProjectSummary → ProjectListResponse → Bool
is_last items response = leb response.total (length items) || ltb (length response.items) page_size

module _ (fetch : ℕ → Answer) where
  loop : ℕ → ℕ → List ProjectSummary → Listed
  loop zero page items = out_of_fuel
  loop (suc fuel) page items = elim (fetch page) [
    | fails error ↦ failed error
    | answers response ↦ elim (is_last (items ++ response.items) response) [
      | true ↦ done (items ++ response.items)
      | false ↦ loop fuel (suc page) (items ++ response.items)
    ]
  ]

  unfoldable pub list_projects : ℕ → Listed
  unfolding loop
  list_projects fuel = loop fuel 1 []
