-- ===== src/Lib.antt =====
-- The single-page frontend of TestNexa (frontend/src): the logic behind its pages, as functions and
-- step relations, with what makes it correct.
--
-- The parts, and how they work together:
-- * Entity (entityConfigs/types.ts) has the configuration of an entity and of its fields, which every
--   generic admin page runs on.
-- * Admin builds that configuration: Admin/Registry (pages/admin/registry.ts) is the table of the
--   entities, Admin/Overrides (entityConfigs/overrides.ts) the routes that stay in the frontend, and
--   Admin/Schema (pages/admin/useEntitySchema.ts, lib/api/entitySchema.ts) the two hooks that merge them
--   with the schema that the backend serves.
-- * Filters (lib/entityFilters.ts) turns the draft of the Filter modal into the map that a list is
--   queried with, and back; Filters/Modal (components/organisms/filter-modal) has the states of the open
--   dialog and the edits that its controls offer.
-- * Columns (lib/columnPreferences.ts) merges a stored choice of columns into the served fields;
--   Columns/Modal (components/organisms/column-preferences-modal) has the edits of its dialog, and
--   Columns/Storage the reading and writing of localStorage, which may throw.
-- * Session has the token store (lib/auth/tokenStore.ts), the API client with the refresh that its
--   calls share (lib/api/client.ts), the provider with the two guards of the routes
--   (auth/AuthContext.tsx, auth/ProtectedRoute.tsx, pages/workflows/RootRedirect) and the permissions
--   hook (auth/usePermissions.ts).
-- * Paging (container/Table.tsx, components/molecules/pagination) cuts a list into pages.
-- * Navigation has the organisation of a route (hooks/useResolvedOrgId.ts), the breadcrumb
--   (components/organisms/app-breadcrumb) and the sidebar (components/organisms/app-sidebar).
-- * EntityForm (components/organisms/entity-form) has the fields of a form, its validation schema and
--   the payload of a submit.
-- * Admin/Scope (pages/admin/useEntityScope.ts, pages/admin/useAdminRouteContext.ts, with scopeArmsOf and
--   pickerScopeParams of container/entity-crud/EntityDetailPage/EntityRelationTab.tsx) resolves what a
--   list is scoped to, EntityCrud (lib/api/entityCrud.ts) fills in the paths of the requests, and
--   Projects (lib/api/projects.ts) has the loop that lists the projects of an organisation.
-- * RelationTab (container/entity-crud/EntityDetailPage/EntityRelationTab.tsx) has the gates of the actions
--   of a relation tab, the sort of its list, and in CreateLink the compound creation: the mutation gives
--   the requests that it sends and what it settles with, over a server that is a function from requests
--   to replies, and settle is what its callbacks do to the state of the dialog. RelationTab/Dialogs has the
--   dialogs that create a child row, link a record and remove a link, and RelationTab/Dialogs/Events what
--   can happen to them.
-- * EntityList (container/entity-crud/EntityListPage) is the page with the list of an entity: the gates and
--   the request of its dialog, and in EntityList/Page its state, its handlers and the query of the list,
--   which EntityCrud/Query writes as the entries of a query string.
-- * EntityTable (components/organisms/entity-table) has what the table of an entity offers for its props, and in
--   EntityTable/Choice its choice of columns, with the storage of the browser in its state; Columns/Storage/Kept
--   says what that storage is to all entities.
-- * FieldValues (pages/admin/useFkLabels.ts, components/molecules/entity-field-value) has the labels of
--   foreign keys and what a cell renders; Pickers has the search field of a foreign key
--   (components/molecules/fk-autocomplete) and the scope selector (components/molecules/scope-selector).
-- * Header (components/organisms/app-header) has the color mode, with its place in localStorage, the
--   preference of the system and the attribute of the page, and Header/Switcher the menu of
--   organisations, whose requests carry a number.
-- * Workflow has what the pages of a plan and a cycle share: the answers of requests, the texts of errors
--   and a section with its loading flag. TestPlan (pages/workflows/TestPlanDetail) has the page of a test
--   plan: TestPlan/Edit the payload of an edit, TestPlan/Page the state with its fetches and its handlers,
--   TestPlan/Page/Events what can happen to it. TestCycle (pages/workflows/TestCycleDetail) has the texts
--   of the page of a test cycle, TestCycle/Dashboard its counts, its table and the dialogs that write,
--   and TestCycle/History the dialog with the log of an execution. ProjectPage (pages/workflows/ProjectDetail)
--   has three sections of the page of a project: the releases with their cycles, the suites with their
--   members, and in ProjectPage/Keyed the lists that open under a row.
-- * Base has the shared lists, names and association lists, Json the values of JSON.parse, and Tests
--   the concrete runs.
--
-- A function keeps its name in snake case: filtersFromConditions is filters_from_conditions. A field
-- that may be absent is an Option; an undefined field and a null one are told apart only where the code
-- does. A Record, a Map and localStorage are association lists in the order of insertion; the order
-- that JavaScript gives to keys that look like numbers, and the keys that objects inherit, are left out.
-- A Set of names is a list without duplicates where its order can be seen, and a test else. Indices of a
-- list that the code compares with 0 are integers; pages and sizes are natural numbers, and a size is
-- positive where a theorem says so. Every loop is structural recursion, but for listProjects, which
-- has no bound in the source: list_projects has fuel, one unit for a page, and the theorems on it say
-- how much is enough.
--
-- Concurrency is explicit. Session/Client is a list of calls and one event for each point at which the
-- code awaits: the response, the end of the shared refresh, the resumption of a call. Session/Provider
-- has an event for each effect and callback, with the answer of its request. Both step functions are
-- total, and an event that does not fit the state changes nothing. Header/Switcher, TestCycle/History,
-- EntityList/Page, RelationTab/Dialogs, Pickers/Autocomplete, TestPlan/Page and the three sections of
-- ProjectPage have the answer to a request as an event of its own, so that answers come at any time and
-- in any order; what a section shows is then stated from the history of its events. What a handler has
-- captured from the render in which it was called is an argument of its event. The handlers of
-- TestCycle/Dashboard run to their end, with their requests, in one step.
--
-- What is not in the repository is a parameter: JSON.parse and JSON.stringify (with the round trip on
-- the values that are stored, and that their texts are not empty), matchPath of the router, what the
-- queries of react-query hold, the answers to the pages that listProjects asks for, the service behind
-- the page of a cycle (TestCycle.Dashboard.Service), and the order
-- of localeCompare. The schema that a form hands to zod is a value of its own type, and what
-- zod makes of it a parameter (EntityForm.Validation.IsZod has what its documentation says of the calls). Rendering, styles and the thin wrappers around single requests are left out,
-- and so is the backend.
pub mod Base
pub mod Json
pub mod Entity
pub mod Filters
pub mod Columns
pub mod Session
pub mod Paging
pub mod Admin
pub mod Navigation
pub mod EntityForm
pub mod EntityCrud
pub mod RelationTab
pub mod EntityList
pub mod EntityTable
pub mod FieldValues
pub mod Pickers
pub mod Projects
pub mod Header
pub mod Workflow
pub mod TestPlan
pub mod TestCycle
pub mod ProjectPage
pub mod Tests
