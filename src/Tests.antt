-- ===== src/Tests.antt =====
-- Concrete runs of the components.
mod Samples
mod Session
mod Filters
mod Columns
mod Paging
mod Admin
mod Navigation
mod EntityForm
mod EntityCrud
mod Projects
mod RelationTab
mod EntityList
mod EntityTable
mod Pickers
mod FieldValues
mod Header
mod TestPlan
mod TestCycle
mod ProjectPage
