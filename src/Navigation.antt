-- ===== src/Navigation.antt =====
-- The navigation around the pages: the breadcrumb, the sidebar, and the organisation of a route.
pub mod OrgContext
pub mod Breadcrumb
pub mod Sidebar
