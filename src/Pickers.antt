-- ===== src/Pickers.antt =====
-- components/molecules: the controls that pick a row of another entity.
pub mod Autocomplete
pub mod Selector
