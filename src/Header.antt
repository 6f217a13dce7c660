-- ===== src/Header.antt =====
-- components/organisms/app-header/app-header.tsx: the organisation switcher and the color mode.
pub mod ColorMode
pub mod Switcher
