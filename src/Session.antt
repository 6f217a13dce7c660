-- ===== src/Session.antt =====
-- The signed-in session: lib/auth/tokenStore.ts, lib/api/client.ts, auth/ and RootRedirect.
pub mod TokenStore
pub mod Client
pub mod Provider
pub mod Permissions
