-- ===== src/AdminApi.antt =====
-- packages/yucca-admin-api/src: the administration of accounts, sessions and repositories.
pub mod Auth
pub mod Users
pub mod Repositories
mod Tests
