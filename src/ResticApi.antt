-- ===== src/ResticApi.antt =====
-- packages/restic-api/src: the restic REST gateway in front of an S3 store.
pub mod Types
pub mod Storage
pub mod App
pub mod Access
pub mod Server
