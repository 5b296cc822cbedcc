-- ===== src/YuccaApi.antt =====
-- packages/yucca-api/src: the API that owns accounts, repositories and their metrics.
pub mod Auth
pub mod Repositories
pub mod Metrics
