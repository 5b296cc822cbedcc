-- ===== src/OrchestratorUi.antt =====
-- packages/yucca-sdk/orchestration-ui/src/lib: what the user interface keeps of the agent's answers. A query
-- that was not made has no data (`none`).
pub mod Schedules
mod Tests
