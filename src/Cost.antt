-- ===== src/Cost.antt =====
-- src/runtime_context.c and src/cost_model.c: what the producer measures, the cost model, and the
-- decision. A pointer that the code tests for NULL is an `Option`.
pub mod Types
pub mod Names
pub mod Context
pub mod Config
pub mod Learn
pub mod Decide
pub mod Log
pub mod Stability
pub mod Waiting
pub mod Calibration
mod Tests
