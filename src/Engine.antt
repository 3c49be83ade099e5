-- ===== src/Engine.antt =====
-- The engine's state and its transitions: `EngineState` of bytecaskdb/internals.cppm, `WritePlan`
-- and `TransientEngineState` of bytecaskdb/bytecask.cppm and bytecaskdb/engine_state.cpp.
pub mod Plan
pub mod State
pub mod Validate
pub mod Apply
pub mod Vacuum
pub mod Resume
pub mod Checked
