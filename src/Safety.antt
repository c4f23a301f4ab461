-- ===== src/Safety.antt =====
-- agent_core/safety and agent_core/tools/registry.py: what a run may do, and the gate between the
-- planner and every tool execution.
pub mod Url
pub mod Policy
pub mod Params
pub mod Results
pub mod Tools
pub mod Registry
pub mod Validator
pub mod Permitted
pub mod Complete
mod Tests
