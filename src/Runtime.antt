-- ===== src/Runtime.antt =====
-- agent_core/runtime/agent.py: the decide, validate, execute loop.
pub mod Data
pub mod Loop
pub mod Steps
pub mod Invariant
pub mod Rounds
pub mod Traces
pub mod Gate
mod Tests
