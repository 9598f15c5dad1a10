-- ===== src/Runtime.antt =====
-- src/arema/runtime: what runs around the model and tool calls of an agent.
pub mod TokenUsage
pub mod TurnLimit
mod Tests
mod UsageTests
