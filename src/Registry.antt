-- ===== src/Registry.antt =====
-- src/arema/registry: the capability descriptors, and the catalog that checks them and their graph.
pub mod Descriptors
pub mod Acyclic
pub mod References
pub mod Reachable
pub mod Graph
pub mod AgentChecks
pub mod ToolChecks
pub mod Builder
mod Tests
mod BuilderTests
