-- ===== src/Recovery.antt =====
-- src/reverse_engineering: the bounded deobfuscation loop, its session state and the evidence that it
-- hands on.
mod Tests
mod GateTests
mod FlossTests
pub mod Cached
pub mod Floss
pub mod Gate
pub mod Hex
pub mod Keys
pub mod ModelJson
pub mod Plan
