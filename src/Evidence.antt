-- ===== src/Evidence.antt =====
-- src/reverse_engineering: the bounded evidence that the stages of an analysis hand on through session
-- state.
mod Tests
mod OutputTests
pub mod CleanText
pub mod Envelope
pub mod Flow
pub mod Output
pub mod Verdict
