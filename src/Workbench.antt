-- ===== src/Workbench.antt =====
-- src/reverse_engineering/tools/workbench and src/arema/runtime/callbacks/turn_limit.py: what bounds
-- the work of an agent. The session state is a dict of JSON values.
pub mod State
pub mod Budget
pub mod Thrash
mod Tests
