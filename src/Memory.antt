-- ===== src/Memory.antt =====
-- src/arema/memory: the store, its queries, its codecs and its service.
pub mod Models
pub mod Store
pub mod Cursor
pub mod Query
pub mod Program
pub mod Integrity
pub mod Paging
pub mod Locking
pub mod Codecs
pub mod Service
mod Tests
mod ServiceTests
