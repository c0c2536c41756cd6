-- ===== src/Task.antt =====
pub mod Plugin
pub mod Store
pub mod LocalState
pub mod Container
pub mod Cache
pub mod Factory
pub mod Manager
pub mod Tests
