-- ===== src/Task/Plugin.antt =====
-- backend/internal/task/plugin: what a plugin is, and the plugins.
pub mod State
pub mod Fsm
pub mod Tables
pub mod Rules
pub mod Rounds
pub mod Api
pub mod Config
pub mod FormDisplay
pub mod SimpleForm
pub mod Payment
pub mod WaitForEvent
