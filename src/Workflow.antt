-- ===== src/Workflow.antt =====
-- The workflow engine of backend/internal/workflow.
pub mod Consignment
pub mod Model
pub mod Lifecycle
pub mod Unlock
pub mod NodeService
pub mod StateMachine
pub mod Transitions
pub mod Initialize
pub mod Manager
pub mod Tests
