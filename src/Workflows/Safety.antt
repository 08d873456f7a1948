-- ===== src/Workflows/Safety.antt =====
-- What the engine of src/modules/workflows/workflow-engine.service.ts keeps of its runs, and the
-- changes of the state that keep it.
pub mod Invariant
pub mod Changes
pub mod Keys
pub mod Cleanup
pub mod Ending
pub mod Handling
pub mod Asking
pub mod Router
pub mod Steps
pub mod Performing
pub mod Jobs
pub mod Starting
pub mod Events
pub mod Expected
pub mod Alive
pub mod Progress
pub mod Machine
